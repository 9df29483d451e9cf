-- ===== src/Audit/Tests.antt =====
-- Runs of KluxOS/src/security/audit.c.
use klux_os.Audit.Numbered.{IsNumbered}
use klux_os.Audit.Numbered.{IsNumbered}
use klux_os.Audit.Log.{log_lem, event_of, push, IsValid}
use klux_os.Audit.{events, max_audit_logs, Audit, Event, List, length, log, stored, no_buffer}
use klux_os.Base.{length-replicate, replicate, ◌≡◌, refl, arith, [], ◌∷◌, none, some}

abbrev blank : Event
blank = record { event_id = 0; timestamp = 0; event_type = 0; level = 0; user_id = 0; message = [] }

abbrev login : Event
login = record {
  event_id = 5;
  timestamp = 70;
  event_type = 1;
  level = 3;
  user_id = 9;
  message = [];
}

abbrev logout : Event
logout = record {
  event_id = 6;
  timestamp = 80;
  event_type = 2;
  level = 2;
  user_id = 9;
  message = [];
}

abbrev table : List Event
table = login ∷ logout ∷ replicate 1022 blank

abbrev audit : Audit
audit = record { logs = some table; audit_count = 2; next_event_id = 7; current_level = 3 }

table-length : length table ≡ max_audit_logs
table-length = omega (arith, length-replicate 1022 blank)

audit-IsValid : IsValid audit
audit-IsValid = record {
  storage = table;
  buffer = refl;
  places = table-length;
  count_in = omega arith;
}

audit-IsNumbered : IsNumbered audit
audit-IsNumbered = (5, refl, (refl, (refl, omega arith)))

no_table :
    log 1 3 9 [] 90 (record audit { logs = none }) ≡ (no_buffer, record audit { logs = none })
unfolding log
no_table = refl

log_lem_example :
    let (r, a') = log 3 2 9 (65 ∷ []) 90 audit in
    (r ≡ stored)
    × (events a' ≡ push (event_of 3 2 9 (65 ∷ []) 90 audit) (login ∷ logout ∷ []))
    × (a'.next_event_id ≡ 8)
    × (a'.current_level ≡ 3)
    × IsValid a'
log_lem_example = log_lem 3 2 9 (65 ∷ []) 90 audit audit-IsValid (omega arith, omega arith)

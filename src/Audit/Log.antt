-- ===== src/Audit/Log.antt =====
-- The table of KluxOS/src/security/audit.c against a bounded queue of events.
use klux_os.Audit.{
  events, level_none, stored, copy_message, log, take, ltb, leb, get_or, max_audit_logs, set,
  length, ℕ, Event, List, Audit, shift_from,
}
use klux_os.Base.{
  take-all, take-set, ◌==◌, ◌||◌, ◌^◌, get_or-take, ◌%◌, list_ext, length-drop, length-take, ◌++◌,
  ◌≢◌, dec_lt, get_or-set_ne, get_or-set_self, drop, ℕ_discrete, ◌&&◌, length-set, ◌-◌, ◌≤◌, ◌+◌,
  ◌<◌, ◌≡◌, zero, suc, refl, arith, [], ◌∷◌, some, true, false, ◌∙◌, ap, sym, if◌then◌else◌,
}

-- The buffer is there, with its 1024 places.
pub record IsValid (a : Audit) : Type 0 where
  pub storage : List Event
  pub buffer : a.logs ≡ some storage
  pub places : length storage ≡ max_audit_logs
  pub count_in : a.audit_count ≤ max_audit_logs

length-shift_from :
    (logs : List Event) (left i : ℕ) (blank : Event)
    → length (shift_from logs left i blank) ≡ length logs
unfolding shift_from
length-shift_from logs zero i blank = refl
length-shift_from logs (suc left) i blank =
    length-shift_from (set logs (i - 1) (get_or logs i blank)) left (i + 1) blank
    ∙ length-set logs (i - 1) (get_or logs i blank)

get_or-shift_from :
    (logs : List Event) (left i : ℕ) (d : Event) (j : ℕ)
    → 0 < i
    → i + left ≤ length logs
    → get_or (shift_from logs left i d) j d
      ≡ (if leb i (j + 1) && ltb (j + 1) (i + left) then get_or logs (j + 1) d else get_or logs j d)
unfolding shift_from
get_or-shift_from logs zero i d j pos fits = ground arith
get_or-shift_from logs (suc left) i d j pos fits =
    let v = get_or logs i d in
    let moved = set logs (i - 1) v in
    let ih =
      get_or-shift_from moved left (i + 1) d j (omega arith)
        (omega (arith, length-set logs (i - 1) v)) in
    elim (ℕ_discrete (i - 1) j) [
      | yes p ↦
          let at : get_or moved j d ≡ get_or logs (j + 1) d =
            ap (λ (n : ℕ). get_or moved n d) (sym p)
            ∙ get_or-set_self logs (i - 1) v d (omega arith)
            ∙ ap (λ (n : ℕ). get_or logs n d) (omega arith) in
          rw ih (rw at (ground arith))
      | no ne ↦
          let here = get_or-set_ne logs (i - 1) j v d ne in
          elim (dec_lt j i) [
            | yes below ↦ rw ih (rw here (ground (arith, ne)))
            | no above ↦
                let next = get_or-set_ne logs (i - 1) (j + 1) v d (omega arith) in
                rw ih (rw here (rw next (ground (arith, ne))))
          ]
    ]

in_shift :
    (left i j : ℕ) → i ≤ j + 1 → j + 1 < i + left → (leb i (j + 1) && ltb (j + 1) (i + left)) ≡ true
in_shift left i j low high = ground arith

get_or-drop_one :
    (logs : List Event) (j : ℕ) (d : Event) → get_or (drop 1 logs) j d ≡ get_or logs (j + 1) d
get_or-drop_one [] j d = refl
get_or-drop_one (x ∷ logs) j d = ap (λ (n : ℕ). get_or (x ∷ logs) n d) {x = suc j} (omega arith)

-- Moving every event down by one place drops the oldest.
take-shift_from :
    (logs : List Event) (d : Event)
    → length logs ≡ max_audit_logs
    → take (max_audit_logs - 1) (shift_from logs (max_audit_logs - 1) 1 d) ≡ drop 1 logs
take-shift_from logs d full =
    let moved = shift_from logs (max_audit_logs - 1) 1 d in
    let same : length moved ≡ length logs = length-shift_from logs (max_audit_logs - 1) 1 d in
    let n : length (take (max_audit_logs - 1) moved) ≡ max_audit_logs - 1 =
      length-take (max_audit_logs - 1) moved (omega (arith, same)) in
    let m : length (drop 1 logs) ≡ length logs - 1 = length-drop 1 logs in
    list_ext d (take (max_audit_logs - 1) moved) (drop 1 logs) (omega arith) (λ j lt.
      get_or-take moved (max_audit_logs - 1) j d (omega arith)
      ∙ get_or-shift_from logs (max_audit_logs - 1) 1 d j (omega arith) (omega arith)
      ∙ ap (λ b. if b then get_or logs (j + 1) d else get_or logs j d)
          (in_shift (max_audit_logs - 1) 1 j (omega arith) (omega arith))
      ∙ sym (get_or-drop_one logs j d))

-- The specification: a queue that drops its oldest event when it is full.
abbrev pub push : Event → List Event → List Event
push event q = (if leb max_audit_logs (length q) then drop 1 q else q) ++ event ∷ []

abbrev pub map_ids : List Event → List ℕ
map_ids [] = []
map_ids (event ∷ rest) = event.event_id ∷ map_ids rest

-- The level is on.
abbrev pub IsRecorded : ℕ → Audit → Type 0
IsRecorded level a = (level ≤ a.current_level) × (a.current_level ≢ level_none)

-- What is stored for a call.
abbrev pub event_of : (event_type level user_id : ℕ) → List ℕ → ℕ → Audit → Event
event_of event_type level user_id message now a = record {
  event_id = a.next_event_id;
  timestamp = now;
  event_type = event_type;
  level = level;
  user_id = user_id;
  message = copy_message message 255;
}

-- audit_log at a level that is on: it pushes one event, with the next id, on a queue of 1024 that
-- drops the oldest, the next call gets the id after it, and the table stays well formed.
pub log_lem :
    (event_type level user_id : ℕ) (message : List ℕ) (now : ℕ) (a : Audit)
    → IsValid a
    → IsRecorded level a
    → let (r, a') = log event_type level user_id message now a in
      (r ≡ stored)
      × (events a' ≡ push (event_of event_type level user_id message now a) (events a))
      × (a'.next_event_id ≡ (a.next_event_id + 1) % 2 ^ 32)
      × (a'.current_level ≡ a.current_level)
      × IsValid a'
unfolding log
log_lem event_type level user_id message now a valid (le, some_level) =
    let logs = valid.storage in
    let event = event_of event_type level user_id message now a in
    let on : (ltb a.current_level level || (a.current_level == level_none)) ≡ false =
      ground (arith, le, some_level) in
    let n : length (take a.audit_count logs) ≡ a.audit_count =
      length-take a.audit_count logs (omega (arith, valid.places, valid.count_in)) in
    elim (dec_lt a.audit_count max_audit_logs) [
      | yes room ↦
          let t : leb max_audit_logs a.audit_count ≡ false = ground (arith, room) in
          rw on (
            rw valid.buffer (
              rw n (
                rw t (
                  refl,
                  take-set logs a.audit_count event (omega (arith, valid.places)),
                  refl,
                  refl,
                  record {
                    storage = set logs a.audit_count event;
                    buffer = refl;
                    places = length-set logs a.audit_count event ∙ valid.places;
                    count_in = omega arith;
                  },
                ))))
      | no full ↦
          let t : leb max_audit_logs a.audit_count ≡ true = ground (arith, full) in
          let moved = shift_from logs (max_audit_logs - 1) 1 event in
          let len : length moved ≡ max_audit_logs =
            length-shift_from logs (max_audit_logs - 1) 1 event ∙ valid.places in
          let all : take a.audit_count logs ≡ logs =
            take-all logs a.audit_count (omega (arith, full, valid.places)) in
          rw on (
            rw valid.buffer (
              rw n (
                rw t (
                  refl,
                  take-set moved (max_audit_logs - 1) event (omega (arith, len))
                      ∙ ap (λ q. q ++ event ∷ [])
                          (take-shift_from logs event valid.places ∙ ap (drop 1) (sym all)),
                  refl,
                  refl,
                  record {
                    storage = set moved (max_audit_logs - 1) event;
                    buffer = refl;
                    places = length-set moved (max_audit_logs - 1) event ∙ len;
                    count_in = omega arith;
                  },
                ))))
    ]

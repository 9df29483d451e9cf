-- ===== src/Audit/Numbered.antt =====
-- The ids of the events of KluxOS/src/security/audit.c, and the log that audit_init leaves.
use klux_os.Audit.Log.{event_of, log_lem, map_ids, push, IsRecorded, IsValid}
use klux_os.Audit.{
  boot_message, level_info, level_none, leb, events, ltb, max_audit_logs, length, Event, Audit,
  List, init, log, ℕ, ignored,
}
use klux_os.Base.{
  length-drop, ◌-◌, length-append, length-take, dec_lt, ◌==◌, ◌||◌, drop, ◌++◌, ◌^◌, ◌≡◌, ◌≤◌, ◌+◌,
  ◌<◌, zero, refl, arith, [], ◌∷◌, some, true, false, ap, sym, if◌then◌else◌,
}

log-ignored :
    (event_type level user_id : ℕ) (message : List ℕ) (now : ℕ) (a : Audit)
    → a.current_level < level
    → log event_type level user_id message now a ≡ (ignored, a)
unfolding log
log-ignored event_type level user_id message now a off =
    let t : (ltb a.current_level level || (a.current_level == level_none)) ≡ true =
      ground (arith, off) in
    rw t refl

-- The ids count up by one from `n`.
abbrev pub Consecutive : ℕ → List Event → Type 0
Consecutive n [] = zero ≤ n
Consecutive n (event ∷ rest) = (event.event_id ≡ n) × Consecutive (n + 1) rest

Consecutive-append :
    (q : List Event) (event : Event) (n : ℕ)
    → Consecutive n q
    → event.event_id ≡ n + length q
    → Consecutive n (q ++ event ∷ [])
Consecutive-append [] event n h e = (omega arith, omega arith)
Consecutive-append (x ∷ q) event n (hx, h) e =
    (hx, Consecutive-append q event (n + 1) h (omega arith))

Consecutive-drop_one :
    (q : List Event) (n : ℕ) → 0 < length q → Consecutive n q → Consecutive (n + 1) (drop 1 q)
Consecutive-drop_one [] n some_event h = omega arith
Consecutive-drop_one (x ∷ q) n some_event (hx, h) = h

Consecutive-push :
    (q : List Event) (event : Event) (n : ℕ)
    → length q ≤ max_audit_logs
    → Consecutive n q
    → event.event_id ≡ n + length q
    → (m : ℕ) × (m + length (push event q) ≡ event.event_id + 1) × Consecutive m (push event q)
Consecutive-push q event n le h e = elim (dec_lt (length q) max_audit_logs) [
  | yes room ↦
      let t : leb max_audit_logs (length q) ≡ false = ground (arith, room) in
      rw t (n, omega (arith, length-append q (event ∷ [])), Consecutive-append q event n h e)
  | no full ↦
      let t : leb max_audit_logs (length q) ≡ true = ground (arith, full) in
      let d : length (drop 1 q) ≡ length q - 1 = length-drop 1 q in
      rw t (
        n + 1,
        omega (arith, length-append (drop 1 q) (event ∷ []), d),
        Consecutive-append (drop 1 q) event (n + 1) (Consecutive-drop_one q n (omega arith) h)
            (omega (arith, d)),
      )
]

-- The ids of the events that the log holds are consecutive and end just before the next id.
abbrev pub IsNumbered : Audit → Type 0
IsNumbered a = (m : ℕ) × (m + length (events a) ≡ a.next_event_id) × Consecutive m (events a)

-- audit_log at a level that is on, before the ids wrap: when the ids of the events held are
-- consecutive and end just before the next id, they are so afterwards.
pub log-IsNumbered :
    (event_type level user_id : ℕ) (message : List ℕ) (now : ℕ) (a : Audit)
    → IsValid a
    → IsRecorded level a
    → a.next_event_id + 1 < 2 ^ 32
    → IsNumbered a
    → IsNumbered (log event_type level user_id message now a).1
log-IsNumbered event_type level user_id message now a valid on small (n, end_at, ids) =
    let (r, held, next, lev, valid') = log_lem event_type level user_id message now a valid on in
    let event = event_of event_type level user_id message now a in
    let count : length (events a) ≡ a.audit_count =
      rw valid.buffer
        (length-take a.audit_count valid.storage (omega (arith, valid.places, valid.count_in))) in
    let (m, e, c) =
      Consecutive-push (events a) event n (omega (arith, count, valid.count_in)) ids (sym end_at) in
    rw held (m, omega (arith, e, next), c)

-- audit_init with a buffer of 1024 places, whatever came before: the table is well formed, its ids
-- are consecutive, and it holds the boot event with id 1 when the level is at least INFO, and
-- nothing otherwise.
pub init_lem :
    (logs : List Event) (now : ℕ) (a : Audit)
    → length logs ≡ max_audit_logs
    → let a' = init (some logs) now a in
      IsValid a'
      × IsNumbered a'
      × (map_ids (events a') ≡ (if leb level_info a.current_level then 1 ∷ [] else []))
unfolding init
init_lem logs now a places =
    let start : Audit = record a { logs = some logs; audit_count = 0; next_event_id = 1 } in
    let valid : IsValid start = record {
      storage = logs;
      buffer = refl;
      places = places;
      count_in = omega arith;
    } in
    let numbered : IsNumbered start = (1, refl, omega arith) in
    elim (dec_lt a.current_level level_info) [
      | yes off ↦
          let t : leb level_info a.current_level ≡ false = ground (arith, off) in
          rw (init, log-ignored 8 level_info 0 boot_message now start off)
            (rw t (valid, numbered, refl))
      | no on ↦
          let t : leb level_info a.current_level ≡ true = ground (arith, on) in
          let recorded : IsRecorded level_info start = (omega arith, omega arith) in
          let (r, held, next, lev, valid') =
            log_lem 8 level_info 0 boot_message now start valid recorded in
          rw t (
            valid',
            log-IsNumbered 8 level_info 0 boot_message now start valid recorded (omega arith)
                numbered,
            ap map_ids held,
          )
    ]

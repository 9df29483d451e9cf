-- ===== src/Audit/Find.antt =====
-- The searches of KluxOS/src/security/audit.c: audit_find_events and audit_view_logs.
use klux_os.Audit.Log.{map_ids, IsValid}
use klux_os.Audit.{
  length, ltb, events, wanted, leb, take, Audit, Bool, List, ℕ, Event, find_events, find_from,
  view_from, view_logs,
}
use klux_os.Base.{
  Bool-cases, dec_lt, ◌==◌, ◌≡◌, zero, suc, refl, arith, [], ◌∷◌, none, some, true, false, inl, inr,
  ap, if◌then◌else◌,
}

abbrev pub select : (Event → Bool) → List Event → List Event
select test [] = []
select test (event ∷ rest) = if test event then event ∷ select test rest else select test rest

find_from_lem :
    (q : List Event) (event_type user_id room : ℕ)
    → find_from q event_type user_id room
      ≡ take room (map_ids (select (wanted event_type user_id) q))
unfolding find_from
find_from_lem [] event_type user_id zero = refl
find_from_lem [] event_type user_id (suc room) = refl
find_from_lem (event ∷ rest) event_type user_id zero = refl
find_from_lem (event ∷ rest) event_type user_id (suc room) =
    elim (Bool-cases (wanted event_type user_id event)) [
      | inl yes_it ↦
          rw yes_it (ap (λ t. event.event_id ∷ t) (find_from_lem rest event_type user_id room))
      | inr no_it ↦ rw no_it (find_from_lem rest event_type user_id (suc room))
    ]

view_from_lem :
    (q : List Event) (start_id room : ℕ)
    → view_from q start_id room ≡ take room (select (λ event. leb start_id event.event_id) q)
unfolding view_from
view_from_lem [] start_id zero = refl
view_from_lem [] start_id (suc room) = refl
view_from_lem (event ∷ rest) start_id zero = refl
view_from_lem (event ∷ rest) start_id (suc room) = elim (dec_lt event.event_id start_id) [
  | yes below ↦
      let t : ltb event.event_id start_id ≡ true = ground (arith, below) in
      let u : leb start_id event.event_id ≡ false = ground (arith, below) in
      rw t (rw u (view_from_lem rest start_id (suc room)))
  | no above ↦
      let t : ltb event.event_id start_id ≡ false = ground (arith, above) in
      let u : leb start_id event.event_id ≡ true = ground (arith, above) in
      rw t (rw u (ap (λ t. event ∷ t) (view_from_lem rest start_id room)))
]

-- audit_find_events with somewhere to store: the ids of the first `max_results` events held that
-- have the type and the user asked for, 0 standing for any, and -1 when the log is empty.
pub find_events_lem :
    (event_type user_id max_results : ℕ) (a : Audit)
    → IsValid a
    → find_events event_type user_id true max_results a ≡ (
        if a.audit_count == 0
        then none
        else some (take max_results (map_ids (select (wanted event_type user_id) (events a)))))
unfolding find_events
find_events_lem event_type user_id max_results a valid = rw valid.buffer (
    ap (λ t. if a.audit_count == 0 then none else some t)
      (find_from_lem (take a.audit_count valid.storage) event_type user_id max_results))

-- audit_view_logs prints the first `count` events held whose id is at least `start_id`, and returns
-- -1 when there is none.
pub view_logs_lem :
    (start_id count : ℕ) (a : Audit)
    → IsValid a
    → let shown = take count (select (λ event. leb start_id event.event_id) (events a)) in
      view_logs start_id count a
      ≡ (if a.audit_count == 0 then none else if length shown == 0 then none else some shown)
unfolding view_logs
view_logs_lem start_id count a valid = rw valid.buffer (
    ap (λ t. if a.audit_count == 0 then none else if length t == 0 then none else some t)
      (view_from_lem (take a.audit_count valid.storage) start_id count))

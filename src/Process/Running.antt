-- ===== src/Process/Running.antt =====
-- Which processes run in KluxOS/src/kernel/process.c: process_switch, process_terminate and
-- process_create on the list.
use klux_os.Process.Schedule.{schedule_lem, IsAway, first_ready}
use klux_os.Process.{
  head_address, is_ready, schedule, terminate, unlink, switch_from, is_current, switch, Process,
  ProcessState, Scheduler, set_state, ready, running, blocked, terminated,
}
use klux_os.Base.{
  Option-cases, All-append, ◌++◌, Option, ℕ_discrete, ◌<◌, Bool-cases, ◌==◌, All, Bool, List, ◌≡◌,
  ℕ, refl, arith, [], ◌∷◌, none, some, true, false, inl, inr, ◌∙◌, ap, sym,
}

unfoldable pub is_running : ProcessState → Bool
is_running ready = false
is_running running = true
is_running blocked = false
is_running terminated = false

-- The processes that run are those at the address.
abbrev pub RunsAt : ℕ → List Process → Type 0
RunsAt address = All (λ p. is_running p.state ≡ (p.address == address))

-- The current process runs, and no other process of the list does.
abbrev pub IsConsistent : Scheduler → Type 0
IsConsistent s = (current : ℕ) × (s.current_process ≡ some current) × RunsAt current s.process_list

switch_states :
    (list : List Process) (current next : ℕ)
    → RunsAt current list
    → RunsAt next (set_state next running (set_state current ready list))
unfolding set_state is_running
switch_states [] current next runs = tt
switch_states (p ∷ list) current next (here, runs) =
    let rest = switch_states list current next runs in
    elim (Bool-cases (p.address == current)) [
      | inl c ↦ elim (Bool-cases (p.address == next)) [
        | inl n ↦ rw c (rw n (sym n, rest))
        | inr n ↦ rw c (rw n (sym n, rest))
      ]
      | inr c ↦ elim (Bool-cases (p.address == next)) [
        | inl n ↦ rw c (rw n (sym n, rest))
        | inr n ↦ rw c (rw n (here ∙ c ∙ sym n, rest))
      ]
    ]

-- process_switch to a process with an address, from a state where the current process alone runs,
-- returns, and leaves a state where that process is the current one and alone runs.
pub switch-IsConsistent :
    (next : ℕ) (s : Scheduler)
    → 0 < next
    → IsConsistent s
    → (s' : Scheduler) × (switch next s ≡ some s')
      × (s'.current_process ≡ some next)
      × RunsAt next s'.process_list
unfolding switch is_current switch_from
switch-IsConsistent next s real (current, is_cur, runs) =
    let z : (next == 0) ≡ false = ground (arith, real) in
    elim (ℕ_discrete current next) [
      | yes p ↦
          let same : is_current next s ≡ true =
            ap (λ (o : Option ℕ). elim o [ none ↦ false | some c ↦ c == next ]) is_cur
            ∙ ground (arith, p) in
          let e : switch next s ≡ some s = rw (switch, z) (rw same refl) in
          (s, e, is_cur ∙ ap some p, rw (sym p) runs)
      | no ne ↦
          let other : is_current next s ≡ false =
            ap (λ (o : Option ℕ). elim o [ none ↦ false | some c ↦ c == next ]) is_cur
            ∙ ground (arith, ne) in
          let s' : Scheduler = record s {
            process_list = set_state next running (set_state current ready s.process_list);
            current_process = some next;
          } in
          let e : switch next s ≡ some s' =
            rw (switch, z) (rw other (ap (λ o. switch_from o next s) is_cur)) in
          (s', e, refl, switch_states s.process_list current next runs)
    ]

at_equal : (P : Process → Type 0) {p x : Process} → p ≡ x → P x → P p
at_equal P e h = rw e h

first_ready-All :
    (P : Process → Type 0) (xs : List Process) (p : Process)
    → All P xs
    → first_ready xs ≡ some p
    → P p
first_ready-All P [] p h e = ground (arith, e)
first_ready-All P (x ∷ xs) p (hx, h) e = elim (Bool-cases (is_ready x.state)) [
  | inl is ↦
      let same : some x ≡ some p = rw is at e in
      let back : p ≡ x = ap (λ (o : Option Process). elim o [ none ↦ x | some q ↦ q ]) (sym same) in
      at_equal P back hx
  | inr not_it ↦ first_ready-All P xs p h (rw not_it at e)
]

choose :
    {o : Option Process} (s : Scheduler) {o' : Option Process}
    → o ≡ o'
    → elim o [ none ↦ some s | some p ↦ switch p.address s ]
      ≡ elim o' [ none ↦ some s | some p ↦ switch p.address s ]
choose s e = ap (λ (o : Option Process). elim o [ none ↦ some s | some p ↦ switch p.address s ]) e

-- process_schedule, when the current process is on the list and alone runs, no other process has its
-- address, and the other addresses are above 0: it returns, and the current process, the old one or
-- another, alone runs.
pub schedule-IsConsistent :
    (before later : List Process) (cur : Process) (s : Scheduler)
    → s.process_list ≡ before ++ cur ∷ later
    → s.current_process ≡ some cur.address
    → IsAway cur.address before
    → IsAway cur.address later
    → All (λ p. 0 < p.address) (later ++ before)
    → RunsAt cur.address s.process_list
    → (s' : Scheduler) × (schedule s ≡ some s') × IsConsistent s'
schedule-IsConsistent before later cur s on_list is_cur away_before away_later real runs =
    let e = schedule_lem before later cur s on_list is_cur away_before away_later in
    elim (Option-cases (first_ready (later ++ before))) [
      | inl nobody ↦ (s, e ∙ choose s nobody, (cur.address, is_cur, runs))
      | inr (p, found) ↦
          let (s', switched, now, runs') =
            switch-IsConsistent p.address s
              (first_ready-All (λ q. 0 < q.address) (later ++ before) p real found)
              (cur.address, is_cur, runs) in
          (s', e ∙ choose s found ∙ switched, (p.address, now, runs'))
    ]

unlink-append :
    (before later : List Process) (cur : Process)
    → IsAway cur.address before
    → unlink cur.address (before ++ cur ∷ later) ≡ before ++ later
unfolding unlink
unlink-append [] later cur away =
    let t : (cur.address == cur.address) ≡ true = ground arith in rw t refl
unlink-append (x ∷ before) later cur (ne, away) =
    let t : (x.address == cur.address) ≡ false = ground (arith, ne) in
    rw t (ap (λ l. x ∷ l) (unlink-append before later cur away))

-- The processes of a part of the list that are not the current one do not run.
idle :
    (list : List Process) (current : ℕ)
    → RunsAt current list
    → IsAway current list
    → All (λ p. is_running p.state ≡ false) list
idle [] current runs away = tt
idle (p ∷ list) current (here, runs) (ne, away) =
    (here ∙ ground (arith, ne), idle list current runs away)

All-split : (P : Process → Type 0) (xs ys : List Process) → All P (xs ++ ys) → All P xs × All P ys
All-split P [] ys h = (tt, h)
All-split P (x ∷ xs) ys (hx, h) = let (l, r) = All-split P xs ys h in ((hx, l), r)

-- process_terminate of the current process, when it alone runs and no other process of the list has
-- its address: it leaves the list, the head of what is left becomes the current process, and no
-- process of the list runs, the new current one included.
pub terminate-current :
    (before later : List Process) (cur : Process) (s : Scheduler)
    → s.process_list ≡ before ++ cur ∷ later
    → s.current_process ≡ some cur.address
    → 0 < cur.address
    → IsAway cur.address before
    → IsAway cur.address later
    → RunsAt cur.address (before ++ cur ∷ later)
    → let s' = terminate cur.address s in
      (s'.process_list ≡ before ++ later)
      × (s'.current_process ≡ head_address (before ++ later))
      × All (λ p. is_running p.state ≡ false) (before ++ later)
unfolding terminate is_current
terminate-current before later cur s on_list is_cur real away_before away_later runs =
    let z : (cur.address == 0) ≡ false = ground (arith, real) in
    let same : is_current cur.address s ≡ true =
      ap (λ (o : Option ℕ). elim o [ none ↦ false | some c ↦ c == cur.address ]) is_cur
      ∙ ground arith in
    let left : unlink cur.address s.process_list ≡ before ++ later =
      ap (unlink cur.address) on_list ∙ unlink-append before later cur away_before in
    let (runs_before, rest) =
      All-split (λ p. is_running p.state ≡ (p.address == cur.address)) before (cur ∷ later) runs in
    rw z (
      left,
      rw same (ap head_address left),
      All-append (λ p. is_running p.state ≡ false) before later
          (idle before cur.address runs_before away_before)
          (idle later cur.address rest.1 away_later),
    )

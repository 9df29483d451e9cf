-- ===== src/Process/Schedule.antt =====
-- What process_schedule of KluxOS/src/kernel/process.c picks: the loop ends, and takes the first
-- ready process after the current one, round the end of the list.
use klux_os.Process.{pick, switch, Scheduler, schedule, is_ready, Process, after, find_ready}
use klux_os.Base.{
  ap₂, Option-cases, sym, length-append, ◌∙◌, Bool-cases, ◌==◌, ◌+◌, ◌≡◌, ◌≢◌, All, Option, length,
  ◌++◌, List, ℕ, suc, refl, arith, [], ◌∷◌, none, some, true, false, inl, inr, ap, if◌then◌else◌,
}

abbrev pub first_ready : List Process → Option Process
first_ready [] = none
first_ready (p ∷ rest) = if is_ready p.state then some p else first_ready rest

-- No process of the list has the address.
abbrev pub IsAway : ℕ → List Process → Type 0
IsAway address = All (λ p. p.address ≢ address)

-- The loop goes through a part of the list that does not hold the current process.
find_ready-append :
    (list xs ys : List Process) (current turns : ℕ)
    → IsAway current xs
    → find_ready list current (length xs + turns) (xs ++ ys)
      ≡ elim (first_ready xs) [ some p ↦ some (some p) | none ↦ find_ready list current turns ys ]
unfolding find_ready
find_ready-append list [] ys current turns away =
    ap (λ (n : ℕ). find_ready list current n ys) (omega arith)
find_ready-append list (x ∷ xs) ys current turns (ne, away) =
    let t : (x.address == current) ≡ false = ground (arith, ne) in
    let n : length (x ∷ xs) + turns ≡ suc (length xs + turns) = omega arith in
    elim (Bool-cases (is_ready x.state)) [
      | inl is ↦ rw n (rw t (rw is refl))
      | inr not_it ↦ rw n (rw t (rw not_it (find_ready-append list xs ys current turns away)))
    ]

after-append :
    (before later : List Process) (cur : Process)
    → IsAway cur.address before
    → after cur.address (before ++ cur ∷ later) ≡ some later
unfolding after
after-append [] later cur away =
    let t : (cur.address == cur.address) ≡ true = ground arith in rw t refl
after-append (x ∷ before) later cur (ne, away) =
    let t : (x.address == cur.address) ≡ false = ground (arith, ne) in
    rw t (after-append before later cur away)

first_ready-append :
    (xs ys : List Process)
    → first_ready (xs ++ ys) ≡ elim (first_ready xs) [ some p ↦ some p | none ↦ first_ready ys ]
first_ready-append [] ys = refl
first_ready-append (x ∷ xs) ys = elim (Bool-cases (is_ready x.state)) [
  | inl is ↦ rw is refl
  | inr not_it ↦ rw not_it (first_ready-append xs ys)
]

append-nil : (xs : List Process) → xs ++ [] ≡ xs
append-nil [] = refl
append-nil (x ∷ xs) = ap (λ l. x ∷ l) (append-nil xs)

-- The second part of the round, from the head of the list to the current process.
find_ready_before :
    (before later : List Process) (cur : Process)
    → IsAway cur.address before
    → let list = before ++ cur ∷ later in
      find_ready list cur.address (suc (length before + 2)) [] ≡ some (first_ready before)
unfolding find_ready
find_ready_before before later cur away =
    let list = before ++ cur ∷ later in
    let at_cur : (cur.address == cur.address) ≡ true = ground arith in
    find_ready-append list before (cur ∷ later) cur.address 2 away
    ∙ elim (Option-cases (first_ready before)) [
      | inl nobody ↦ rw nobody (rw at_cur refl)
      | inr (p, found) ↦ rw found refl
    ]

find_ready_lem :
    (before later : List Process) (cur : Process)
    → IsAway cur.address before
    → IsAway cur.address later
    → let list = before ++ cur ∷ later in
      find_ready list cur.address (length list + 2) later ≡ some (first_ready (later ++ before))
find_ready_lem before later cur away_before away_later =
    let list = before ++ cur ∷ later in
    let turns : length list + 2 ≡ length later + suc (length before + 2) =
      omega (arith, length-append before (cur ∷ later)) in
    ap (λ (n : ℕ). find_ready list cur.address n later) turns
    ∙ ap (find_ready list cur.address (length later + suc (length before + 2)))
        (sym (append-nil later))
    ∙ find_ready-append list later [] cur.address (suc (length before + 2)) away_later
    ∙ elim (Option-cases (first_ready later)) [
      | inl nobody ↦ rw nobody (
          rw (first_ready-append later before)
            (rw nobody (find_ready_before before later cur away_before)))
      | inr (p, found) ↦ rw (first_ready-append later before) (rw found refl)
    ]

pick_lem :
    (before later : List Process) (cur : Process)
    → IsAway cur.address before
    → IsAway cur.address later
    → pick (before ++ cur ∷ later) (some cur.address) ≡ some (first_ready (later ++ before))
unfolding pick
pick_lem before later cur away_before away_later =
    rw (pick, after-append before later cur away_before)
      (find_ready_lem before later cur away_before away_later)

-- process_schedule while the current process is on the list, where no other process has its
-- address: the loop ends, and the code switches to the first ready process after the current one,
-- going on from the head of the list at its end; without one it changes nothing.
pub schedule_lem :
    (before later : List Process) (cur : Process) (s : Scheduler)
    → s.process_list ≡ before ++ cur ∷ later
    → s.current_process ≡ some cur.address
    → IsAway cur.address before
    → IsAway cur.address later
    → schedule s
      ≡ elim (first_ready (later ++ before)) [ none ↦ some s | some p ↦ switch p.address s ]
unfolding schedule
schedule_lem before later cur s on_list is_cur away_before away_later =
    let some_process : (length s.process_list == 0) ≡ false =
      ground (arith, ap length on_list, length-append before (cur ∷ later)) in
    let e : pick s.process_list s.current_process ≡ some (first_ready (later ++ before)) =
      ap₂ pick on_list is_cur ∙ pick_lem before later cur away_before away_later in
    rw some_process (
      rw e (elim (Option-cases (first_ready (later ++ before))) [
        | inl nobody ↦ rw nobody refl
        | inr (p, found) ↦ rw found refl
      ]))

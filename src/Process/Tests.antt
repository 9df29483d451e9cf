-- ===== src/Process/Tests.antt =====
-- Runs of KluxOS/src/kernel/process.c on three processes.
use klux_os.Process.Schedule.{schedule_lem, first_ready}
use klux_os.Process.Running.{
  schedule-IsConsistent, terminate-current, IsConsistent, RunsAt, is_running,
}
use klux_os.Process.{
  switch, ProcessState, terminate, Process, Scheduler, head_address, schedule, ready, running,
  blocked,
}
use klux_os.Base.{All, ◌≡◌, ℕ, refl, arith, [], ◌∷◌, none, some, false}

abbrev at_address : ℕ → ProcessState → Process
at_address address state = record {
  address = address;
  pid = address;
  name = [];
  state = state;
  eip = 0;
  eflags = 0x202;
  esp = 0;
  ebp = 0;
  kernel_stack = 0;
  kernel_stack_size = 4096;
}

abbrev shell : Process
shell = at_address 1 ready

abbrev worker : Process
worker = at_address 2 running

abbrev waiter : Process
waiter = at_address 3 blocked

abbrev three : Scheduler
three = record {
  process_list = shell ∷ worker ∷ waiter ∷ [];
  current_process = some 2;
  next_pid = 4;
  tick_count = 9;
  time_slice = 10;
}

three-RunsAt : RunsAt 2 (shell ∷ worker ∷ waiter ∷ [])
unfolding is_running
three-RunsAt = (refl, (refl, (refl, tt)))

schedule_lem_example : schedule three ≡ elim (first_ready (waiter ∷ shell ∷ [])) [
  | none ↦ some three
  | some p ↦ switch p.address three
]
schedule_lem_example =
    schedule_lem (shell ∷ []) (waiter ∷ []) worker three refl refl (omega arith, tt)
      (omega arith, tt)

schedule-IsConsistent_example : (s' : Scheduler) × (schedule three ≡ some s') × IsConsistent s'
schedule-IsConsistent_example =
    schedule-IsConsistent (shell ∷ []) (waiter ∷ []) worker three refl refl (omega arith, tt)
      (omega arith, tt) (omega arith, (omega arith, tt)) three-RunsAt

terminate-current_example :
    let s' = terminate 2 three in
    (s'.process_list ≡ shell ∷ waiter ∷ [])
    × (s'.current_process ≡ some 1)
    × All (λ p. is_running p.state ≡ false) (shell ∷ waiter ∷ [])
unfolding head_address
terminate-current_example =
    terminate-current (shell ∷ []) (waiter ∷ []) worker three refl refl (omega arith)
      (omega arith, tt) (omega arith, tt) three-RunsAt

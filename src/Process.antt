-- ===== src/Process.antt =====
-- KluxOS/src/kernel/process.c: the list of processes and the scheduler.
pub mod Schedule
pub mod Running
mod Tests
use klux_os.Base.{
  take, ◌^◌, ◌%◌, ◌||◌, length, ◌+◌, ◌==◌, Bool, List, Option, ℕ, zero, suc, [], ◌∷◌, none, some,
  true, false, if◌then◌else◌,
}

-- `process_state_t` in KluxOS/include/kernel/process.h.
pub data ProcessState : Type 0 where
  ready : ProcessState
  running : ProcessState
  blocked : ProcessState
  terminated : ProcessState

-- `process_t` under its address, with the registers that are set here; `next` is the order of the
-- list.
pub record Process : Type 0 where
  pub address : ℕ
  pub pid : ℕ
  pub name : List ℕ
  pub state : ProcessState
  pub eip : ℕ
  pub eflags : ℕ
  pub esp : ℕ
  pub ebp : ℕ
  pub kernel_stack : ℕ
  pub kernel_stack_size : ℕ

-- The variables `process_list`, `current_process` (none for a null pointer), `next_pid`,
-- `tick_count` and `time_slice`.
pub record Scheduler : Type 0 where
  pub process_list : List Process
  pub current_process : Option ℕ
  pub next_pid : ℕ
  pub tick_count : ℕ
  pub time_slice : ℕ

pub is_ready : ProcessState → Bool
is_ready ready = true
is_ready running = false
is_ready blocked = false
is_ready terminated = false

-- `address` and `stack` are the blocks that kmalloc returns.
pub create : (name : List ℕ) → (entry_point address stack : ℕ) → Scheduler → Scheduler
create name entry_point address stack s =
    let top = (stack + 4096) % 2 ^ 32 in
    let new_process : Process = record {
      address = address;
      pid = s.next_pid;
      name = take 31 name;
      state = ready;
      eip = entry_point;
      eflags = 0x202;
      esp = top;
      ebp = top;
      kernel_stack = stack;
      kernel_stack_size = 4096;
    } in
    record s { process_list = new_process ∷ s.process_list; next_pid = (s.next_pid + 1) % 2 ^ 32 }

-- The list without the process at an address.
pub unlink : ℕ → List Process → List Process
unlink address [] = []
unlink address (p ∷ rest) =
    let later = unlink address rest in if p.address == address then rest else p ∷ later

unfoldable pub head_address : List Process → Option ℕ
head_address [] = none
head_address (p ∷ rest) = some p.address

pub is_current : ℕ → Scheduler → Bool
is_current address s = elim s.current_process [ none ↦ false | some current ↦ current == address ]

-- 0 is the null pointer. The process itself is freed.
pub terminate : ℕ → Scheduler → Scheduler
terminate address s =
    if address == 0
    then s
    else (let list = unlink address s.process_list in
        record s {
          process_list = list;
          current_process = if is_current address s then head_address list else s.current_process;
        })

pub set_state : ℕ → ProcessState → List Process → List Process
set_state address state [] = []
set_state address state (p ∷ rest) =
    (if p.address == address then record p { state = state } else p) ∷ set_state address state rest

-- The switch away from the current process, none where that is a null pointer. The saved registers
-- are not in this state.
pub switch_from : Option ℕ → (next : ℕ) → Scheduler → Option Scheduler
switch_from none next s = none
switch_from (some current) next s = some (record s {
  process_list = set_state next running (set_state current ready s.process_list);
  current_process = some next;
})

pub switch : ℕ → Scheduler → Option Scheduler
switch next s =
    if (next == 0) || is_current next s then some s else switch_from s.current_process next s

-- A pointer into the list is the rest of the list from there on: `current->next`.
pub after : ℕ → List Process → Option (List Process)
after address [] = none
after address (p ∷ rest) =
    let later = after address rest in if p.address == address then some rest else later

-- The loop of `process_schedule`: the ready process found, none inside when it comes back to the
-- current one, and none when the turns run out.
pub find_ready : List Process → (current turns : ℕ) → List Process → Option (Option Process)
find_ready list current zero next = none
find_ready list current (suc turns) [] = find_ready list current turns list
find_ready list current (suc turns) (p ∷ rest) =
    let later = find_ready list current turns rest in
    if p.address == current then some none else if is_ready p.state then some (some p) else later

-- Where the loop of `process_schedule` ends, none where the code goes through a null pointer or
-- does not end. The turns are those of one round.
pub pick : List Process → Option ℕ → Option (Option Process)
pick list none = none
pick list (some current) = elim (after current list) [
  | none ↦ none
  | some next ↦ find_ready list current (length list + 2) next
]

pub schedule : Scheduler → Option Scheduler
schedule s =
    if length s.process_list == 0 then some s else elim (pick s.process_list s.current_process) [
      | none ↦ none
      | some none ↦ some s
      | some (some p) ↦ switch p.address s
    ]

pub has_two : List Process → Bool
has_two [] = false
has_two (p ∷ []) = false
has_two (p ∷ q ∷ rest) = true

-- The acknowledgement of the interrupt is left out.
pub tick : Scheduler → Option Scheduler
tick s =
    let ticked = record s { tick_count = (s.tick_count + 1) % 2 ^ 32 } in
    if ticked.tick_count % s.time_slice == 0
    then (if has_two s.process_list then schedule ticked else some ticked)
    else some ticked

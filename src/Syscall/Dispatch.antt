-- ===== src/Syscall/Dispatch.antt =====
-- The table of system calls of KluxOS/src/kernel/syscall.c, and the calls with no file.
use klux_os.Process.{terminate, Scheduler}
use klux_os.Base.{
  not, Bool, holds_below, holds_below_at, dec_lt, get_or, ◌&&◌, leb, replicate, Option, ◌≡◌, List,
  ℕ, refl, arith, ◌∷◌, none, some, true, false, sym, if◌then◌else◌,
}

-- The functions that `init_syscalls` puts into the table.
pub data Call : Type 0 where
  call_exit : Call
  call_fork : Call
  call_read : Call
  call_write : Call
  call_open : Call
  call_close : Call
  call_exec : Call
  call_time : Call
  call_getpid : Call
  call_sleep : Call
  call_malloc : Call
  call_free : Call

-- `syscall_table` after `init_syscalls`; none for a null pointer. The stores are in the order of
-- the numbers SYS_EXIT = 1 to SYS_FREE = 12.
abbrev pub syscall_table : List (Option Call)
syscall_table =
    none
    ∷ some call_exit
    ∷ some call_fork
    ∷ some call_read
    ∷ some call_write
    ∷ some call_open
    ∷ some call_close
    ∷ some call_exec
    ∷ some call_time
    ∷ some call_getpid
    ∷ some call_sleep
    ∷ some call_malloc
    ∷ some call_free
    ∷ replicate 19 none

-- The function that `syscall_handler` calls, none after its message for an invalid call.
unfoldable pub syscall_handler : (table : List (Option Call)) → (syscall_num : ℕ) → Option Call
syscall_handler table syscall_num =
    if leb 32 syscall_num then none else get_or table syscall_num none

-- `syscall_exit`: the status is not kept.
pub syscall_exit : Scheduler → Scheduler
syscall_exit sched = elim sched.current_process [
  | none ↦ sched
  | some address ↦ terminate address sched
]

agree : Bool → Bool → Bool
agree a b = if a then b else not b

agree→≡ : (a b : Bool) → agree a b ≡ true → a ≡ b
unfolding agree
agree→≡ true b h = sym h
agree→≡ false true h = h
agree→≡ false false h = refl

abbrev reaches : ℕ → Bool
reaches n = elim (syscall_handler syscall_table n) [ none ↦ false | some call ↦ true ]

all_agree : holds_below (λ n. agree (reaches n) (leb 1 n && leb n 12)) 32 ≡ true
unfolding holds_below agree syscall_handler
all_agree = refl

-- What the handler reaches is a function of the table exactly for the numbers 1 to 12.
pub syscall_handler_lem :
    (n : ℕ)
    → (elim (syscall_handler syscall_table n) [ none ↦ false | some call ↦ true ])
      ≡ (leb 1 n && leb n 12)
unfolding syscall_handler
syscall_handler_lem n = elim (dec_lt n 32) [
  | yes low ↦
      agree→≡ (reaches n) (leb 1 n && leb n 12)
        (holds_below_at (λ k. agree (reaches k) (leb 1 k && leb k 12)) 32 n low all_agree)
  | no high ↦ let t : leb 32 n ≡ true = ground (arith, high) in rw t (ground (arith, high))
]

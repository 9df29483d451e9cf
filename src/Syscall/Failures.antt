-- ===== src/Syscall/Failures.antt =====
-- What KluxOS/src/kernel/syscall.c does when a file cannot be opened.
use klux_os.Fs.Tree.{node_at, is_file}
use klux_os.Fs.Calls.{resolve_path}
use klux_os.Syscall.{System}
use klux_os.Syscall.Open.{
  create_file, o_creat, o_trunc, has_flag, find_free_fd, open_node, syscall_open,
}
use klux_os.Base.{
  ◌<◌, Bool-cases, ◌≡◌, Option, List, ℕ, zero, suc, refl, arith, none, some, true, false, inl, inr,
}

open_node-full :
    (turns node flags : ℕ) (sys : System)
    → find_free_fd sys.fd_table ≡ none
    → has_flag flags o_trunc ≡ false
    → open_node turns node flags sys ≡ some (none, sys)
unfolding open_node
open_node-full turns node flags sys full keep =
    elim (Bool-cases (is_file (node_at sys.fs.nodes node).kind)) [
      | inl t ↦ rw t (rw full (rw keep refl))
      | inr f ↦ rw f refl
    ]

-- An open that is to create a missing file, with O_CREAT and without O_TRUNC, while all
-- descriptors are in use: the file is made and stays in its directory, and the answer is -1.
pub syscall_open-full :
    (find : ℕ → List ℕ → Option ℕ) (turns now flags node : ℕ) (path : List ℕ) (sys sys' : System)
    → resolve_path find path sys.fs ≡ some 0
    → has_flag flags o_creat ≡ true
    → has_flag flags o_trunc ≡ false
    → create_file find turns true now path sys ≡ some (node, sys')
    → 0 < node
    → find_free_fd sys'.fd_table ≡ none
    → syscall_open find turns true now path flags sys ≡ some (none, sys')
unfolding syscall_open
syscall_open-full find turns now flags zero path sys sys' missing creat keep made pos full =
    absurd (omega arith)
syscall_open-full find turns now flags (suc i) path sys sys' missing creat keep made pos full =
    rw (missing, syscall_open)
      (rw creat (rw made (open_node-full turns (suc i) flags sys' full keep)))

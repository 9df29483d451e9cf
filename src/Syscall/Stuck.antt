-- ===== src/Syscall/Stuck.antt =====
-- The calls of KluxOS/src/kernel/syscall.c on the files that fs_create_node makes.
use klux_os.Fs.Tree.{create_node, file, FileSystem}
use klux_os.Syscall.{System}
use klux_os.Base.{◌≡◌, List, ℕ, true}

-- The place of the node that `fs_create_node` makes last.
abbrev pub IsCreated : (now : ℕ) (name : List ℕ) (fs : FileSystem) → System → Type 0
IsCreated now name fs sys = sys.fs ≡ (create_node true now name file fs).1

abbrev pub created : (now : ℕ) (name : List ℕ) → FileSystem → ℕ
created now name fs = (create_node true now name file fs).0

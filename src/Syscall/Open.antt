-- ===== src/Syscall/Open.antt =====
-- Opening and closing of files, and the dispatch, of KluxOS/src/kernel/syscall.c.
use klux_os.Fs.Calls.{fs_close, fs_open, get_parent_dir, resolve_path, before_last_slash}
use klux_os.Syscall.{max_fd, closed, with_node, entry_at, FdEntry, System}
use klux_os.Fs.Tree.{add_node, is_file, file, FileSystem, create_node, node_at, TreeNode}
use klux_os.Base.{
  ◌||◌, leb, set, ◌==◌, bit_and, length, ◌++◌, drop, not, replicate, ◌+◌, Bool, Option, ltb, List,
  ℕ, zero, suc, [], ◌∷◌, none, some, true, false, if◌then◌else◌,
}

-- The loop of `find_free_fd` from the descriptor `i`, over the entries from there on; none for -1.
unfoldable pub free_from : List FdEntry → (i : ℕ) → Option ℕ
free_from [] i = none
free_from (entry ∷ rest) i =
    let later = free_from rest (i + 1) in if entry.used then later else some i

unfoldable pub find_free_fd : List FdEntry → Option ℕ
find_free_fd table = free_from (drop 3 table) 3

-- O_CREAT, O_TRUNC and O_APPEND
abbrev pub o_creat : ℕ
o_creat = 0x0100

abbrev pub o_trunc : ℕ
o_trunc = 0x0200

abbrev pub o_append : ℕ
o_append = 0x0400

abbrev pub has_flag : (flags flag : ℕ) → Bool
has_flag flags flag = not (bit_and flags flag == 0)

-- `truncate` is a null pointer for every node, so that the contents are zeroed.
unfoldable pub truncated : TreeNode → TreeNode
truncated n = elim n.contents [
  | none ↦ n
  | some bytes ↦
      if ltb 0 n.length_of
      then record n {
        contents = some (replicate n.length_of 0 ++ drop n.length_of bytes);
        length_of = 0;
      }
      else n
]

-- `syscall_open` once the node is known. The descriptor, none for -1.
unfoldable pub open_node : (turns : ℕ) → (node flags : ℕ) → System → Option (Option ℕ × System)
open_node turns node flags sys =
    let n = node_at sys.fs.nodes node in
    let cut = if has_flag flags o_trunc then truncated n else n in
    let sys' = if has_flag flags o_trunc then with_node node cut sys else sys in
    let place : ℕ → System = λ fd. record sys' {
      fd_table = set sys'.fd_table fd (record {
        used = true;
        node = node;
        offset = if has_flag flags o_append then cut.length_of else 0;
      });
    } in
    if not (is_file n.kind) then some (none, sys) else elim (find_free_fd sys.fd_table) [
      | none ↦ some (none, sys')
      | some fd ↦
          if n.has_open
          then elim (fs_open turns node (place fd).fs) [
            | none ↦ none
            | some fs ↦ some (some fd, record (place fd) { fs = fs })
          ]
          else some (some fd, place fd)
    ]

-- The part of a path after its last slash.
unfoldable pub file_name : List ℕ → List ℕ
file_name path = elim (before_last_slash path) [
  | none ↦ path
  | some front ↦ drop (length front + 1) path
]

-- The part of `syscall_open` that makes a missing file. The address of the new node, 0 for -1.
unfoldable pub create_file :
    (find : ℕ → List ℕ → Option ℕ) (turns : ℕ) (room : Bool) (now : ℕ)
    → (path : List ℕ) → System
    → Option (ℕ × System)
create_file find turns room now path sys = elim (get_parent_dir find path sys.fs) [
  | none ↦ none
  | some zero ↦ some (0, sys)
  | some (suc i) ↦
      let (node, made) = create_node room now (file_name path) file sys.fs in
      if node == 0 then some (0, sys) else elim (add_node turns (suc i) node made) [
        | none ↦ none
        | some fs ↦ some (node, record sys { fs = fs })
      ]
]

-- `find` stands for `fs_finddir`.
unfoldable pub syscall_open :
    (find : ℕ → List ℕ → Option ℕ) (turns : ℕ) (room : Bool) (now : ℕ)
    → (path : List ℕ) (flags : ℕ) → System
    → Option (Option ℕ × System)
syscall_open find turns room now path flags sys = elim (resolve_path find path sys.fs) [
  | none ↦ none
  | some (suc i) ↦ open_node turns (suc i) flags sys
  | some zero ↦
      if has_flag flags o_creat
      then elim (create_file find turns room now path sys) [
        | none ↦ none
        | some (zero, sys') ↦ some (none, sys')
        | some (suc i, sys') ↦ open_node turns (suc i) flags sys'
      ]
      else some (none, sys)
]

-- True for 0 and false for -1.
unfoldable pub syscall_close : (turns : ℕ) → (fd : ℕ) → System → Option (Bool × System)
syscall_close turns fd sys =
    let entry = entry_at sys fd in
    let after : FileSystem → System =
      λ fs. record sys { fd_table = set sys.fd_table fd closed; fs = fs } in
    if leb max_fd fd
    then some (false, sys)
    else if leb fd 2
    then some (false, sys)
    else if not entry.used
    then some (false, sys)
    else if (entry.node == 0) || not (node_at sys.fs.nodes entry.node).has_close
    then some (true, after sys.fs)
    else elim (fs_close turns entry.node sys.fs) [ none ↦ none | some fs ↦ some (true, after fs) ]

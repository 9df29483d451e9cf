-- ===== src/Fs/Calls.antt =====
-- The functions of KluxOS/src/kernel/fs.c that go through a node's pointers, and its paths.
use klux_os.Fs.Tree.{is_directory, readlink, is_symlink, node_at, FileSystem}
use klux_os.Base.{
  length, not, ltb, take, ◌||◌, reverse, ◌==◌, Bool, Option, List, ℕ, zero, suc, [], ◌∷◌, none,
  some, true, false, if◌then◌else◌,
}

-- Each function calls what the node's pointer points to, which is the function itself when the
-- pointer is set. None when the turns are over: the call is still going on.
unfoldable pub fs_read : (turns : ℕ) → (node : ℕ) → FileSystem → Option (List ℕ)
fs_read zero node fs = none
fs_read (suc turns) node fs =
    let again = fs_read turns node fs in
    if (node == 0) || not (node_at fs.nodes node).has_read then some [] else again

-- The number of bytes written.
unfoldable pub fs_write : (turns : ℕ) → (node : ℕ) → FileSystem → Option ℕ
fs_write zero node fs = none
fs_write (suc turns) node fs =
    let again = fs_write turns node fs in
    if (node == 0) || not (node_at fs.nodes node).has_write then some 0 else again

unfoldable pub fs_open : (turns : ℕ) → (node : ℕ) → FileSystem → Option FileSystem
fs_open zero node fs = none
fs_open (suc turns) node fs =
    let again = fs_open turns node fs in
    if (node == 0) || not (node_at fs.nodes node).has_open then some fs else again

unfoldable pub fs_close : (turns : ℕ) → (node : ℕ) → FileSystem → Option FileSystem
fs_close zero node fs = none
fs_close (suc turns) node fs =
    let again = fs_close turns node fs in
    if (node == 0) || not (node_at fs.nodes node).has_close then some fs else again

unfoldable pub readdir : (turns : ℕ) → (node index : ℕ) → FileSystem → Option ℕ
readdir zero node index fs = none
readdir (suc turns) node index fs =
    let n = node_at fs.nodes node in
    let again = readdir turns node index fs in
    if (node == 0) || not (is_directory n.kind) || not n.has_readdir then some 0 else again

unfoldable pub finddir : (turns : ℕ) → (node : ℕ) → (name : List ℕ) → FileSystem → Option ℕ
finddir zero node name fs = none
finddir (suc turns) node name fs =
    let n = node_at fs.nodes node in
    let again = finddir turns node name fs in
    if (node == 0) || not (is_directory n.kind) || not n.has_finddir then some 0 else again

-- '/' and "." and ".."
abbrev pub slash : ℕ
slash = 47

abbrev pub dot : ℕ
dot = 46

-- `strcmp` is 0.
unfoldable pub same_name : List ℕ → List ℕ → Bool
same_name [] [] = true
same_name [] (d ∷ name) = false
same_name (c ∷ component) [] = false
same_name (c ∷ component) (d ∷ name) =
    let rest = same_name component name in if c == d then rest else false

-- One turn of the outer loop of `fs_resolve_path` after the component is read, which is not empty:
-- the node it leads to, 0 for a return of NULL. `find` stands for `fs_finddir`.
unfoldable pub enter :
    (find : ℕ → List ℕ → Option ℕ) → List ℕ → (current : ℕ) → FileSystem → Option ℕ
enter find component current fs =
    if same_name component (dot ∷ [])
    then some current
    else if same_name component (dot ∷ dot ∷ [])
    then (let up = (node_at fs.nodes current).parent in some (if up == 0 then current else up))
    else elim (find current component) [
      | none ↦ none
      | some next ↦
          if next == 0
          then some 0
          else if is_symlink (node_at fs.nodes next).kind
          then some (readlink next fs)
          else some next
    ]

-- The loop over the path; `component` is the part of a component that is read, its last character
-- first. A component of 127 characters ends without a slash, too.
unfoldable pub walk :
    (find : ℕ → List ℕ → Option ℕ) → (component path : List ℕ) (current : ℕ) → FileSystem → Option ℕ
walk find [] [] current fs = some current
walk find (d ∷ component) [] current fs = enter find (reverse (d ∷ component)) current fs
walk find [] (c ∷ path) current fs =
    let skip = walk find [] path current fs in
    let begin = walk find (c ∷ []) path current fs in if c == slash then skip else begin
walk find (d ∷ component) (c ∷ path) current fs =
    let longer = walk find (c ∷ d ∷ component) path current fs in
    let split : ℕ → Option ℕ = λ next. walk find (c ∷ []) path next fs in
    let ended : ℕ → Option ℕ = λ next. walk find [] path next fs in
    if c == slash
    then elim (enter find (reverse (d ∷ component)) current fs) [
      | none ↦ none
      | some next ↦ if next == 0 then some 0 else ended next
    ]
    else if ltb (length (d ∷ component)) 127
    then longer
    else elim (enter find (reverse (d ∷ component)) current fs) [
      | none ↦ none
      | some next ↦ if next == 0 then some 0 else split next
    ]

-- A path is the bytes before its 0. The slash in front is skipped, and the loop would skip it, too.
unfoldable pub resolve_path :
    (find : ℕ → List ℕ → Option ℕ) → (path : List ℕ) → FileSystem → Option ℕ
resolve_path find [] fs = some fs.fs_root
resolve_path find (c ∷ path) fs =
    let rest = walk find [] path fs.fs_root fs in
    let whole = walk find [] (c ∷ path) fs.fs_root fs in
    if fs.fs_root == 0 then some 0 else if c == slash then rest else whole

-- `strrchr` for the slash: what stands before the last one.
unfoldable pub before_last_slash : List ℕ → Option (List ℕ)
before_last_slash [] = none
before_last_slash (c ∷ path) = elim (before_last_slash path) [
  | some front ↦ some (c ∷ front)
  | none ↦ if c == slash then some [] else none
]

unfoldable pub get_parent_dir :
    (find : ℕ → List ℕ → Option ℕ) → (path : List ℕ) → FileSystem → Option ℕ
get_parent_dir find path fs = if fs.fs_root == 0 then some 0 else elim (before_last_slash path) [
  | none ↦ some fs.fs_root
  | some [] ↦ some fs.fs_root
  | some (c ∷ front) ↦ resolve_path find (take 255 (c ∷ front)) fs
]

-- ===== src/Fs/Stuck.antt =====
-- The functions of KluxOS/src/kernel/fs.c that call themselves through the pointers that
-- `fs_create_node` sets.
use klux_os.Fs.Siblings.{node_at-put_self}
use klux_os.Fs.Paths.{follow, resolve_path-join, join, IsName}
use klux_os.Fs.Tree.{
  is_file, cleared, perm_write, perm_read, file, is_directory, directory, node_at, FileSystem,
  TreeNode, new_node, create_node, init,
}
use klux_os.Fs.Calls.{
  resolve_path, dot, same_name, enter, finddir, fs_close, fs_open, fs_read, fs_write, readdir,
}
use klux_os.Base.{
  length-append, Option, get_or-append_right, ◌≤◌, get_or, bit_or, ◌-◌, ◌+◌, All, length, ◌==◌,
  ◌++◌, ◌<◌, ◌≡◌, List, ℕ, zero, suc, refl, arith, [], ◌∷◌, none, true, false, ◌∙◌, ap,
}

-- A node whose pointers are those of a directory, or of a file.
abbrev IsDirectoryNode : ℕ → FileSystem → Type 0
IsDirectoryNode a fs =
    let n = node_at fs.nodes a in
    (0 < a) × (is_directory n.kind ≡ true) × (n.has_finddir ≡ true) × (n.has_readdir ≡ true)

finddir-stuck :
    (turns a : ℕ) (name : List ℕ) (fs : FileSystem)
    → IsDirectoryNode a fs
    → finddir turns a name fs ≡ none
unfolding finddir
finddir-stuck zero a name fs dir = refl
finddir-stuck (suc turns) a name fs dir =
    let off : (a == 0) ≡ false = ground (arith, dir.0) in
    rw off (rw dir.1 (rw dir.2 (finddir-stuck turns a name fs dir)))

readdir-stuck :
    (turns a index : ℕ) (fs : FileSystem) → IsDirectoryNode a fs → readdir turns a index fs ≡ none
unfolding readdir
readdir-stuck zero a index fs dir = refl
readdir-stuck (suc turns) a index fs dir =
    let off : (a == 0) ≡ false = ground (arith, dir.0) in
    rw off (rw dir.1 (rw dir.3 (readdir-stuck turns a index fs dir)))

pub fs_read-stuck :
    (turns a : ℕ) (fs : FileSystem)
    → 0 < a
    → (node_at fs.nodes a).has_read ≡ true
    → fs_read turns a fs ≡ none
unfolding fs_read
fs_read-stuck zero a fs pos set_up = refl
fs_read-stuck (suc turns) a fs pos set_up =
    let off : (a == 0) ≡ false = ground (arith, pos) in
    rw off (rw set_up (fs_read-stuck turns a fs pos set_up))

fs_write-stuck :
    (turns a : ℕ) (fs : FileSystem)
    → 0 < a
    → (node_at fs.nodes a).has_write ≡ true
    → fs_write turns a fs ≡ none
unfolding fs_write
fs_write-stuck zero a fs pos set_up = refl
fs_write-stuck (suc turns) a fs pos set_up =
    let off : (a == 0) ≡ false = ground (arith, pos) in
    rw off (rw set_up (fs_write-stuck turns a fs pos set_up))

pub fs_open-stuck :
    (turns a : ℕ) (fs : FileSystem)
    → 0 < a
    → (node_at fs.nodes a).has_open ≡ true
    → fs_open turns a fs ≡ none
unfolding fs_open
fs_open-stuck zero a fs pos set_up = refl
fs_open-stuck (suc turns) a fs pos set_up =
    let off : (a == 0) ≡ false = ground (arith, pos) in
    rw off (rw set_up (fs_open-stuck turns a fs pos set_up))

pub fs_close-stuck :
    (turns a : ℕ) (fs : FileSystem)
    → 0 < a
    → (node_at fs.nodes a).has_close ≡ true
    → fs_close turns a fs ≡ none
unfolding fs_close
fs_close-stuck zero a fs pos set_up = refl
fs_close-stuck (suc turns) a fs pos set_up =
    let off : (a == 0) ≡ false = ground (arith, pos) in
    rw off (rw set_up (fs_close-stuck turns a fs pos set_up))

pub node_at-last :
    (nodes : List TreeNode) (n : TreeNode) → node_at (nodes ++ n ∷ []) (length nodes + 1) ≡ n
node_at-last nodes n =
    let i : length nodes + 1 - 1 ≡ length nodes = omega arith in
    ap (λ k. get_or (nodes ++ n ∷ []) k cleared) i
    ∙ get_or-append_right nodes (n ∷ []) (length nodes) cleared (omega arith)
    ∙ ap (λ k. get_or (n ∷ []) k cleared) {y = 0} (omega arith)

-- A call on a node that `fs_create_node` made never comes back, however many of its own calls it
-- makes: neither a look-up in a directory, nor a read or a write of a file, nor an open or a close.
pub create_node-stuck :
    (turns now index : ℕ) (name child : List ℕ) (fs : FileSystem)
    → let (dir, dirs) = create_node true now name directory fs in
      let (doc, files) = create_node true now name file fs in
      (finddir turns dir child dirs ≡ none)
      × (readdir turns dir index dirs ≡ none)
      × (fs_read turns doc files ≡ none)
      × (fs_write turns doc files ≡ none)
      × (fs_open turns doc files ≡ none)
      × (fs_close turns doc files ≡ none)
unfolding create_node new_node is_directory is_file
create_node-stuck turns now index name child fs =
    let d = new_node now name directory in
    let f = new_node now name file in
    let dirs : FileSystem = record fs { nodes = fs.nodes ++ d ∷ [] } in
    let files : FileSystem = record fs { nodes = fs.nodes ++ f ∷ [] } in
    let at_d = node_at-last fs.nodes d in
    let at_f = node_at-last fs.nodes f in
    let a = length fs.nodes + 1 in
    let pos : 0 < a = omega arith in
    let dir : IsDirectoryNode a dirs = (
      pos,
      ap (λ n. is_directory n.kind) at_d,
      ap (λ n. n.has_finddir) at_d,
      ap (λ n. n.has_readdir) at_d,
    ) in
    (
      finddir-stuck turns a child dirs dir,
      readdir-stuck turns a index dirs dir,
      fs_read-stuck turns a files pos (ap (λ n. n.has_read) at_f),
      fs_write-stuck turns a files pos (ap (λ n. n.has_write) at_f),
      fs_open-stuck turns a files pos (ap (λ n. n.has_open) at_f),
      fs_close-stuck turns a files pos (ap (λ n. n.has_close) at_f),
    )

init-IsDirectoryNode :
    (now : ℕ) (fs : FileSystem)
    → let after = init true now fs in IsDirectoryNode after.fs_root after
unfolding init create_node new_node is_directory
init-IsDirectoryNode now fs =
    let made = fs.nodes ++ new_node now (47 ∷ []) directory ∷ [] in
    let root = length fs.nodes + 1 in
    let n : TreeNode = record (node_at made root) {
      access = record { mask = bit_or perm_read perm_write; uid = 0; gid = 0 };
    } in
    let inside : root ≤ length made =
      omega (arith, length-append fs.nodes (new_node now (47 ∷ []) directory ∷ [])) in
    let last = node_at-last fs.nodes (new_node now (47 ∷ []) directory) in
    let at = node_at-put_self made root n (omega arith) inside in
    (
      omega arith,
      ap (λ m. is_directory m.kind) (at) ∙ ap (λ m. is_directory m.kind) last,
      ap (λ m. m.has_finddir) at ∙ ap (λ m. m.has_finddir) last,
      ap (λ m. m.has_readdir) at ∙ ap (λ m. m.has_readdir) last,
    )

-- After `fs_init`, no path whose first name is a proper one is ever resolved.
pub resolve_path-stuck :
    (turns now : ℕ) (name : List ℕ) (names : List (List ℕ)) (fs : FileSystem)
    → IsName name
    → All IsName names
    → same_name name (dot ∷ []) ≡ false
    → same_name name (dot ∷ dot ∷ []) ≡ false
    → let after = init true now fs in
      resolve_path (λ node child. finddir turns node child after) (join (name ∷ names)) after ≡ none
unfolding enter
resolve_path-stuck turns now name names fs ok rest here up =
    let after = init true now fs in
    let dir = init-IsDirectoryNode now fs in
    let find : ℕ → List ℕ → Option ℕ = λ node child. finddir turns node child after in
    let lost = finddir-stuck turns after.fs_root name after dir in
    let entered : enter find name after.fs_root after ≡ none = rw here (rw up (rw lost refl)) in
    resolve_path-join find (name ∷ names) after dir.0 (ok, rest) ∙ rw (entered, follow) refl

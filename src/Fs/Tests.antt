-- ===== src/Fs/Tests.antt =====
-- Runs of KluxOS/src/kernel/fs.c, and the theorems at concrete inputs.
use klux_os.Fs.Stuck.{create_node-stuck}
use klux_os.Fs.Removal.{remove_node-IsRemoved, IsRemoved}
use klux_os.Fs.Children.{add_node-IsAdded, IsAdded}
use klux_os.Fs.Paths.{resolve_path-join, follow, join}
use klux_os.Fs.Siblings.{IsChain}
use klux_os.Fs.Calls.{
  fs_close, fs_open, fs_write, dot, fs_read, readdir, finddir, same_name, enter, slash, walk,
  resolve_path,
}
use klux_os.Fs.Tree.{
  is_symlink, file, add_node, cleared, directory, remove_node, FileSystem, TreeNode, create_node,
  is_directory,
}
use klux_os.Base.{ℕ, ◌≡◌, ◌≢◌, All, List, refl, arith, [], ◌∷◌, none, some, true, if◌then◌else◌}

-- "etc"
abbrev etc : List ℕ
etc = 101 ∷ 116 ∷ 99 ∷ []

abbrev root_node : TreeNode
root_node = record cleared { kind = directory; children = 2; has_finddir = true }

-- The root with one child, and a node on its own.
abbrev small : FileSystem
small = record {
  nodes =
      root_node
      ∷ record cleared { kind = directory; name = etc; parent = 1 }
      ∷ record cleared { name = 104 ∷ [] }
      ∷ [];
  fs_root = 1;
}

resolved :
    resolve_path
      (λ node name. if same_name name etc then some 2 else some 0)
      (slash ∷ 101 ∷ 116 ∷ 99 ∷ slash ∷ dot ∷ dot ∷ [])
      small
    ≡ some 1
unfolding resolve_path walk enter same_name is_symlink
resolved = refl

root_is : is_directory root_node.kind ≡ true
unfolding is_directory
root_is = refl

etc_plain : All (λ c. c ≢ slash) etc
etc_plain = ((λ p. omega arith), ((λ p. omega arith), ((λ p. omega arith), tt)))

small-IsChain : IsChain small.nodes 2 (2 ∷ [])
small-IsChain = (refl, omega arith, omega arith, refl)

add_node-IsAdded_example :
    (fs' : FileSystem) × (add_node 1 1 3 small ≡ some fs') × IsAdded 1 3 (2 ∷ []) fs'
add_node-IsAdded_example =
    add_node-IsAdded 1 1 3 (2 ∷ []) small (omega arith) (omega arith) root_is (omega arith)
      (omega arith) refl ((λ p. omega arith), tt) small-IsChain (omega arith)

remove_node-IsRemoved_example :
    (fs' : FileSystem) × (remove_node 0 1 2 small ≡ some (true, fs')) × IsRemoved 1 2 [] fs'
remove_node-IsRemoved_example =
    remove_node-IsRemoved 0 1 2 [] [] small (omega arith) (omega arith) root_is small-IsChain
      (omega arith)

resolve_path-join_example :
    resolve_path (λ node name. some 2) (join (etc ∷ [])) small
    ≡ follow (λ node name. some 2) (etc ∷ []) 1 small
resolve_path-join_example =
    resolve_path-join (λ node name. some 2) (etc ∷ []) small (omega arith)
      ((omega arith, omega arith, etc_plain), tt)

create_node-stuck_example :
    let (dir, dirs) = create_node true 5 etc directory small in
    let (doc, files) = create_node true 5 etc file small in
    (finddir 9 dir etc dirs ≡ none)
    × (readdir 9 dir 0 dirs ≡ none)
    × (fs_read 9 doc files ≡ none)
    × (fs_write 9 doc files ≡ none)
    × (fs_open 9 doc files ≡ none)
    × (fs_close 9 doc files ≡ none)
create_node-stuck_example = create_node-stuck 9 5 0 etc etc small

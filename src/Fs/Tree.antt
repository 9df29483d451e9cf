-- ===== src/Fs/Tree.antt =====
-- The tree of nodes of KluxOS/src/kernel/fs.c. Nodes stand in a store and point to one another by
-- their addresses, from 1 on; 0 is the null pointer.
use klux_os.Base.{
  not, ◌++◌, ◌+◌, ◌-◌, ◌||◌, Option, bit_or, get_or, length, set, take, ◌==◌, Bool, List, ℕ, zero,
  suc, [], ◌∷◌, none, some, true, false, if◌then◌else◌,
}
use klux_os.Fs

-- `fs_node_type_t`
pub data Kind : Type 0 where
  file : Kind
  directory : Kind
  char_device : Kind
  block_device : Kind
  pipe : Kind
  symlink : Kind

-- `fs_node_t`. The kernel sets the function pointers to the functions of fs.c and to no others, and
-- `truncate` never: a flag says whether a pointer is set. The mask and the owners are in `access`.
pub record TreeNode : Type 0 where
  pub name : List ℕ
  pub access : Fs.Node
  pub length_of : ℕ
  pub created_time : ℕ
  pub modified_time : ℕ
  pub kind : Kind
  pub contents : Option (List ℕ)
  pub has_read : Bool
  pub has_write : Bool
  pub has_open : Bool
  pub has_close : Bool
  pub has_readdir : Bool
  pub has_finddir : Bool
  pub has_readlink : Bool
  pub parent : ℕ
  pub next : ℕ
  pub children : ℕ
  pub symlink_target : ℕ

pub record FileSystem : Type 0 where
  pub nodes : List TreeNode
  pub fs_root : ℕ

-- The node after the `memset` of `fs_create_node`.
abbrev pub cleared : TreeNode
cleared = record {
  name = [];
  access = record { mask = 0; uid = 0; gid = 0 };
  length_of = 0;
  created_time = 0;
  modified_time = 0;
  kind = file;
  contents = none;
  has_read = false;
  has_write = false;
  has_open = false;
  has_close = false;
  has_readdir = false;
  has_finddir = false;
  has_readlink = false;
  parent = 0;
  next = 0;
  children = 0;
  symlink_target = 0;
}

-- What a pointer points to, and a store through it.
abbrev pub node_at : List TreeNode → ℕ → TreeNode
node_at nodes a = get_or nodes (a - 1) cleared

abbrev pub put_node : List TreeNode → ℕ → TreeNode → List TreeNode
put_node nodes a node = set nodes (a - 1) node

unfoldable pub is_directory : Kind → Bool
is_directory directory = true
is_directory _ = false

unfoldable pub is_file : Kind → Bool
is_file file = true
is_file _ = false

unfoldable pub is_symlink : Kind → Bool
is_symlink symlink = true
is_symlink _ = false

-- FS_PERM_READ, FS_PERM_WRITE and FS_PERM_EXEC
abbrev pub perm_read : ℕ
perm_read = 1

abbrev pub perm_write : ℕ
perm_write = 2

-- The fields that `fs_create_node` sets; `now` is the answer of `get_tick_count`.
unfoldable pub new_node : (now : ℕ) → (name : List ℕ) → Kind → TreeNode
new_node now name kind = record cleared {
  name = take 127 name;
  created_time = now;
  modified_time = now;
  kind = kind;
  length_of = 0;
  access = record { mask = perm_read; uid = 0; gid = 0 };
  has_readdir = is_directory kind;
  has_finddir = is_directory kind;
  has_read = is_file kind;
  has_write = is_file kind;
  has_open = true;
  has_close = true;
}

-- `room` says whether `kmalloc` has a block; the address is that of a new one.
unfoldable pub create_node :
    (room : Bool) (now : ℕ) → (name : List ℕ) → Kind → FileSystem → ℕ × FileSystem
create_node room now name kind fs =
    if room
    then (length fs.nodes + 1, record fs { nodes = fs.nodes ++ new_node now name kind ∷ [] })
    else (0, fs)

-- The loop that goes to the last of the nodes after `current`; none when the turns are over.
unfoldable pub last_of : (turns : ℕ) → List TreeNode → (current : ℕ) → Option ℕ
last_of zero nodes current = none
last_of (suc turns) nodes current =
    let rest = last_of turns nodes (node_at nodes current).next in
    if (node_at nodes current).next == 0 then some current else rest

unfoldable pub add_node : (turns : ℕ) → (parent child : ℕ) → FileSystem → Option FileSystem
add_node turns parent child fs =
    let owned = put_node fs.nodes child (record (node_at fs.nodes child) { parent = parent }) in
    let first = (node_at owned parent).children in
    if (parent == 0) || (child == 0)
    then some fs
    else if not (is_directory (node_at fs.nodes parent).kind)
    then some fs
    else if first == 0
    then some (record fs {
      nodes = put_node owned parent (record (node_at owned parent) { children = child });
    })
    else elim (last_of turns owned first) [
      | none ↦ none
      | some last ↦
          some (record fs {
            nodes = put_node owned last (record (node_at owned last) { next = child });
          })
    ]

-- The loop that goes to the node before `node`; some 0 when there is no such node.
unfoldable pub before : (turns : ℕ) → List TreeNode → (node current : ℕ) → Option ℕ
before zero nodes node current = none
before (suc turns) nodes node current =
    let rest = before turns nodes node (node_at nodes current).next in
    if (current == 0) || ((node_at nodes current).next == node) then some current else rest

-- What a removal does to the node that it took out.
unfoldable pub detach : (node : ℕ) → FileSystem → FileSystem
detach node fs = record fs {
  nodes = put_node fs.nodes node (record (node_at fs.nodes node) { parent = 0; next = 0 });
}

-- True for 0 and false for -1.
unfoldable pub remove_node :
    (turns : ℕ) → (parent node : ℕ) → FileSystem → Option (Bool × FileSystem)
remove_node turns parent node fs =
    let p = node_at fs.nodes parent in
    let after = (node_at fs.nodes node).next in
    if (parent == 0) || (node == 0)
    then some (false, fs)
    else if not (is_directory p.kind)
    then some (false, fs)
    else if p.children == node
    then some (
      true,
      detach node (record fs { nodes = put_node fs.nodes parent (record p { children = after }) }),
    )
    else elim (before turns fs.nodes node p.children) [
      | none ↦ none
      | some zero ↦ some (false, fs)
      | some (suc i) ↦ some (
        true,
        detach node (record fs {
          nodes = put_node fs.nodes (suc i) (record (node_at fs.nodes (suc i)) { next = after });
        }),
      )
    ]

-- The masks of the root are those that `fs_init` sets.
unfoldable pub init : (room : Bool) (now : ℕ) → FileSystem → FileSystem
init room now fs =
    let (root, made) = create_node room now (47 ∷ []) directory fs in
    if room
    then record made {
      nodes = put_node made.nodes root (record (node_at made.nodes root) {
        access = record { mask = bit_or perm_read perm_write; uid = 0; gid = 0 };
      });
      fs_root = root;
    }
    else record made { fs_root = root }

unfoldable pub create_symlink :
    (room : Bool) (now : ℕ) → (name : List ℕ) (target : ℕ) → FileSystem → ℕ × FileSystem
create_symlink room now name target fs =
    let (link, made) = create_node room now name symlink fs in
    if target == 0
    then (0, fs)
    else if room
    then (
      link,
      record made {
        nodes =
            put_node made.nodes link
              (record (node_at made.nodes link) { symlink_target = target; has_readlink = true });
      },
    )
    else (0, fs)

unfoldable pub readlink : (link : ℕ) → FileSystem → ℕ
readlink link fs =
    let n = node_at fs.nodes link in
    if (link == 0) || not (is_symlink n.kind) then 0 else n.symlink_target

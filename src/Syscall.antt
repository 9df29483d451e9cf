-- ===== src/Syscall.antt =====
-- KluxOS/src/kernel/syscall.c: the system calls on files, with their table of descriptors.
pub mod Open
pub mod Descriptors
pub mod Stuck
pub mod Failures
pub mod Dispatch
mod Tests
use klux_os.Fs.Calls.{fs_write, fs_read}
use klux_os.Terminal.{write, Terminal}
use klux_os.Fs.Tree.{perm_write, perm_read, node_at, FileSystem, put_node, TreeNode}
use klux_os.Fs.Tree
use klux_os.Base.{
  bit_and, ◌||◌, not, ◌==◌, drop, leb, ltb, replicate, ◌-◌, length, ◌%◌, ◌++◌, ◌^◌, Option, get_or,
  set, take, ◌+◌, Bool, List, ℕ, zero, suc, refl, arith, [], ◌∷◌, none, some, true, false,
  if◌then◌else◌,
}

abbrev pub max_fd : ℕ
max_fd = 32

-- `fd_entry_t`; its `flags` are never read or set. A node is its address, 0 for none.
pub record FdEntry : Type 0 where
  pub used : Bool
  pub node : ℕ
  pub offset : ℕ

abbrev pub closed : FdEntry
closed = record { used = false; node = 0; offset = 0 }

-- The table, and what the calls reach through their externs and pointers: the file system, the
-- first `keyboard_buffer_pos` bytes of `keyboard_buffer`, and the screen.
pub record System : Type 0 where
  pub fd_table : List FdEntry
  pub fs : FileSystem
  pub keyboard : List ℕ
  pub screen : Terminal

abbrev pub entry_at : System → ℕ → FdEntry
entry_at sys fd = get_or sys.fd_table fd closed

-- The file system with one node changed.
abbrev pub with_node : ℕ → TreeNode → System → System
with_node a node sys = record sys { fs = record sys.fs { nodes = put_node sys.fs.nodes a node } }

-- What a call returns: its number and the bytes it puts into the caller's buffer, or -1.
pub data Answer : Type 0 where
  failed : Answer
  done : (count : ℕ) (bytes : List ℕ) → Answer

-- A file without a `read` function. The number of bytes left wraps when the offset is past the
-- length.
unfoldable pub read_contents : (count : ℕ) → FdEntry → TreeNode → ℕ × List ℕ
read_contents count entry n = elim n.contents [
  | none ↦ (0, [])
  | some bytes ↦
      let remaining = (n.length_of + (2 ^ 32 - entry.offset)) % 2 ^ 32 in
      let size = if ltb remaining count then remaining else count in
      (size, take size (drop entry.offset bytes))
]

abbrev pub moved_on : (fd count : ℕ) → System → System
moved_on fd count sys =
    let entry = entry_at sys fd in
    record sys {
      fd_table = set sys.fd_table fd (record entry { offset = (entry.offset + count) % 2 ^ 32 });
    }

-- `syscall_read`, for a descriptor as a 32-bit word, whose negative numbers are 2^31 and more.
-- None when a function of the file system is still calling itself after its turns. The loop for the
-- keyboard moves the bytes that are left to the front of their buffer.
unfoldable pub syscall_read : (turns : ℕ) → (fd count : ℕ) → System → Option (Answer × System)
syscall_read turns fd count sys =
    let entry = entry_at sys fd in
    let n = node_at sys.fs.nodes entry.node in
    let available = length sys.keyboard in
    let to_read = if ltb available count then available else count in
    if leb max_fd fd
    then some (failed, sys)
    else if not entry.used
    then some (failed, sys)
    else if fd == 0
    then some (
      done to_read (take to_read sys.keyboard),
      record sys { keyboard = drop to_read sys.keyboard },
    )
    else if entry.node == 0
    then some (failed, sys)
    else if bit_and n.access.mask perm_read == 0
    then some (failed, sys)
    else if n.has_read
    then elim (fs_read turns entry.node sys.fs) [
      | none ↦ none
      | some bytes ↦ some (done (length bytes) bytes, moved_on fd (length bytes) sys)
    ]
    else (let (size, bytes) = read_contents count entry n in
        some (done size bytes, moved_on fd size sys))

-- The bytes of a file, 0 where nothing was written.
abbrev pub content_of : TreeNode → List ℕ
content_of n = elim n.contents [ none ↦ [] | some bytes ↦ bytes ]

-- `krealloc` and the `memset` behind it. `fresh` is what the new block holds at first. `krealloc`
-- copies 256 bytes, or less when the new size is less; the `memset` clears what is behind the old
-- length. A file without contents gets the block as it is.
unfoldable pub resized : (fresh : List ℕ) (size : ℕ) → TreeNode → TreeNode
resized fresh size n =
    let copied = if ltb size 256 then size else 256 in
    let block : List ℕ = elim n.contents [
      | none ↦ fresh
      | some old ↦ take copied old ++ drop (length (take copied old)) fresh
    ] in
    record n {
      contents = some (take n.length_of block ++ replicate (size - n.length_of) 0);
      length_of = size;
    }

-- `memcpy` into the contents.
unfoldable pub store_bytes : (offset : ℕ) → List ℕ → TreeNode → TreeNode
store_bytes offset bytes n =
    let old = content_of n in
    record n { contents = some (take offset old ++ (bytes ++ drop (offset + length bytes) old)) }

-- A file without a `write` function; `block` is what the block of `krealloc` holds, none without a
-- block. None for -1.
unfoldable pub write_contents :
    (block : Option (List ℕ)) → (bytes : List ℕ) → FdEntry → TreeNode → Option TreeNode
write_contents block bytes entry n =
    let new_size = (entry.offset + length bytes) % 2 ^ 32 in
    let store : TreeNode → TreeNode =
      λ m. if length bytes == 0 then m else store_bytes entry.offset bytes m in
    if ltb n.length_of new_size
    then elim block [ none ↦ none | some fresh ↦ some (store (resized fresh new_size n)) ]
    else some (store n)

-- `now` is the answer of `get_tick_count`.
unfoldable pub syscall_write :
    (turns : ℕ) (block : Option (List ℕ)) (now : ℕ)
    → (fd : ℕ) (bytes : List ℕ) → System
    → Option (Answer × System)
syscall_write turns block now fd bytes sys =
    let entry = entry_at sys fd in
    let n = node_at sys.fs.nodes entry.node in
    let stamp : TreeNode → System =
      λ m. with_node entry.node (record m { modified_time = now }) sys in
    if leb max_fd fd
    then some (failed, sys)
    else if (fd == 1) || (fd == 2)
    then some (done (length bytes) [], record sys { screen = write bytes sys.screen })
    else if not entry.used
    then some (failed, sys)
    else if entry.node == 0
    then some (failed, sys)
    else if bit_and n.access.mask perm_write == 0
    then some (failed, sys)
    else if n.has_write
    then elim (fs_write turns entry.node sys.fs) [
      | none ↦ none
      | some count ↦ some (done count [], moved_on fd count (stamp n))
    ]
    else elim (write_contents block bytes entry n) [
      | none ↦ some (failed, sys)
      | some m ↦ some (done (length bytes) [], moved_on fd (length bytes) (stamp m))
    ]

-- ===== src/Fs.antt =====
-- KluxOS/src/kernel/fs.c: the check of a node's permission bits, and the tree of nodes below.
pub mod Tree
pub mod Calls
pub mod Siblings
pub mod Children
pub mod Removal
pub mod Paths
pub mod Stuck
mod Tests
use klux_os.Base.{◌%◌, ◌^◌, ◌*◌, bit_and, ◌==◌, Bool, ℕ, true, if◌then◌else◌}

-- The fields of `fs_node_t` that access depends on.
pub record Node : Type 0 where
  pub mask : ℕ
  pub uid : ℕ
  pub gid : ℕ

-- The owner has bits 6 to 8 of the mask, the group bits 3 to 5, and everyone else bits 0 to 2.
unfoldable pub check_permission : Node → (access_mask uid gid : ℕ) → Bool
check_permission node access_mask uid gid =
    if uid == 0
    then true
    else if node.uid == uid
    then bit_and node.mask (access_mask * 2 ^ 6 % 2 ^ 32) == access_mask * 2 ^ 6 % 2 ^ 32
    else if node.gid == gid
    then bit_and node.mask (access_mask * 2 ^ 3 % 2 ^ 32) == access_mask * 2 ^ 3 % 2 ^ 32
    else (bit_and node.mask access_mask == access_mask)

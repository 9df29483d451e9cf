-- ===== src/Acl.antt =====
-- KluxOS/src/security/acl.c: access control lists and the resources they protect.
pub mod Entries
pub mod Check
pub mod Protect
mod Tests
use klux_os.Fs
use klux_os.Base.{
  bit_or, ◌&&◌, ◌||◌, Option, bit_and, length, ◌++◌, ◌+◌, ◌==◌, Bool, List, ℕ, zero, suc, [], ◌∷◌,
  none, some, true, false, if◌then◌else◌,
}

-- `acl_entry_t` in KluxOS/include/security/acl.h. A set of permissions is a word.
pub record Entry : Type 0 where
  pub user_id : ℕ
  pub group_id : ℕ
  pub permissions : ℕ

abbrev pub user_root : ℕ
user_root = 0

-- `acl_resource_type_t`.
pub data ResourceType : Type 0 where
  file : ResourceType
  process : ResourceType
  memory : ResourceType
  network : ResourceType

-- `acl_resource_t`; `acl` is none while it is a null pointer, and holds `acl_count` entries
-- otherwise. `target` is the address of the protected object.
pub record Resource : Type 0 where
  pub kind : ResourceType
  pub target : ℕ
  pub acl : Option (List Entry)

-- What the functions that return an int do: 0 or -1.
pub data Status : Type 0 where
  ok : Status
  failed : Status

abbrev pub entries : Resource → List Entry
entries r = elim r.acl [ none ↦ [] | some list ↦ list ]

-- `memory_left` says whether kmalloc finds a block.
pub add_entry : (memory_left : Bool) → (user_id group_id perms : ℕ) → Resource → Status × Resource
add_entry memory_left user_id group_id perms r =
    if memory_left
    then (
      ok,
      record r {
        acl = some (
            entries r
            ++ record { user_id = user_id; group_id = group_id; permissions = perms } ∷ []);
      },
    )
    else (failed, r)

-- The search for the first entry with these two ids, from place `i`.
unfoldable pub find_entry : List Entry → (user_id group_id i : ℕ) → Option ℕ
find_entry [] user_id group_id i = none
find_entry (e ∷ rest) user_id group_id i =
    let later = find_entry rest user_id group_id (i + 1) in
    if (e.user_id == user_id) && (e.group_id == group_id) then some i else later

-- The copy of all entries but the one at `found`, from place `i`.
unfoldable pub copy_but : List Entry → (found i : ℕ) → List Entry
copy_but [] found i = []
copy_but (e ∷ rest) found i =
    let later = copy_but rest found (i + 1) in if i == found then later else e ∷ later

unfoldable pub remove_entry :
    (memory_left : Bool) → (user_id group_id : ℕ) → Resource → Status × Resource
remove_entry memory_left user_id group_id r = elim (find_entry (entries r) user_id group_id 0) [
  | none ↦ (failed, r)
  | some found ↦
      if length (entries r) == 1
      then (ok, record r { acl = none })
      else if memory_left
      then (ok, record r { acl = some (copy_but (entries r) found 0) })
      else (failed, r)
]

-- One turn of the loop of `acl_check_permission`.
unfoldable pub grants : Entry → (user_id group_id perm : ℕ) → Bool
grants e user_id group_id perm =
    ((e.user_id == user_id) || (e.group_id == group_id)) && (bit_and e.permissions perm == perm)

unfoldable pub check_from : List Entry → (user_id group_id perm : ℕ) → Bool
check_from [] user_id group_id perm = false
check_from (e ∷ rest) user_id group_id perm =
    let later = check_from rest user_id group_id perm in
    if grants e user_id group_id perm then true else later

unfoldable pub check_permission : (user_id group_id perm : ℕ) → Resource → Bool
check_permission user_id group_id perm r = elim r.acl [
  | none ↦ false
  | some list ↦ if user_id == user_root then true else check_from list user_id group_id perm
]

-- The mask that `acl_protect_file` gives a file: FS_PERM_READ is 1, FS_PERM_WRITE 2, FS_PERM_EXEC 4.
pub mask_of : ℕ → ℕ
mask_of perms =
    let read = if bit_and perms 1 == 0 then 0 else bit_or 0 1 in
    let write = if bit_and perms 2 == 0 then read else bit_or read 2 in
    if bit_and perms 4 == 0 then write else bit_or write 4

-- The resource with its one entry that the three protections fill in. Each allocation may fail.
pub make_resource :
    (resource_left entry_left : Bool)
    → ResourceType
    → (target user_id group_id perms : ℕ) → Option Resource
make_resource resource_left entry_left kind target user_id group_id perms =
    if resource_left
    then (let (status, resource) =
          add_entry entry_left user_id group_id perms
            (record { kind = kind; target = target; acl = none }) in
        elim status [ ok ↦ some resource | failed ↦ none ])
    else none

-- Nothing keeps the resource after the call. 0 is the null pointer.
pub protect_file :
    (resource_left entry_left : Bool)
    → (address user_id group_id perms : ℕ) → Fs.Node
    → Status × Fs.Node
protect_file resource_left entry_left address user_id group_id perms node =
    if address == 0
    then (failed, node)
    else elim (make_resource resource_left entry_left file address user_id group_id perms) [
      | none ↦ (failed, node)
      | some resource ↦ (ok, record { mask = mask_of perms; uid = user_id; gid = group_id })
    ]

pub protect_process :
    (resource_left entry_left : Bool) → (address user_id group_id perms : ℕ) → Status
protect_process resource_left entry_left address user_id group_id perms =
    if address == 0
    then failed
    else elim (make_resource resource_left entry_left process address user_id group_id perms) [
      | none ↦ failed
      | some resource ↦ ok
    ]

pub protect_memory :
    (resource_left entry_left : Bool) → (address size user_id group_id perms : ℕ) → Status
protect_memory resource_left entry_left address size user_id group_id perms =
    if address == 0
    then failed
    else elim (make_resource resource_left entry_left memory address user_id group_id perms) [
      | none ↦ failed
      | some resource ↦ ok
    ]

-- ===== src/Acl/Tests.antt =====
-- Runs of KluxOS/src/security/acl.c on a list of two entries.
use klux_os.Acl.Protect.{protect_file-check_permission}
use klux_os.Acl.Entries.{remove_entry_lem}
use klux_os.Acl.{
  bit_and, copy_but, find_entry, grants, check_from, entries, Entry, Resource, check_permission,
  protect_file, remove_entry, ok, file,
}
use klux_os.Fs
use klux_os.Base.{◌%◌, ◌==◌, ◌≡◌, refl, arith, [], ◌∷◌, some, true, false}

abbrev alice : Entry
alice = record { user_id = 5; group_id = 50; permissions = 3 }

abbrev bob : Entry
bob = record { user_id = 6; group_id = 60; permissions = 1 }

abbrev shared : Resource
shared = record { kind = file; target = 0x4000; acl = some (alice ∷ bob ∷ []) }

abbrev node : Fs.Node
node = record { mask = 0; uid = 0; gid = 0 }

bob_reads : check_permission 6 60 1 shared ≡ true
unfolding check_permission check_from grants
bob_reads = refl

bob_does_not_write : check_permission 6 60 2 shared ≡ false
unfolding check_permission check_from grants
bob_does_not_write = refl

remove_entry_lem_example :
    let (status, r') = remove_entry true 5 50 shared in (entries r' ≡ bob ∷ []) × (status ≡ ok)
remove_entry_lem_example = remove_entry_lem 5 50 shared

still_reads : check_permission 6 60 1 (remove_entry true 5 50 shared).1 ≡ true
unfolding check_permission check_from grants remove_entry find_entry copy_but
still_reads = refl

protect_file-check_permission_example :
    let (status, node') = protect_file true true 0x4000 5 50 6 node in
    (status ≡ ok)
    × (Fs.check_permission node' 2 5 50 ≡ false)
    × (Fs.check_permission node' 2 9 90 ≡ (bit_and (6 % 8) 2 == 2))
protect_file-check_permission_example =
    protect_file-check_permission 0x4000 5 50 6 2 50 9 90 node (omega arith) (omega arith)
      (omega arith) (omega arith) (omega arith) (omega arith) (omega arith)

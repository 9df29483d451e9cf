-- ===== src/Syscall/Tests.antt =====
-- Runs of KluxOS/src/kernel/syscall.c, and the theorems at concrete inputs.
use klux_os.Syscall.Descriptors.{IsLowestFree, find_free_fd-IsLowestFree}
use klux_os.Syscall.Open.{free_from, find_free_fd}
use klux_os.Syscall.{
  resized, store_bytes, write_contents, closed, failed, max_fd, FdEntry, System, syscall_read,
}
use klux_os.Fs.Tree.{cleared, TreeNode, FileSystem, create_node, file, init}
use klux_os.Terminal.{Terminal}
use klux_os.Base.{ℕ, List, ◌++◌, replicate, set, ◌≡◌, refl, [], ◌∷◌, some, true}

abbrev blank_screen : Terminal
blank_screen = record {
  cells = [];
  color = 7;
  row = 0;
  column = 0;
  cursor_visible = true;
  cursor_start = 14;
  cursor_end = 15;
  cursor_high = 0;
  cursor_low = 0;
}

-- A file of 2 bytes with all permissions and no functions of its own.
abbrev two_bytes : TreeNode
two_bytes = record cleared {
  access = record { mask = 7; uid = 0; gid = 0 };
  length_of = 2;
  contents = some (1 ∷ 2 ∷ []);
}

abbrev opened : FdEntry
opened = record { used = true; node = 1; offset = 1 }

-- Nothing is open.
abbrev idle : System
idle = record {
  fd_table = replicate max_fd closed;
  fs = record { nodes = two_bytes ∷ []; fs_root = 0 };
  keyboard = 65 ∷ 66 ∷ [];
  screen = blank_screen;
}

-- Descriptors 3 and 4 are at the second byte of the file.
abbrev busy : System
busy = record idle { fd_table = set (set idle.fd_table 3 opened) 4 opened }

free_run : find_free_fd busy.fd_table ≡ some 5
unfolding find_free_fd free_from
free_run = refl

-- Standard input is refused, as its entry was never set.
stdin_run : syscall_read 0 0 2 idle ≡ some (failed, idle)
unfolding syscall_read
stdin_run = refl

-- The whole table of `busy`, with its lowest free descriptor.
find_free_fd-IsLowestFree_example : IsLowestFree busy.fd_table (find_free_fd busy.fd_table)
find_free_fd-IsLowestFree_example = find_free_fd-IsLowestFree busy.fd_table refl

-- A file of 258 bytes that grows keeps 256 of them.
lost_bytes :
    (write_contents
      (some (replicate 300 0))
      (9 ∷ [])
      (record opened { offset = 258 })
      (record two_bytes { length_of = 258; contents = some (replicate 258 1) }))
    ≡ some (record two_bytes {
      length_of = 259;
      contents = some (replicate 256 1 ++ (0 ∷ 0 ∷ 9 ∷ []));
    })
unfolding write_contents resized store_bytes
lost_bytes = refl

abbrev no_files : FileSystem
no_files = record { nodes = []; fs_root = 0 }

-- Descriptor 3 is open at the file `f`, which was just made.
abbrev one_file : System
one_file = record idle {
  fd_table = set idle.fd_table 3 (record opened { offset = 0 });
  fs = (create_node true 7 (102 ∷ []) file no_files).1;
}

-- "etc"
abbrev etc : List ℕ
etc = 101 ∷ 116 ∷ 99 ∷ []

abbrev started : System
started = record idle { fs = init true 7 no_files }

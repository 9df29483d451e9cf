-- ===== src/Memory/Tests.antt =====
-- Runs of KluxOS/src/kernel/mm/memory.c and memory_ext.c on small states.
use klux_os.Memory.Setup.{Setup}
use klux_os.Memory.Paging.Mapped.{get_physaddr-map_page}
use klux_os.Memory.Paging.{map_page, Tables, get_physaddr}
use klux_os.Memory.Heap.Blocks.{allocate-Ascending, allocate, Ascending}
use klux_os.Memory.Heap.{kmalloc_internal, Heap, kmalloc_aligned}
use klux_os.Memory.Frames.Bitmap.{in_use}
use klux_os.Memory.Frames.Search.{alloc_frame-full, alloc_frame_lem, AllUsed, LeastFree}
use klux_os.Memory.Frames.{
  init_frames, flags_of, page_size, free_bit, set_frame, free_from, Frames, PageFrame, alloc_frame,
  first_free_frame, mapped,
}
use klux_os.Base.{
  leb, ltb, ◌&&◌, bit_at-ones, ◌*◌, ◌+◌, ◌/◌, ◌%◌, ◌==◌, ◌≡◌, ℕ, refl, arith, [], ◌∷◌, true, false,
  if◌then◌else◌,
}

-- Two words of frames: the first is full and the second has bit 0 set.
abbrev two_words : Frames
two_words = record { bits = 0xFFFF_FFFF ∷ 1 ∷ []; nframes = 64 }

abbrev one_full_word : Frames
one_full_word = record { bits = 0xFFFF_FFFF ∷ []; nframes = 32 }

abbrev empty_page : PageFrame
empty_page = record { used = false; kernel_page = false; ref_count = 0 }

abbrev used_page : PageFrame
used_page = record { used = true; kernel_page = false; ref_count = 1 }

first_free : first_free_frame two_words ≡ 33
unfolding first_free_frame free_from free_bit
first_free = refl

one_full_word-AllUsed : AllUsed one_full_word 0 32
one_full_word-AllUsed x ge lt =
    let i : x / 32 ≡ 0 = omega arith in rw i (bit_at-ones 32 (x % 32) (omega arith))

alloc_frame_lem_example :
    (r : ℕ) × LeastFree two_words 0 64 r
    × (alloc_frame empty_page true false two_words
        ≡ mapped
            (record { used = true; kernel_page = true; ref_count = 1 })
            (set_frame (r * page_size) two_words)
            (record { physaddr = r * page_size; flags = flags_of true false }))
    × ((other : ℕ)
        → in_use (set_frame (r * page_size) two_words) other
          ≡ (if other == r then 1 else in_use two_words other))
alloc_frame_lem_example =
    alloc_frame_lem two_words empty_page true false 40 (omega arith) (omega arith) refl
      (omega arith) refl

alloc_frame-full_example :
    alloc_frame empty_page false true one_full_word
    ≡ mapped
        (record { used = true; kernel_page = false; ref_count = 1 })
        (set_frame (0 * page_size) one_full_word)
        (record { physaddr = 0; flags = flags_of false true })
alloc_frame-full_example =
    alloc_frame-full one_full_word empty_page false true refl one_full_word-AllUsed

abbrev heap : Heap
heap = record { heap_end = 0x1_0010 }

aligned_up : kmalloc_aligned 16 heap ≡ (0x1_1000, record { heap_end = 0x1_1010 })
unfolding kmalloc_aligned kmalloc_internal
aligned_up = refl

allocate-Ascending_example :
    Ascending 0x1_0010 (allocate ((24, false) ∷ (16, true) ∷ (8, false) ∷ []) heap)
allocate-Ascending_example =
    allocate-Ascending ((24, false) ∷ (16, true) ∷ (8, false) ∷ []) heap (omega arith)

-- A directory at 0x1000 whose first entry points to a table at 0x2000.
abbrev tables : Tables
tables = record { word = λ a. if a == 0x1000 then 0x2003 else 0; page_directory = 0x1000 }

get_physaddr-map_page_example :
    get_physaddr (map_page 0x7000 0x3123 3 tables) 0x3123 ≡ 0x7000 + 0x3123 % 4096
get_physaddr-map_page_example =
    get_physaddr-map_page tables 0x7000 0x3123 3 (omega arith) refl refl (omega arith)

abbrev unset : Frames
unset = record { bits = []; nframes = 0 }

-- Before init_paging, with a heap at 2 MB, a directory at 0x1000 and a table at 0x2000.
abbrev boot_word : ℕ → ℕ
boot_word a = if leb 0x1000 a && ltb a 0x2000 then 0x2003 else 0

abbrev before_paging : Setup
before_paging = record {
  heap = record { heap_end = 0x20_0000 };
  word = boot_word;
  tables = [];
  tables_physical = [];
  physical_addr = 0;
  frames = init_frames unset;
  page_directory = 0x1000;
  requests = [];
}

-- ===== src/Memory/Setup.antt =====
-- The kernel's page tables in KluxOS/src/kernel/mm/memory.c: get_page, init_paging and
-- switch_page_directory, on the words of memory.
pub mod Entries
pub mod Fresh
pub mod Boot
pub mod Turns
use klux_os.Memory.Paging.{Tables, map_page}
use klux_os.Memory.Heap.{Heap, kmalloc_internal, kmalloc_aligned}
use klux_os.Memory.Frames.{
  Frames, PageFrame, Mapping, alloc_frame, already, halted, mapped, page_size,
}
use klux_os.Base.{
  ◌-◌, set, get_or, leb, ltb, not, replicate, ◌&&◌, bit_or, ◌%◌, ◌*◌, ◌==◌, ◌^◌, ◌+◌, ◌/◌, Bool,
  List, Option, ℕ, zero, suc, [], ◌∷◌, none, some, true, false, if◌then◌else◌,
}

-- The heap, the words of memory by byte address, the fields of `kernel_directory`, the frames, the
-- pointer `page_directory` of memory_ext.c, which no code of the repository sets, and what
-- `map_page` was asked for, the last call first: the address, the frame and the flags. Paging is
-- off until `switch_page_directory`, so that an address is that of the same word all the time.
pub record Setup : Type 0 where
  pub heap : Heap
  pub word : ℕ → ℕ
  pub tables : List ℕ
  pub tables_physical : List ℕ
  pub physical_addr : ℕ
  pub frames : Frames
  pub page_directory : ℕ
  pub requests : List (ℕ × Mapping)

-- The words that `memset` clears.
abbrev pub cleared : (word : ℕ → ℕ) (s n : ℕ) → ℕ → ℕ
cleared word s n a = if leb s a && ltb a (s + n) then 0 else word a

unfoldable pub kmalloc_aligned_physical : (get_physaddr : ℕ → ℕ) (size : ℕ) → Heap → ℕ × ℕ × Heap
kmalloc_aligned_physical get_physaddr size heap =
    let (start, phys, rest) = kmalloc_internal get_physaddr size true true heap in
    (start, elim phys [ some p ↦ p | none ↦ 0 ], rest)

-- The address of an entry, 0 for a null pointer. The table of a page has 1024 words.
unfoldable pub get_page : (get_physaddr : ℕ → ℕ) (address : ℕ) (make : Bool) → Setup → ℕ × Setup
get_page get_physaddr address make s =
    let page = address / page_size in
    let table_idx = page / 1024 in
    let table = get_or s.tables table_idx 0 in
    let offset = 4 * (page % 1024) in
    if make && (table == 0)
    then (let (start, phys, rest) = kmalloc_aligned_physical get_physaddr (4 * 1024) s.heap in
        (
          start + offset,
          record s {
            heap = rest;
            word = cleared s.word start (4 * 1024);
            tables = set s.tables table_idx start;
            tables_physical = set s.tables_physical table_idx (bit_or (bit_or (bit_or phys 1) 2) 4);
          },
        ))
    else ((if table == 0 then 0 else table + offset), s)

-- `page_frame_t` has 44 bits: its last three fields are the low bits of the word after the entry.
unfoldable pub page_at : (word : ℕ → ℕ) (address : ℕ) → PageFrame
page_at word address =
    let w = word (address + 4) in
    record { used = w % 2 == 1; kernel_page = w / 2 % 2 == 1; ref_count = w / 4 % 2 ^ 10 }

unfoldable pub store_page : (address : ℕ) → PageFrame → (word : ℕ → ℕ) → ℕ → ℕ
store_page address page word a =
    if a == address + 4
    then word a / 2 ^ 12 * 2 ^ 12
      + ((if page.used then 1 else 0)
          + 2 * (if page.kernel_page then 1 else 0)
          + 4 * (page.ref_count % 2 ^ 10))
    else word a

-- The memory as `map_page` sees it.
abbrev pub tables_of : (page_directory : ℕ) (word : ℕ → ℕ) → Tables
tables_of page_directory word = record { word = word; page_directory = page_directory }

-- `alloc_frame` on the entry at `page`, with its call of `map_page`; none for its endless loop.
unfoldable pub take_page : (page : ℕ) → Setup → Option Setup
take_page page s = elim (alloc_frame (page_at s.word page) true false s.frames) [
  | already ↦ some s
  | halted ↦ none
  | mapped kept frames mapping ↦ some (record s {
    word =
        (map_page mapping.physaddr page mapping.flags
          (tables_of s.page_directory (store_page page kept s.word))).word;
    frames = frames;
    requests = (page, mapping) ∷ s.requests;
  })
]

-- One turn of the loop of `init_paging`.
unfoldable pub setup_page : (get_physaddr : ℕ → ℕ) (i : ℕ) → Setup → Option Setup
setup_page get_physaddr i s =
    let (page, made) = get_page get_physaddr (i * page_size) true s in take_page page made

-- The loop from page `i` on, for the turns left.
unfoldable pub setup_pages : (get_physaddr : ℕ → ℕ) (left i : ℕ) → Setup → Option Setup
setup_pages get_physaddr zero i s = some s
setup_pages get_physaddr (suc left) i s = elim (setup_page get_physaddr i s) [
  | none ↦ none
  | some next ↦ setup_pages get_physaddr left (i + 1) next
]

-- The size of `page_directory_t`.
abbrev pub directory_size : ℕ
directory_size = 8196

-- `kernel_directory` as `memset` leaves it.
unfoldable pub new_directory : Setup → Setup
new_directory s =
    let (start, rest) = kmalloc_aligned directory_size s.heap in
    record s {
      heap = rest;
      word = cleared s.word start directory_size;
      tables = replicate 1024 0;
      tables_physical = replicate 1024 0;
      physical_addr = 0;
    }

-- The tables, and what `switch_page_directory` loads into the register cr3.
unfoldable pub init_paging : (get_physaddr : ℕ → ℕ) → Setup → Option (Setup × ℕ)
init_paging get_physaddr s = elim (setup_pages get_physaddr 1024 0 (new_directory s)) [
  | none ↦ none
  | some done ↦ some (done, done.physical_addr)
]

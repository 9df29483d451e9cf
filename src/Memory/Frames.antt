-- ===== src/Memory/Frames.antt =====
-- The bitmap of the page frames in KluxOS/src/kernel/mm/memory.c: bit `frame % 32` of word
-- `frame / 32` is set while the frame is in use.
pub mod Bitmap
pub mod Search
use klux_os.Base.{
  drop, ◌-◌, set, ◌++◌, ◌^◌, bit_and, bit_or, replicate, ◌%◌, ◌==◌, Option, get_or, if◌then◌else◌,
  ◌+◌, ◌/◌, Bool, List, ℕ, ◌*◌, zero, suc, [], none, some, true, false,
}

-- The static variables `frames` and `nframes`. The array has a word for each 32 frames: a read
-- outside it gives 0 here and a store outside it does nothing.
pub record Frames : Type 0 where
  pub bits : List ℕ
  pub nframes : ℕ

abbrev pub page_size : ℕ
page_size = 4096

abbrev pub all_used : ℕ
all_used = 0xFFFF_FFFF

abbrev pub word_of : Frames → ℕ → ℕ
word_of f idx = get_or f.bits idx 0

unfoldable pub set_frame : ℕ → Frames → Frames
set_frame frame_addr f =
    let frame = frame_addr / page_size in
    let idx = frame / 32 in
    let off = frame % 32 in record f { bits = set f.bits idx (bit_or (word_of f idx) (2 ^ off)) }

-- `~(1 << off)` is all ones but bit `off`.
pub clear_frame : ℕ → Frames → Frames
clear_frame frame_addr f =
    let frame = frame_addr / page_size in
    let idx = frame / 32 in
    let off = frame % 32 in
    record f { bits = set f.bits idx (bit_and (word_of f idx) (2 ^ 32 - 1 - 2 ^ off)) }

pub test_frame : ℕ → Frames → ℕ
test_frame frame_addr f =
    let frame = frame_addr / page_size in bit_and (word_of f (frame / 32)) (2 ^ (frame % 32))

-- The inner loop of `first_free_frame` over the bits of a word, from bit `j`, `left` bits left.
unfoldable pub free_bit : ℕ → ℕ → ℕ → Option ℕ
free_bit w zero j = none
free_bit w (suc left) j =
    let rest = free_bit w left (j + 1) in if bit_and w (2 ^ j) == 0 then some j else rest

-- The outer loop from word `i`, `left` words left. 0 is the answer after the loop.
unfoldable pub free_from : Frames → ℕ → ℕ → ℕ
free_from f zero i = 0
free_from f (suc left) i =
    let rest = free_from f left (i + 1) in
    if word_of f i == all_used
    then rest
    else elim (free_bit (word_of f i) 32 0) [ some j ↦ i * 32 + j | none ↦ rest ]

unfoldable pub first_free_frame : Frames → ℕ
first_free_frame f = free_from f (f.nframes / 32) 0

-- The part of `page_frame_t` that the allocator keeps.
pub record PageFrame : Type 0 where
  pub used : Bool
  pub kernel_page : Bool
  pub ref_count : ℕ

-- What `alloc_frame` asks of `map_page`: the physical address and the flags.
pub record Mapping : Type 0 where
  pub physaddr : ℕ
  pub flags : ℕ

-- What comes of `alloc_frame`: nothing for a page that has a frame, an endless loop after the
-- message, or the new state with the page that is mapped.
pub data Alloc : Type 0 where
  already : Alloc
  halted : Alloc
  mapped : PageFrame → Frames → Mapping → Alloc

pub flags_of : Bool → Bool → ℕ
flags_of is_kernel is_writeable =
    let flags = if is_writeable then bit_or 1 2 else 1 in
    if is_kernel then flags else bit_or flags 4

-- A frame number is below 2 ^ 20, the bits of the array, so the address does not wrap.
pub alloc_frame : PageFrame → Bool → Bool → Frames → Alloc
alloc_frame page is_kernel is_writeable f =
    if page.used
    then already
    else (let idx = first_free_frame f in
        if idx == 0xFFFF_FFFF
        then halted
        else mapped (record { used = true; kernel_page = is_kernel; ref_count = 1 })
            (set_frame (idx * page_size) f)
            (record { physaddr = idx * page_size; flags = flags_of is_kernel is_writeable }))

-- `free_frame`, at the physical address that `get_physaddr` finds for the page.
pub free_frame : ℕ → PageFrame → Frames → PageFrame × Frames
free_frame physaddr page f =
    if page.used
    then (record page { used = false; ref_count = 0 }, clear_frame physaddr f)
    else (page, f)

-- The loop of `init_memory` that marks the first 256 frames, from frame `i`, `left` frames left.
unfoldable pub reserve_from : ℕ → ℕ → Frames → Frames
reserve_from zero i f = f
reserve_from (suc left) i f = reserve_from left (i + 1) (set_frame (i * page_size) f)

-- The bitmap as `init_memory` leaves it: 128 MB of frames, all free but the first 256.
unfoldable pub init_frames : Frames → Frames
init_frames f =
    let nframes = 128 * 1024 * 1024 / page_size in
    reserve_from 256 0 (record {
      bits = replicate (nframes / 32) 0 ++ drop (nframes / 32) f.bits;
      nframes = nframes;
    })

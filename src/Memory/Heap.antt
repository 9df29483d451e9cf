-- ===== src/Memory/Heap.antt =====
-- The kernel heap of KluxOS/src/kernel/mm/memory.c: kmalloc_internal and its callers, which move
-- the end of the heap up and never back.
pub mod Blocks
use klux_os.Base.{
  ◌^◌, bit_and, Option, ltb, ◌%◌, ◌+◌, Bool, ◌==◌, ℕ, zero, suc, [], none, some, true, false,
  if◌then◌else◌,
}

-- The static variable `heap_end`, a 32-bit word.
pub record Heap : Type 0 where
  pub heap_end : ℕ

-- The address of the block, what is stored at `phys` (none without the pointer), and the heap.
-- `get_physaddr` is the walk of memory_ext.c.
unfoldable pub kmalloc_internal :
    (get_physaddr : ℕ → ℕ) → ℕ → (align wants_phys : Bool) → Heap → ℕ × Option ℕ × Heap
kmalloc_internal get_physaddr size align wants_phys heap =
    let start =
      if align
      then (if bit_and heap.heap_end 0xFFF == 0
          then heap.heap_end
          else bit_and ((heap.heap_end + 0x1000) % 2 ^ 32) 0xFFFF_F000)
      else heap.heap_end in
    (
      start,
      (if wants_phys then some (get_physaddr start) else none),
      record { heap_end = (start + size) % 2 ^ 32 },
    )

-- No pointer for the physical address, so `get_physaddr` is not called.
pub kmalloc : ℕ → Heap → ℕ × Heap
kmalloc size heap =
    let (addr, phys, rest) = kmalloc_internal (λ a. a) size false false heap in (addr, rest)

unfoldable pub kmalloc_aligned : ℕ → Heap → ℕ × Heap
kmalloc_aligned size heap =
    let (addr, phys, rest) = kmalloc_internal (λ a. a) size true false heap in (addr, rest)

-- `kfree` of memory.c returns nothing to the heap.
pub kfree : ℕ → Heap → Heap
kfree ptr heap = heap

-- Bytes of memory by address.
abbrev pub Store : Type 0
Store = ℕ → ℕ

pub memset : Store → (s c n : ℕ) → Store
memset mem s c zero = mem
memset mem s c (suc n) = memset (λ a. if a == s then c % 256 else mem a) (s + 1) c n

pub memcpy : Store → (dest src n : ℕ) → Store
memcpy mem dest src zero = mem
memcpy mem dest src (suc n) =
    memcpy (λ a. if a == dest then mem src else mem a) (dest + 1) (src + 1) n

-- The address, the memory and the heap. 0 is the null pointer; the old block's size is taken to be
-- 256 bytes.
pub krealloc : (ptr size : ℕ) → Store → Heap → ℕ × Store × Heap
krealloc ptr size mem heap =
    if ptr == 0
    then (let (new_ptr, rest) = kmalloc size heap in (new_ptr, mem, rest))
    else if size == 0
    then (0, mem, kfree ptr heap)
    else (let (new_ptr, rest) = kmalloc size heap in
        if new_ptr == 0
        then (0, mem, rest)
        else (new_ptr, memcpy mem new_ptr ptr (if ltb size 256 then size else 256), kfree ptr rest))

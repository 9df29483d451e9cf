-- ===== src/Memory/Heap/Blocks.antt =====
-- The blocks of the kernel heap in KluxOS/src/kernel/mm/memory.c: where they lie, and what krealloc
-- moves.
use klux_os.Memory.Heap.{kfree, kmalloc, krealloc, Store, memcpy, Heap, kmalloc_internal}
use klux_os.Base.{
  bit_and-page, min, ◌≢◌, dec_lt, ◌-◌, ltb, ◌&&◌, leb, ◌⊎◌, List, ◌==◌, ℕ_discrete, bit_and-ones,
  ◌%◌, ◌≤◌, ◌+◌, ◌≡◌, ◌^◌, Bool, bit_and, ◌<◌, ℕ, zero, suc, refl, arith, [], none, some, true,
  false, inl, inr, sym, if◌then◌else◌, ◌∷◌,
}

-- kmalloc_internal while the end of the heap stays below 2 ^ 32: the block starts at the end of
-- the heap, or less than a page above it when alignment is asked for, then on a page boundary; the
-- heap ends where the block does, and the physical address is that of the block.
pub kmalloc_internal_lem :
    (g : ℕ → ℕ) (size : ℕ) (align wants : Bool) (h : Heap)
    → h.heap_end + 0x1000 + size < 2 ^ 32
    → let (addr, phys, h') = kmalloc_internal g size align wants h in
      (h.heap_end ≤ addr)
      × (addr < h.heap_end + 0x1000)
      × (h'.heap_end ≡ addr + size)
      × (align ≡ true → addr % 0x1000 ≡ 0)
      × (align ≡ false → addr ≡ h.heap_end)
      × (phys ≡ (if wants then some (g addr) else none))
unfolding kmalloc_internal
kmalloc_internal_lem g size false wants h fits =
    (omega arith, omega arith, omega arith, λ p. ground (arith, p), λ p. refl, refl)
kmalloc_internal_lem g size true wants h fits =
    let mask : bit_and h.heap_end 0xFFF ≡ h.heap_end % 4096 = bit_and-ones 12 h.heap_end in
    let next : (h.heap_end + 0x1000) % 2 ^ 32 ≡ h.heap_end + 0x1000 = omega arith in
    elim (ℕ_discrete (h.heap_end % 4096) 0) [
      | yes z ↦ rw mask (rw z (omega arith, omega arith, omega arith, λ p. z, λ p. refl, refl))
      | no ne ↦
          let t : (h.heap_end % 4096 == 0) ≡ false = ground (arith, ne) in
          rw mask (
            rw t (
              rw next (
                rw (bit_and-page (h.heap_end + 0x1000) (omega arith)) (
                  omega arith,
                  omega arith,
                  omega arith,
                  λ p. omega arith,
                  λ p. ground (arith, p),
                  refl,
                ))))
    ]

-- The blocks of a run of requests, each with its size and whether it is aligned, in order.
abbrev pub allocate : List (ℕ × Bool) → Heap → List (ℕ × ℕ)
allocate [] h = []
allocate ((size, align) ∷ requests) h =
    let (addr, phys, rest) = kmalloc_internal (λ a. a) size align false h in
    (addr, size) ∷ allocate requests rest

-- Each block starts at or above the end of the one before.
abbrev pub Ascending : ℕ → List (ℕ × ℕ) → Type 0
Ascending low [] = zero ≤ low
Ascending low ((addr, size) ∷ blocks) = (low ≤ addr) × Ascending (addr + size) blocks

-- What the requests can take at most.
abbrev pub demand : List (ℕ × Bool) → ℕ
demand [] = 0
demand ((size, align) ∷ requests) = 0x1000 + size + demand requests

Ascending-from :
    (low : ℕ) (low' : ℕ) (blocks : List (ℕ × ℕ))
    → low ≡ low'
    → Ascending low' blocks
    → Ascending low blocks
Ascending-from low low' blocks e h = rw e h

-- Any run of kmalloc and kmalloc_aligned that cannot reach 2 ^ 32 returns blocks above the old end
-- of the heap that do not overlap.
pub allocate-Ascending :
    (requests : List (ℕ × Bool)) (h : Heap)
    → h.heap_end + demand requests < 2 ^ 32
    → Ascending h.heap_end (allocate requests h)
allocate-Ascending [] h fits = omega arith
allocate-Ascending ((size, align) ∷ requests) h fits =
    let (addr, phys, rest) = kmalloc_internal (λ a. a) size align false h in
    let (low, near, end_at, aligned, plain, p) =
      kmalloc_internal_lem (λ a. a) size align false h (omega arith) in
    (
      low,
      Ascending-from (addr + size) rest.heap_end (allocate requests rest) (sym end_at)
          (allocate-Ascending requests rest (omega (arith, end_at, near))),
    )

-- memcpy between ranges that do not overlap copies `n` bytes and changes no other.
pub memcpy_lem :
    (mem : Store) (dest src n a : ℕ)
    → (src + n ≤ dest) ⊎ (dest + n ≤ src)
    → memcpy mem dest src n a
      ≡ (if leb dest a && ltb a (dest + n) then mem (src + (a - dest)) else mem a)
unfolding memcpy
memcpy_lem mem dest src zero a apart = ground arith
memcpy_lem mem dest src (suc n) a apart =
    let ih =
      memcpy_lem (λ x. if x == dest then mem src else mem x) (dest + 1) (src + 1) n a
        (elim apart [ inl below ↦ inl (omega arith) | inr above ↦ inr (omega arith) ]) in
    elim (dec_lt dest a) [
      | yes later ↦
          let e : src + 1 + (a - (dest + 1)) ≡ src + (a - dest) = omega arith in
          elim (dec_lt a (dest + suc n)) [
            | yes inside ↦
                let ne : src + (a - dest) ≢ dest = elim apart [
                  | inl below ↦ omega arith
                  | inr above ↦ omega arith
                ] in
                rw ih (rw e (ground (arith, ne)))
            | no past ↦ rw ih (ground arith)
          ]
      | no early ↦ elim (ℕ_discrete a dest) [
        | yes p ↦ let e : src + (a - dest) ≡ src = omega arith in rw ih (rw e (ground arith))
        | no ne ↦ rw ih (ground arith)
      ]
    ]

-- krealloc of a block that lies below the end of the heap, to a size above 0, while the end of the
-- heap stays below 2 ^ 32: the new block is at the old end of the heap, it holds the first
-- min(size, 256) bytes of the old block, and no other byte changes.
pub krealloc_lem :
    (ptr size a : ℕ) (mem : Store) (h : Heap)
    → 0 < ptr
    → 0 < size
    → ptr + 256 ≤ h.heap_end
    → h.heap_end + size < 2 ^ 32
    → let (new_ptr, mem', h') = krealloc ptr size mem h in
      (new_ptr ≡ h.heap_end)
      × (h'.heap_end ≡ h.heap_end + size)
      × (mem' a ≡ (
          if leb h.heap_end a && ltb a (h.heap_end + min size 256)
          then mem (ptr + (a - h.heap_end))
          else mem a))
unfolding krealloc kmalloc kmalloc_internal kfree
krealloc_lem ptr size a mem h there some_size below fits =
    let t : (ptr == 0) ≡ false = ground arith in
    let u : (size == 0) ≡ false = ground arith in
    let v : (h.heap_end == 0) ≡ false = ground arith in
    let m : (if ltb size 256 then size else 256) ≡ min size 256 = ground arith in
    rw t (
      rw u (
        rw v (
          rw m (
            refl,
            omega arith,
            memcpy_lem mem h.heap_end ptr (min size 256) a (inl (omega arith)),
          ))))

-- ===== src/Memory/Frames/Search.antt =====
-- The search for a free frame in KluxOS/src/kernel/mm/memory.c: first_free_frame, alloc_frame and
-- free_frame.
use klux_os.Memory.Frames.Bitmap.{in_use-clear_frame, in_use-set_frame, IsFrame, in_use}
use klux_os.Memory.Frames.{
  flags_of, page_size, set_frame, mapped, PageFrame, alloc_frame, free_frame, all_used, word_of,
  Frames, first_free_frame, free_bit, free_from,
}
use native.Mathlib.Nat.{one-le-pow}
use klux_os.Base.{
  bit_or, length-set, bit_at_le_one, bit_and-pow, bit_at-ones, ap₂, ◌==◌, ◌^◌, bit_and, dec_lt, ◌%◌,
  ◌-◌, bit_at, ℕ_discrete, ◌≡◌, Option, ◌*◌, ◌+◌, ◌/◌, ◌<◌, ◌≤◌, ◌⊎◌, ℕ, zero, suc, refl, arith,
  none, some, true, false, inl, inr, ◌∙◌, ap, Bool, length, sym, if◌then◌else◌,
}

-- The result is the first frame from `from` on that is free, and below the limit.
abbrev pub LeastFree : Frames → ℕ → ℕ → ℕ → Type 0
LeastFree f from limit r =
    (from ≤ r) × (r < limit) × (in_use f r ≡ 0) × ((x : ℕ) → from ≤ x → x < r → in_use f x ≡ 1)

-- Every frame from `from` on and below the limit is in use.
abbrev pub AllUsed : Frames → ℕ → ℕ → Type 0
AllUsed f from limit = (x : ℕ) → from ≤ x → x < limit → in_use f x ≡ 1

-- The bit of a frame by its word and its place there.
in_use_at : (f : Frames) (i b x : ℕ) → b < 32 → x ≡ i * 32 + b → in_use f x ≡ bit_at (word_of f i) b
in_use_at f i b x lt e =
    let p : x / 32 ≡ i = omega arith in
    let q : x % 32 ≡ b = omega arith in ap₂ (λ (u v : ℕ). bit_at (word_of f u) v) p q

-- What `free_bit` finds.
abbrev BitFound : ℕ → ℕ → ℕ → Option ℕ → Type 0
BitFound w j limit none = (b : ℕ) → j ≤ b → b < limit → bit_at w b ≡ 1
BitFound w j limit (some r) =
    (r < limit) × (bit_at w r ≡ 0) × ((b : ℕ) → j ≤ b → b < r → bit_at w b ≡ 1)

BitFound-back :
    (w j limit : ℕ) (o : Option ℕ)
    → bit_at w j ≡ 1
    → BitFound w (j + 1) limit o
    → BitFound w j limit o
BitFound-back w j limit none one rest = λ b ge lt. elim (ℕ_discrete j b) [
  | yes p ↦ ap (bit_at w) (sym p) ∙ one
  | no ne ↦ rest b (omega arith) lt
]
BitFound-back w j limit (some r) one (lt, free, below) = (
  lt,
  free,
  λ b ge lt. elim (ℕ_discrete j b) [
    | yes p ↦ ap (bit_at w) (sym p) ∙ one
    | no ne ↦ below b (omega arith) lt
  ],
)

free_bit-BitFound : (w left j : ℕ) → BitFound w j (j + left) (free_bit w left j)
unfolding free_bit
free_bit-BitFound w zero j = λ b ge lt. absurd (omega arith)
free_bit-BitFound w (suc left) j = elim (ℕ_discrete (bit_at w j) 0) [
  | yes z ↦
      let e : bit_and w (2 ^ j) ≡ 0 = bit_and-pow w j ∙ ap (λ (n : ℕ). n * 2 ^ j) z ∙ omega arith in
      rw e (omega arith, z, λ b ge lt. absurd (omega arith))
  | no ne ↦
      let one : bit_at w j ≡ 1 = omega (arith, bit_at_le_one w j) in
      let e : bit_and w (2 ^ j) ≡ 2 ^ j =
        bit_and-pow w j ∙ ap (λ (n : ℕ). n * 2 ^ j) one ∙ omega arith in
      let t : (2 ^ j == 0) ≡ false = ground (arith, one-le-pow j 2) in
      let l : j + suc left ≡ j + 1 + left = omega arith in
      rw e (
        rw t (
          rw l (
            BitFound-back w j (j + 1 + left) (free_bit w left (j + 1)) one
              (free_bit-BitFound w left (j + 1)))))
]

-- What `free_from` finds from word `i` on.
abbrev Found : Frames → ℕ → ℕ → ℕ → Type 0
Found f from limit r = LeastFree f from limit r ⊎ ((r ≡ 0) × AllUsed f from limit)

-- A full word moves the start of the search to the next word.
Found-back :
    (f : Frames) (i limit r : ℕ)
    → ((b : ℕ) → b < 32 → bit_at (word_of f i) b ≡ 1)
    → Found f ((i + 1) * 32) limit r
    → Found f (i * 32) limit r
Found-back f i limit r full (inl (ge, lt, free, below)) = inl (
  omega arith,
  lt,
  free,
  λ x ge lt. elim (dec_lt x ((i + 1) * 32)) [
    | yes here ↦
        in_use_at f i (x - i * 32) x (omega arith) (omega arith) ∙ full (x - i * 32) (omega arith)
    | no later ↦ below x (omega arith) lt
  ],
)
Found-back f i limit r full (inr (z, all)) = inr (
  z,
  λ x ge lt. elim (dec_lt x ((i + 1) * 32)) [
    | yes here ↦
        in_use_at f i (x - i * 32) x (omega arith) (omega arith) ∙ full (x - i * 32) (omega arith)
    | no later ↦ all x (omega arith) lt
  ],
)

Found-word :
    (f : Frames) (i limit rest : ℕ) (o : Option ℕ)
    → (i + 1) * 32 ≤ limit
    → BitFound (word_of f i) 0 32 o
    → Found f ((i + 1) * 32) limit rest
    → Found f (i * 32) limit (elim o [ some j ↦ i * 32 + j | none ↦ rest ])
Found-word f i limit rest none le full later =
    Found-back f i limit rest (λ b lt. full b (omega arith) lt) later
Found-word f i limit rest (some j) le (lt, free, below) later = inl (
  omega arith,
  omega arith,
  in_use_at f i j (i * 32 + j) lt refl ∙ free,
  λ x ge less.
      in_use_at f i (x - i * 32) x (omega arith) (omega arith)
      ∙ below (x - i * 32) (omega arith) (omega arith),
)

free_from-Found :
    (f : Frames) (left i : ℕ) → Found f (i * 32) ((i + left) * 32) (free_from f left i)
unfolding free_from
free_from-Found f zero i = inr (refl, λ x ge lt. absurd (omega arith))
free_from-Found f (suc left) i =
    let l : i + suc left ≡ i + 1 + left = omega arith in
    let rest = free_from-Found f left (i + 1) in
    elim (ℕ_discrete (word_of f i) all_used) [
      | yes full ↦
          let t : (word_of f i == all_used) ≡ true = ground (arith, full) in
          rw l (
            rw t (
              Found-back f i ((i + 1 + left) * 32) (free_from f left (i + 1))
                (λ b lt. ap (λ w. bit_at w b) full ∙ bit_at-ones 32 b lt) rest))
      | no part ↦
          let t : (word_of f i == all_used) ≡ false = ground (arith, part) in
          rw l (
            rw t (
              Found-word f i ((i + 1 + left) * 32) (free_from f left (i + 1))
                (free_bit (word_of f i) 32 0) (omega arith) (free_bit-BitFound (word_of f i) 32 0)
                rest))
    ]

-- first_free_frame returns the least frame that is free among the first 32 * (nframes / 32), or 0
-- when all of them are in use.
pub first_free_frame_lem :
    (f : Frames)
    → LeastFree f 0 (f.nframes / 32 * 32) (first_free_frame f)
      ⊎ ((first_free_frame f ≡ 0) × AllUsed f 0 (f.nframes / 32 * 32))
unfolding first_free_frame
first_free_frame_lem f =
    let l : 0 + f.nframes / 32 ≡ f.nframes / 32 = omega arith in
    rw l at (free_from-Found f (f.nframes / 32) 0)

-- alloc_frame on a page without a frame, while some frame of the search's range is free: it takes
-- the least free frame, maps the page to it, and marks that frame and no other.
pub alloc_frame_lem :
    (f : Frames) (page : PageFrame) (k w : Bool) (x : ℕ)
    → f.nframes / 32 ≤ length f.bits
    → f.nframes ≤ 0x10_0000
    → page.used ≡ false
    → x < f.nframes / 32 * 32
    → in_use f x ≡ 0
    → (r : ℕ) × LeastFree f 0 (f.nframes / 32 * 32) r
      × (alloc_frame page k w f
          ≡ mapped
              (record { used = true; kernel_page = k; ref_count = 1 })
              (set_frame (r * page_size) f)
              (record { physaddr = r * page_size; flags = flags_of k w }))
      × ((other : ℕ)
          → in_use (set_frame (r * page_size) f) other ≡ (if other == r then 1 else in_use f other))
unfolding alloc_frame
alloc_frame_lem f page k w x words small unused lt free = elim (first_free_frame_lem f) [
  | inl (ge, bound, clear, below) ↦
      let r = first_free_frame f in
      let t : (r == 0xFFFF_FFFF) ≡ false = ground (arith, bound) in
      (
        r,
        (ge, bound, clear, below),
        rw unused (rw t refl),
        λ other. in_use-set_frame f r other (omega (arith, bound)),
      )
  | inr (z, all) ↦ absurd (omega (arith, all x (omega arith) lt))
]

-- alloc_frame when every frame of the search's range is in use: the out-of-memory test does not
-- hold, and the page is mapped to frame 0, which is in use.
pub alloc_frame-full :
    (f : Frames) (page : PageFrame) (k w : Bool)
    → page.used ≡ false
    → AllUsed f 0 (f.nframes / 32 * 32)
    → alloc_frame page k w f
      ≡ mapped
          (record { used = true; kernel_page = k; ref_count = 1 })
          (set_frame (0 * page_size) f)
          (record { physaddr = 0; flags = flags_of k w })
unfolding alloc_frame
alloc_frame-full f page k w unused all = elim (first_free_frame_lem f) [
  | inl (ge, lt, free, below) ↦ absurd (omega (arith, all (first_free_frame f) (omega arith) lt))
  | inr (z, all) ↦ rw unused (rw z refl)
]

pub length-set_frame : (f : Frames) (a : ℕ) → length ((set_frame a f).bits) ≡ length f.bits
unfolding set_frame
length-set_frame f a =
    length-set f.bits (a / page_size / 32)
      (bit_or (word_of f (a / page_size / 32)) (2 ^ (a / page_size % 32)))

-- free_frame at the address of a frame that was free before it was taken gives every frame its
-- bit back, and the page has no frame any more.
pub free_frame-set_frame :
    (f : Frames) (page : PageFrame) (r other : ℕ)
    → IsFrame f r
    → page.used ≡ true
    → in_use f r ≡ 0
    → (in_use ((free_frame (r * page_size) page (set_frame (r * page_size) f)).1) other
        ≡ in_use f other)
      × ((free_frame (r * page_size) page (set_frame (r * page_size) f)).0.used ≡ false)
unfolding free_frame
free_frame-set_frame f page r other here used free =
    let g = set_frame (r * page_size) f in
    let l : IsFrame g r = rw (length-set_frame f (r * page_size)) here in
    let taken = in_use-set_frame f r other here in
    let given = in_use-clear_frame g r other l in rw used (given ∙ grind (arith, taken, free), refl)

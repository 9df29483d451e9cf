-- ===== src/Memory/Frames/Bitmap.antt =====
-- The bitmap of KluxOS/src/kernel/mm/memory.c as a set of frames: set_frame, clear_frame and
-- test_frame.
use klux_os.Memory.Frames.{page_size, word_of, clear_frame, set_frame, test_frame, Frames}
use klux_os.Base.{
  bit_at-not_pow_ne, bit_at-pow_ne, bit_at-not_pow_self, bit_at_le_one, bit_at-bit_and,
  bit_at-pow_self, get_or-set_ne, bit_and, bit_at-bit_or, get_or-set_self, bit_or, ℕ_discrete, ◌-◌,
  ◌==◌, bit_and-pow, set, ◌^◌, ◌≢◌, length, ◌%◌, ◌≡◌, get_or, ◌<◌, bit_at, ◌*◌, ◌/◌, ℕ, List, arith,
  ◌∙◌, ap, sym, if◌then◌else◌,
}

-- Bit of a frame: 1 while it is in use.
abbrev pub in_use : Frames → ℕ → ℕ
in_use f frame = bit_at (word_of f (frame / 32)) (frame % 32)

-- The array has a word for the frame.
abbrev pub IsFrame : Frames → ℕ → Type 0
IsFrame f frame = frame / 32 < length f.bits

abbrev bits_of : List ℕ → ℕ → ℕ
bits_of words frame = bit_at (get_or words (frame / 32) 0) (frame % 32)

-- A word that differs from the old one at bit `off` alone changes the bit of one frame.
set_word :
    (words : List ℕ) (frame other w b : ℕ)
    → frame / 32 < length words
    → bit_at w (frame % 32) ≡ b
    → ((j : ℕ) → j < 32 → frame % 32 ≢ j → bit_at w j ≡ bit_at (get_or words (frame / 32) 0) j)
    → bits_of (set words (frame / 32) w) other ≡ (if other == frame then b else bits_of words other)
set_word words frame other w b here same rest = elim (ℕ_discrete (frame / 32) (other / 32)) [
  | yes p ↦ elim (ℕ_discrete (frame % 32) (other % 32)) [
    | yes q ↦
        let e : other ≡ frame = omega arith in
        rw e (rw (get_or-set_self words (frame / 32) w 0 here) (ground (arith, same)))
    | no q ↦
        let ne : other ≢ frame = λ r. q (ap (λ (n : ℕ). n % 32) (sym r)) in
        rw (sym p) (
          rw (get_or-set_self words (frame / 32) w 0 here) (
            rw (rest (other % 32) (omega arith) q)
              (ground (arith, ap (λ (i : ℕ). get_or words i 0) p, ne))))
  ]
  | no p ↦
      let ne : other ≢ frame = λ r. p (ap (λ (n : ℕ). n / 32) (sym r)) in
      rw (get_or-set_ne words (frame / 32) (other / 32) w 0 p) (ground (arith, ne))
]

-- set_frame puts the frame of the address in use and leaves every other frame as it was.
pub in_use-set_frame :
    (f : Frames) (frame other : ℕ)
    → IsFrame f frame
    → in_use (set_frame (frame * page_size) f) other
      ≡ (if other == frame then 1 else in_use f other)
unfolding set_frame
in_use-set_frame f frame other here =
    let e : frame * page_size / page_size ≡ frame = omega arith in
    let w = word_of f (frame / 32) in
    rw e (
      set_word f.bits frame other (bit_or w (2 ^ (frame % 32))) 1 here
        (bit_at-bit_or w (2 ^ (frame % 32)) (frame % 32)
          ∙ omega (arith, bit_at-pow_self (frame % 32), bit_at_le_one w (frame % 32)))
        (λ j lt ne.
          bit_at-bit_or w (2 ^ (frame % 32)) j ∙ omega (arith, bit_at-pow_ne (frame % 32) j ne)))

-- clear_frame frees the frame of the address and leaves every other frame as it was.
pub in_use-clear_frame :
    (f : Frames) (frame other : ℕ)
    → IsFrame f frame
    → in_use (clear_frame (frame * page_size) f) other
      ≡ (if other == frame then 0 else in_use f other)
unfolding clear_frame
in_use-clear_frame f frame other here =
    let e : frame * page_size / page_size ≡ frame = omega arith in
    let w = word_of f (frame / 32) in
    let off = frame % 32 in
    let m = 2 ^ 32 - 1 - 2 ^ off in
    rw e (
      set_word f.bits frame other (bit_and w m) 0 here
        (bit_at-bit_and w m off ∙ omega (arith, bit_at-not_pow_self 32 off (omega arith)))
        (λ j lt ne.
          bit_at-bit_and w m j
          ∙ omega (arith, bit_at-not_pow_ne 32 off j (omega arith) lt ne, bit_at_le_one w j)))

-- test_frame is nonzero at the frames in use.
pub test_frame_lem :
    (f : Frames) (frame : ℕ) → test_frame (frame * page_size) f ≡ in_use f frame * 2 ^ (frame % 32)
unfolding test_frame
test_frame_lem f frame =
    let e : frame * page_size / page_size ≡ frame = omega arith in
    rw e (bit_and-pow (word_of f (frame / 32)) (frame % 32))

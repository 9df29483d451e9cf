-- ===== src/Base/Masks.antt =====
-- Masks that split a word in a high and a low part.
use klux_os.Base.Bits.{bit_and-ones, bit_and_step, bit_or_step}
use native.Mathlib.Decide.{dec_lt}
use Prim.Native.Nat.{◌+◌, ◌%◌}
use Prim.Native.Nat.{◌*◌, ◌/◌, ◌^◌, bit_and, bit_or, ◌<◌, ◌≤◌, ℕ, zero, suc}
use native.Mathlib.Nat.{div-div-eq-div-mul, pow-suc}
use mathlib.Core.Path.{◌≡◌, refl, ap, ◌∙◌}
use native.Mathlib.Omega.{arith}

-- A mask whose low `k` bits are 0 clears the low bits.
pub bit_and-shift : (k x m : ℕ) → bit_and x (2 ^ k * m) ≡ 2 ^ k * bit_and (x / 2 ^ k) m
bit_and-shift zero x m =
    let e : 2 ^ 0 * m ≡ m = omega arith in
    let d : x / 2 ^ 0 ≡ x = omega arith in rw e (rw d (omega arith))
bit_and-shift (suc k) x m =
    let double : 2 ^ suc k * m ≡ 2 * (2 ^ k * m) =
      ap (λ (n : ℕ). n * m) (pow-suc 2 k) ∙ omega arith in
    let half : 2 ^ suc k * m / 2 ≡ 2 ^ k * m = omega (arith, double) in
    let even : 2 ^ suc k * m % 2 ≡ 0 = omega (arith, double) in
    let d : x / 2 / 2 ^ k ≡ x / 2 ^ suc k =
      div-div-eq-div-mul x 2 (2 ^ k) ∙ ap (λ (n : ℕ). x / n) (omega (arith, pow-suc 2 k)) in
    let ih : bit_and (x / 2) (2 ^ k * m) ≡ 2 ^ k * bit_and (x / 2 ^ suc k) m =
      bit_and-shift k (x / 2) m ∙ ap (λ (n : ℕ). 2 ^ k * bit_and n m) d in
    let out : 2 ^ suc k * bit_and (x / 2 ^ suc k) m ≡ 2 * (2 ^ k * bit_and (x / 2 ^ suc k) m) =
      ap (λ (n : ℕ). n * bit_and (x / 2 ^ suc k) m) (pow-suc 2 k) ∙ omega arith in
    omega (arith, bit_and_step x (2 ^ suc k * m), ap (λ n. bit_and (x / 2) n) half, even, ih, out)

-- `x & 0xFFFFF000` on 32 bits is the start of the page.
pub bit_and-page : (x : ℕ) → x < 2 ^ 32 → bit_and x 0xFFFF_F000 ≡ x / 4096 * 4096
bit_and-page x lt =
    let s : bit_and x (2 ^ 12 * 0xF_FFFF) ≡ 2 ^ 12 * bit_and (x / 2 ^ 12) 0xF_FFFF =
      bit_and-shift 12 x 0xF_FFFF in
    let o : bit_and (x / 4096) 0xF_FFFF ≡ x / 4096 % 2 ^ 20 = bit_and-ones 20 (x / 4096) in
    omega (arith, s, o)

no_bits : (bound w : ℕ) → w ≤ bound → bit_or w 0 ≡ w
no_bits zero zero h = refl
no_bits zero (suc w) h = absurd (omega arith)
no_bits (suc bound) w h = elim (dec_lt 0 w) [
  | yes pos ↦ omega (arith, bit_or_step w 0, no_bits bound (w / 2) (omega arith))
  | no none_left ↦ let e : w ≡ 0 = omega arith in rw e refl
]

pub bit_or-zero : (w : ℕ) → bit_or w 0 ≡ w
bit_or-zero w = no_bits w w (omega arith)

pub bit_or-lt : (k a b : ℕ) → a < 2 ^ k → b < 2 ^ k → bit_or a b < 2 ^ k
bit_or-lt zero a b ha hb =
    let za : a ≡ 0 = omega arith in let zb : b ≡ 0 = omega arith in rw za (rw zb (omega arith))
bit_or-lt (suc k) a b ha hb = omega (
  arith,
  pow-suc 2 k,
  bit_or_step a b,
  bit_or-lt k (a / 2) (b / 2) (omega (arith, pow-suc 2 k)) (omega (arith, pow-suc 2 k)),
)

-- Bits below `k` are put into a word whose high part is `p`.
pub bit_or-low :
    (k p a b : ℕ) → a < 2 ^ k → b < 2 ^ k → bit_or (2 ^ k * p + a) b ≡ 2 ^ k * p + bit_or a b
bit_or-low zero p a b ha hb =
    let za : a ≡ 0 = omega arith in
    let zb : b ≡ 0 = omega arith in rw za (rw zb (omega (arith, bit_or-zero (2 ^ 0 * p + 0))))
bit_or-low (suc k) p a b ha hb =
    let double : 2 ^ suc k * p ≡ 2 * (2 ^ k * p) =
      ap (λ (n : ℕ). n * p) (pow-suc 2 k) ∙ omega arith in
    let half : (2 ^ suc k * p + a) / 2 ≡ 2 ^ k * p + a / 2 = omega (arith, double) in
    let low : (2 ^ suc k * p + a) % 2 ≡ a % 2 = omega (arith, double) in
    omega (
      arith,
      double,
      low,
      bit_or_step (2 ^ suc k * p + a) b,
      ap (λ n. bit_or n (b / 2)) half,
      bit_or-low k p (a / 2) (b / 2) (omega (arith, pow-suc 2 k)) (omega (arith, pow-suc 2 k)),
      bit_or_step a b,
    )

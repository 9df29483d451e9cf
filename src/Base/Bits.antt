-- ===== src/Base/Bits.antt =====
-- `&`, `|` and `^` on words: the equation for the lowest digit, and the laws that the components
-- use, for every width.
use Prim.Native.Nat.{ℕ, zero, suc, ◌+◌, ◌-◌, ◌*◌, ◌/◌, ◌%◌, ◌≤◌, ◌<◌, ◌^◌, min, max}
use Prim.Native.Nat.{bit_and, bit_or, bit_xor, bit_and-bitwise, bit_or-bitwise, bit_xor-bitwise}
use Prim.Native.Nat.{digits, bitwise, differ}
use mathlib.Core.Path.{◌≡◌, refl, ap, ◌∙◌}
use mathlib.Core.Logic.{◌≢◌}
use native.Mathlib.Nat.{
  pow-suc, one-le-pow, mod-lt, mod-eq_of_lt, div-add-mod, mul-add-mod_self_left,
}
use native.Mathlib.Omega.{arith}
use native.Mathlib.Decide.{dec_lt}

-- The native operations are recursions on the digits with a count of rounds; past the digits of
-- the first word more rounds change nothing.
more_rounds :
    (z : ℕ → ℕ) (op : ℕ → ℕ → ℕ) (w v k l : ℕ)
    → w ≤ l
    → w ≤ k
    → digits z op k w v ≡ digits z op l w v
more_rounds z op zero v zero zero hl hk = refl
more_rounds z op zero v zero (suc l) hl hk = refl
more_rounds z op zero v (suc k) zero hl hk = refl
more_rounds z op zero v (suc k) (suc l) hl hk = refl
more_rounds z op (suc w) v zero l hl hk = elim hk [ ]
more_rounds z op (suc w) v (suc k) zero hl hk = elim hl [ ]
more_rounds z op (suc w) v (suc k) (suc l) hl hk =
    ap (λ t. t * 2 + op (suc w % 2) (v % 2))
      (more_rounds z op (suc w / 2) (v / 2) k l (omega arith) (omega arith))

-- The lowest digit of an operation, split off.
low_digit :
    (z : ℕ → ℕ) (op : ℕ → ℕ → ℕ) (w v : ℕ)
    → bitwise z op (suc w) v
      ≡ digits z op (suc w / 2) (suc w / 2) (v / 2) * 2 + op (suc w % 2) (v % 2)
low_digit z op w v =
    ap (λ t. t * 2 + op (suc w % 2) (v % 2))
      (more_rounds z op (suc w / 2) (v / 2) w (suc w / 2) (omega arith) (omega arith))

pub bit_and_step : (w v : ℕ) → bit_and w v ≡ min (w % 2) (v % 2) + 2 * bit_and (w / 2) (v / 2)
bit_and_step zero v = omega (arith, bit_and-bitwise 0 v, bit_and-bitwise 0 (v / 2))
bit_and_step (suc w) v = omega (
  arith,
  low_digit (λ y. 0) min w v,
  bit_and-bitwise (suc w) v,
  bit_and-bitwise (suc w / 2) (v / 2),
)

pub bit_or_step : (w v : ℕ) → bit_or w v ≡ max (w % 2) (v % 2) + 2 * bit_or (w / 2) (v / 2)
bit_or_step zero v = omega (arith, bit_or-bitwise 0 v, bit_or-bitwise 0 (v / 2))
bit_or_step (suc w) v = omega (
  arith,
  low_digit (λ y. y) max w v,
  bit_or-bitwise (suc w) v,
  bit_or-bitwise (suc w / 2) (v / 2),
)

differ_digit : (a b : ℕ) → a < 2 → b < 2 → differ a b ≡ (a + b) % 2
differ_digit zero b ha hb = omega arith
differ_digit (suc a) zero ha hb = omega arith
differ_digit (suc zero) (suc zero) ha hb = refl
differ_digit (suc zero) (suc (suc b)) ha hb = absurd (omega arith)
differ_digit (suc (suc a)) (suc b) ha hb = absurd (omega arith)

pub bit_xor_step : (w v : ℕ) → bit_xor w v ≡ (w + v) % 2 + 2 * bit_xor (w / 2) (v / 2)
bit_xor_step zero v = omega (arith, bit_xor-bitwise 0 v, bit_xor-bitwise 0 (v / 2))
bit_xor_step (suc w) v = omega (
  arith,
  low_digit (λ y. y) differ w v,
  bit_xor-bitwise (suc w) v,
  bit_xor-bitwise (suc w / 2) (v / 2),
  differ_digit (suc w % 2) (v % 2) (omega arith) (omega arith),
)

-- Induction on a bound, for recursions that halve.
bit_xor_cancel_below : (n a b : ℕ) → a ≤ n → b ≤ n → bit_xor (bit_xor a b) b ≡ a
bit_xor_cancel_below zero zero zero ha hb = refl
bit_xor_cancel_below zero zero (suc b) ha hb = absurd (omega arith)
bit_xor_cancel_below zero (suc a) b ha hb = absurd (omega arith)
bit_xor_cancel_below (suc n) a b ha hb =
    let x = bit_xor (a / 2) (b / 2) in
    let h : bit_xor a b / 2 ≡ x = omega (arith, bit_xor_step a b) in
    omega (
      arith,
      bit_xor_step a b,
      bit_xor_step (bit_xor a b) b,
      ap (λ t. bit_xor t (b / 2)) h,
      bit_xor_cancel_below n (a / 2) (b / 2) (omega arith) (omega arith),
    )

-- XOR with the same word twice gives the first word back.
pub bit_xor_cancel : (a b : ℕ) → bit_xor (bit_xor a b) b ≡ a
bit_xor_cancel a b = bit_xor_cancel_below (a + b) a b (omega arith) (omega arith)

-- The XOR of two words of `k` bits has `k` bits.
pub bit_xor-lt : (k a b : ℕ) → a < 2 ^ k → b < 2 ^ k → bit_xor a b < 2 ^ k
bit_xor-lt zero zero zero ha hb = omega arith
bit_xor-lt zero zero (suc b) ha hb = absurd (omega arith)
bit_xor-lt zero (suc a) b ha hb = absurd (omega arith)
bit_xor-lt (suc k) a b ha hb =
    let p = pow-suc 2 k in
    let ha' : a < 2 ^ k * 2 = rw (pow-suc 2 k) at ha in
    let hb' : b < 2 ^ k * 2 = rw (pow-suc 2 k) at hb in
    omega (arith, bit_xor_step a b, bit_xor-lt k (a / 2) (b / 2) (omega arith) (omega arith), p)

-- Bit `i` of a word.
abbrev pub bit_at : ℕ → ℕ → ℕ
bit_at w zero = w % 2
bit_at w (suc i) = bit_at (w / 2) i

pub bit_at_le_one : (w i : ℕ) → bit_at w i ≤ 1
bit_at_le_one w zero = omega arith
bit_at_le_one w (suc i) = bit_at_le_one (w / 2) i

pub bit_at-bit_or : (w v i : ℕ) → bit_at (bit_or w v) i ≡ max (bit_at w i) (bit_at v i)
bit_at-bit_or w v zero = omega (arith, bit_or_step w v)
bit_at-bit_or w v (suc i) =
    let h : bit_or w v / 2 ≡ bit_or (w / 2) (v / 2) = omega (arith, bit_or_step w v) in
    rw h (bit_at-bit_or (w / 2) (v / 2) i)

pub bit_at-bit_and : (w v i : ℕ) → bit_at (bit_and w v) i ≡ min (bit_at w i) (bit_at v i)
bit_at-bit_and w v zero = omega (arith, bit_and_step w v)
bit_at-bit_and w v (suc i) =
    let h : bit_and w v / 2 ≡ bit_and (w / 2) (v / 2) = omega (arith, bit_and_step w v) in
    rw h (bit_at-bit_and (w / 2) (v / 2) i)

bit_at-zero : (i : ℕ) → bit_at 0 i ≡ 0
bit_at-zero zero = refl
bit_at-zero (suc i) = bit_at-zero i

-- `1 << i` has bit `i` and no other.
pub bit_at-pow_self : (i : ℕ) → bit_at (2 ^ i) i ≡ 1
bit_at-pow_self zero = refl
bit_at-pow_self (suc i) =
    let h : 2 ^ suc i / 2 ≡ 2 ^ i = omega (arith, pow-suc 2 i) in rw h (bit_at-pow_self i)

pub bit_at-pow_ne : (i j : ℕ) → i ≢ j → bit_at (2 ^ i) j ≡ 0
bit_at-pow_ne zero zero h = absurd (h refl)
bit_at-pow_ne zero (suc j) h = bit_at-zero j
bit_at-pow_ne (suc i) zero h = omega (arith, pow-suc 2 i)
bit_at-pow_ne (suc i) (suc j) h =
    let e : 2 ^ suc i / 2 ≡ 2 ^ i = omega (arith, pow-suc 2 i) in
    rw e (bit_at-pow_ne i j (λ p. h (ap suc p)))

-- All ones below `k`.
pub bit_at-ones : (k i : ℕ) → i < k → bit_at (2 ^ k - 1) i ≡ 1
bit_at-ones zero i h = absurd (omega arith)
bit_at-ones (suc k) zero h = omega (arith, pow-suc 2 k, one-le-pow k 2)
bit_at-ones (suc k) (suc i) h =
    let e : (2 ^ suc k - 1) / 2 ≡ 2 ^ k - 1 = omega (arith, pow-suc 2 k, one-le-pow k 2) in
    rw e (bit_at-ones k i (omega arith))

pub pow-lt : (i k : ℕ) → i < k → 2 ^ i < 2 ^ k
pow-lt i zero h = absurd (omega arith)
pow-lt zero (suc k) h = omega (arith, pow-suc 2 k, one-le-pow k 2)
pow-lt (suc i) (suc k) h = omega (arith, pow-suc 2 k, pow-suc 2 i, pow-lt i k (omega arith))

-- `~(1 << i)` on `k` bits: bit `i` is clear and the others are set.
pub bit_at-not_pow_self : (k i : ℕ) → i < k → bit_at (2 ^ k - 1 - 2 ^ i) i ≡ 0
bit_at-not_pow_self zero i h = absurd (omega arith)
bit_at-not_pow_self (suc k) zero h = omega (arith, pow-suc 2 k, one-le-pow k 2)
bit_at-not_pow_self (suc k) (suc i) h =
    let lt : 2 ^ i < 2 ^ k = pow-lt i k (omega arith) in
    let e : (2 ^ suc k - 1 - 2 ^ suc i) / 2 ≡ 2 ^ k - 1 - 2 ^ i =
      omega (arith, pow-suc 2 k, pow-suc 2 i, one-le-pow k 2) in
    rw e (bit_at-not_pow_self k i (omega arith))

pub bit_at-not_pow_ne : (k i j : ℕ) → i < k → j < k → i ≢ j → bit_at (2 ^ k - 1 - 2 ^ i) j ≡ 1
bit_at-not_pow_ne zero i j hi hj h = absurd (omega arith)
bit_at-not_pow_ne (suc k) zero zero hi hj h = absurd (h refl)
bit_at-not_pow_ne (suc k) zero (suc j) hi hj h =
    let e : (2 ^ suc k - 1 - 2 ^ zero) / 2 ≡ 2 ^ k - 1 =
      omega (arith, pow-suc 2 k, one-le-pow k 2) in
    rw e (bit_at-ones k j (omega arith))
bit_at-not_pow_ne (suc k) (suc i) zero hi hj h =
    let lt : 2 ^ i < 2 ^ k = pow-lt i k (omega arith) in
    omega (arith, pow-suc 2 k, pow-suc 2 i, one-le-pow k 2)
bit_at-not_pow_ne (suc k) (suc i) (suc j) hi hj h =
    let lt : 2 ^ i < 2 ^ k = pow-lt i k (omega arith) in
    let e : (2 ^ suc k - 1 - 2 ^ suc i) / 2 ≡ 2 ^ k - 1 - 2 ^ i =
      omega (arith, pow-suc 2 k, pow-suc 2 i, one-le-pow k 2) in
    rw e (bit_at-not_pow_ne k i j (omega arith) (omega arith) (λ p. h (ap suc p)))

no_common_bits : (bound w : ℕ) → w ≤ bound → bit_and w 0 ≡ 0
no_common_bits zero zero h = refl
no_common_bits zero (suc w) h = elim h [ ]
no_common_bits (suc bound) w h = elim (dec_lt 0 w) [
  | yes pos ↦ omega (arith, bit_and_step w 0, no_common_bits bound (w / 2) (omega arith))
  | no none_left ↦ let e : w ≡ 0 = omega arith in rw e
]

pub bit_and-zero : (w : ℕ) → bit_and w 0 ≡ 0
bit_and-zero w = no_common_bits w w (omega arith)

-- `w & (1 << i)` is the bit in its place.
pub bit_and-pow : (w i : ℕ) → bit_and w (2 ^ i) ≡ bit_at w i * 2 ^ i
bit_and-pow w zero = omega (arith, bit_and_step w 1, bit_and-zero (w / 2))
bit_and-pow w (suc i) =
    let h : 2 ^ suc i / 2 ≡ 2 ^ i = omega (arith, pow-suc 2 i) in
    omega (
      arith,
      bit_and_step w (2 ^ suc i),
      ap (λ t. bit_and (w / 2) t) h,
      bit_and-pow (w / 2) i,
      pow-suc 2 i,
      ap (λ (t : ℕ). bit_at (w / 2) i * t) (pow-suc 2 i),
    )

mod_two_mul : (a k : ℕ) → a % 2 ^ suc k ≡ a / 2 % 2 ^ k * 2 + a % 2
mod_two_mul a k =
    let s : ℕ = a / 2 % 2 ^ k * 2 + a % 2 in
    let lt : a / 2 % 2 ^ k < 2 ^ k = mod-lt (a / 2) (one-le-pow k 2 (omega arith)) in
    let e : a ≡ 2 ^ suc k * (a / 2 / 2 ^ k) + s =
      omega
        (arith, div-add-mod (a / 2) (2 ^ k), ap (λ (t : ℕ). t * (a / 2 / 2 ^ k)) (pow-suc 2 k)) in
    ap (λ t. t % 2 ^ suc k) e
    ∙ mul-add-mod_self_left (2 ^ suc k) (a / 2 / 2 ^ k) s
    ∙ mod-eq_of_lt (omega (arith, pow-suc 2 k))

-- A mask of `k` ones keeps the low `k` bits.
pub bit_and-ones : (k a : ℕ) → bit_and a (2 ^ k - 1) ≡ a % 2 ^ k
bit_and-ones zero a = rw (bit_and-zero a) (omega arith)
bit_and-ones (suc k) a =
    let h : (2 ^ suc k - 1) / 2 ≡ 2 ^ k - 1 = omega (arith, pow-suc 2 k, one-le-pow k 2) in
    let m : a % 2 ^ suc k ≡ a / 2 % 2 ^ k * 2 + a % 2 = mod_two_mul a k in
    omega (
      arith,
      bit_and_step a (2 ^ suc k - 1),
      ap (λ t. bit_and (a / 2) t) h,
      bit_and-ones k (a / 2),
      pow-suc 2 k,
      one-le-pow k 2,
      m,
    )

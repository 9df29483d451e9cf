-- ===== src/Pic/Masks.antt =====
-- The masks of KluxOS/src/kernel/interrupt/pic.c as a set of interrupt lines.
use klux_os.Pic.{clear_mask, set_mask, Pic}
use klux_os.Base.{
  refl, dec_lt, ◌≤◌, bit_at-pow_ne, bit_at_le_one, bit_at-not_pow_ne, bit_at-pow_self,
  bit_at-bit_or, bit_at-not_pow_self, pow-lt, ℕ_discrete, bit_at-bit_and, bit_or-lt, ◌==◌, ◌%◌, ◌≡◌,
  bit_and, bit_or, ◌-◌, bit_at, ◌^◌, ltb, ◌<◌, ℕ, arith, true, false, ◌∙◌, ap, sym, if◌then◌else◌,
}

-- 1 while the line is masked.
abbrev pub masked : Pic → ℕ → ℕ
masked p irq = if ltb irq 8 then bit_at p.pic1_mask irq else bit_at p.pic2_mask (irq - 8)

or_bit :
    (m i j : ℕ)
    → i < 8
    → m < 2 ^ 8
    → bit_at (bit_or m (2 ^ i) % 2 ^ 8) j ≡ (if j == i then 1 else bit_at m j)
or_bit m i j lt small =
    let fits : bit_or m (2 ^ i) % 2 ^ 8 ≡ bit_or m (2 ^ i) =
      omega (arith, bit_or-lt 8 m (2 ^ i) small (pow-lt i 8 lt)) in
    rw fits (
      bit_at-bit_or m (2 ^ i) j ∙ elim (ℕ_discrete i j) [
        | yes p ↦
            let t : (j == i) ≡ true = ground (arith, p) in
            let b : bit_at (2 ^ i) j ≡ 1 = ap (bit_at (2 ^ i)) (sym p) ∙ bit_at-pow_self i in
            rw t (omega (arith, b, bit_at_le_one m j))
        | no ne ↦
            let t : (j == i) ≡ false = ground (arith, ne) in
            rw t (omega (arith, bit_at-pow_ne i j ne))
      ])

and_bit :
    (m i j : ℕ)
    → i < 8
    → j < 8
    → bit_at (bit_and m (2 ^ 8 - 1 - 2 ^ i)) j ≡ (if j == i then 0 else bit_at m j)
and_bit m i j lt lj = bit_at-bit_and m (2 ^ 8 - 1 - 2 ^ i) j ∙ elim (ℕ_discrete i j) [
  | yes p ↦
      let t : (j == i) ≡ true = ground (arith, p) in
      let b : bit_at (2 ^ 8 - 1 - 2 ^ i) j ≡ 0 =
        ap (bit_at (2 ^ 8 - 1 - 2 ^ i)) (sym p) ∙ bit_at-not_pow_self 8 i lt in
      rw t (omega (arith, b))
  | no ne ↦
      let t : (j == i) ≡ false = ground (arith, ne) in
      rw t (omega (arith, bit_at-not_pow_ne 8 i j lt lj ne, bit_at_le_one m j))
]

shift_test : (a b : ℕ) → 8 ≤ a → 8 ≤ b → (a == b) ≡ (a - 8 == b - 8)
shift_test a b ha hb = ground arith

-- pic_set_mask masks its line and pic_clear_mask unmasks it, of the 16 lines of both controllers,
-- and neither changes another line.
pub masked-set_mask-clear_mask :
    (p : Pic) (irq other : ℕ)
    → p.pic1_mask < 2 ^ 8
    → p.pic2_mask < 2 ^ 8
    → irq < 16
    → other < 16
    → (masked (set_mask irq p).1 other ≡ (if other == irq then 1 else masked p other))
      × (masked (clear_mask irq p).1 other ≡ (if other == irq then 0 else masked p other))
unfolding set_mask clear_mask
masked-set_mask-clear_mask p irq other small1 small2 lt lo = elim (dec_lt irq 8) [
  | yes first ↦
      let t : ltb irq 8 ≡ true = ground (arith, first) in
      elim (dec_lt other 8) [
        | yes o ↦
            let u : ltb other 8 ≡ true = ground (arith, o) in
            rw t (
              rw u
                (or_bit p.pic1_mask irq other first small1, and_bit p.pic1_mask irq other first o))
        | no o ↦
            let u : ltb other 8 ≡ false = ground (arith, o) in
            let ne : (other == irq) ≡ false = ground (arith, first, o) in
            rw t (rw u (rw ne (refl, refl)))
      ]
  | no second ↦
      let t : ltb irq 8 ≡ false = ground (arith, second) in
      elim (dec_lt other 8) [
        | yes o ↦
            let u : ltb other 8 ≡ true = ground (arith, o) in
            let ne : (other == irq) ≡ false = ground (arith, second, o) in
            rw t (rw u (rw ne (refl, refl)))
        | no o ↦
            let u : ltb other 8 ≡ false = ground (arith, o) in
            let same : (other == irq) ≡ (other - 8 == irq - 8) =
              shift_test other irq (omega arith) (omega arith) in
            rw t (
              rw u (
                rw same (
                  or_bit p.pic2_mask (irq - 8) (other - 8) (omega arith) small2,
                  and_bit p.pic2_mask (irq - 8) (other - 8) (omega arith) (omega arith),
                )))
      ]
]

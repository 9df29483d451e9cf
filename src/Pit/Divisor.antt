-- ===== src/Pit/Divisor.antt =====
-- What pit_init of KluxOS/src/kernel/timer/pit.c programs.
use klux_os.Pit.{pit_frequency, Timer, clamp, init}
use klux_os.Base.{
  max, min, if◌then◌else◌, bit_and-ones, ◌&&◌, ltb, ◌%◌, ◌||◌, bit_and, dec_lt, holds_below,
  holds_below_at, leb, Bool, ◌/◌, ◌≡◌, ◌<◌, ◌*◌, ◌≤◌, ◌^◌, ◌+◌, ℕ, refl, arith, true, false, ◌∙◌,
  ap,
}

-- The divisor that the two bytes give the chip.
abbrev pub programmed : ℕ × ℕ × ℕ → ℕ
programmed (command, low, high) = low + 2 ^ 8 * high

-- From 19 to 1000 Hz the divisor has 16 bits, and a tick lasts at least a millisecond.
fits : ℕ → Bool
fits f = leb f 18 || (ltb (pit_frequency / f) (2 ^ 16) && leb 1 (1000 / f))

fits_all : holds_below fits 1001 ≡ true
unfolding holds_below fits
fits_all = refl

in_range : (f : ℕ) → 18 < f → f ≤ 1000 → (pit_frequency / f < 2 ^ 16) × (1 ≤ 1000 / f)
unfolding fits
in_range f low high =
    let passed : fits f ≡ true = holds_below_at fits 1001 f (omega arith) fits_all in
    let above : leb f 18 ≡ false = ground (arith, low) in
    let both : (ltb (pit_frequency / f) (2 ^ 16) && leb 1 (1000 / f)) ≡ true = rw above at passed in
    (ground (arith, both), ground (arith, both))

clamp_lem :
    (frequency : ℕ)
    → (18 < frequency → 18 < clamp frequency)
      × (clamp frequency ≤ 1000)
      × (frequency ≤ 18 → clamp frequency ≡ 18)
unfolding clamp
clamp_lem frequency = (λ h. ground (arith, h), ground arith, λ h. ground (arith, h))

sixteen_bits : (d : ℕ) → programmed (0x36, bit_and d 0xFF, bit_and (d / 2 ^ 8) 0xFF) ≡ d % 2 ^ 16
sixteen_bits d = omega (arith, bit_and-ones 8 d, bit_and-ones 8 (d / 2 ^ 8))

clamp-max : (frequency : ℕ) → clamp frequency ≡ min 1000 (max 18 frequency)
unfolding clamp
clamp-max frequency = ground arith

-- The timer counts at the frequency it was asked for, cut to 18 and 1000, with a tick of as many
-- whole milliseconds as its period has, at least one. The chip gets the divisor of that frequency,
-- but for 18 and below: there the divisor, 66287, has more than 16 bits, and the chip gets 751,
-- which is 1588 interrupts a second.
pub init-programmed :
    (frequency : ℕ) (t : Timer)
    → let (bytes, t') = init frequency t in
      (t'.frequency ≡ min 1000 (max 18 frequency))
      × (t'.ms_per_tick ≡ 1000 / t'.frequency)
      × (1 ≤ t'.ms_per_tick)
      × (programmed bytes ≡ (if ltb 18 frequency then pit_frequency / t'.frequency else 751))
      × (pit_frequency / programmed bytes
          ≡ (if ltb 18 frequency then pit_frequency / (pit_frequency / t'.frequency) else 1588))
unfolding init
init-programmed frequency t =
    let f = clamp frequency in
    let (above, high, below) = clamp_lem frequency in
    elim (dec_lt 18 frequency) [
      | yes more ↦
          let (small, tick) = in_range f (above more) high in
          let t : ltb 18 frequency ≡ true = ground (arith, more) in
          let chip = sixteen_bits (pit_frequency / f) ∙ omega (arith, small) in
          rw t (clamp-max frequency, refl, tick, chip, ap (λ (d : ℕ). pit_frequency / d) chip)
      | no less ↦
          let e : f ≡ 18 = below (omega arith) in
          let t : ltb 18 frequency ≡ false = ground (arith, less) in
          let chip =
            sixteen_bits (pit_frequency / f) ∙ ap (λ (n : ℕ). pit_frequency / n % 2 ^ 16) e in
          rw t (
            clamp-max frequency,
            refl,
            rw e (omega arith),
            chip,
            ap (λ (d : ℕ). pit_frequency / d) chip,
          )
    ]

-- ===== src/Terminal/Numbers.antt =====
-- The text of the numbers that KluxOS/src/drivers/terminal.c prints.
use klux_os.Terminal.Digits.{
  All-store_digits, length-store_digits, All-reverse, length-reverse, store-IsNumeralOf,
  writestring-write, print_back-reverse, IsDecimal, IsNumeralOf, decimal_value, hex_value,
}
use klux_os.Terminal.{putchar, Terminal, writestring}
use klux_os.Terminal.Format.{
  number_buffer, store_digits, decimal_digit, hex_digit, print_positive, print_hex, print_int,
  print_uint,
}
use klux_os.Base.{
  ℕ_discrete, reverse, ◌%◌, leb, dec_lt, ◌≤◌, All, holds_below_at, length, ◌-◌, ==_iff, ltb, ◌==◌,
  ◌++◌, ◌^◌, ◌≡◌, List, ◌<◌, holds_below, ℕ, refl, arith, [], ◌∷◌, true, false, ◌∙◌, sym,
  if◌then◌else◌,
}

decimal_value-digit : (d : ℕ) → d < 10 → decimal_value (decimal_digit d) ≡ d
decimal_value-digit d lt = omega arith

all_hex : holds_below (λ n. hex_value (hex_digit n) == n) 16 ≡ true
unfolding holds_below
all_hex = refl

hex_value-digit : (d : ℕ) → d < 16 → hex_value (hex_digit d) ≡ d
hex_value-digit d lt =
    (==_iff (hex_value (hex_digit d)) d).0
      (holds_below_at (λ n. hex_value (hex_digit n) == n) 16 d lt all_hex)

zero_writestring : (t : Terminal) → print_uint 0 t ≡ writestring (48 ∷ []) t
unfolding print_uint writestring
zero_writestring t = refl

-- What is printed for a number below 2^32: its decimal numeral, of at most 10 digits, so that the
-- buffer of 12 places holds them and every digit of the number is printed.
pub print_uint_lem :
    (value : ℕ) (t : Terminal)
    → value < 2 ^ 32
    → (text : List ℕ) × (print_uint value t ≡ writestring text t)
      × IsNumeralOf 10 decimal_value value text
      × All IsDecimal text
      × (length text ≤ 10)
unfolding print_uint
print_uint_lem value t lt = elim (dec_lt 0 value) [
  | yes pos ↦
      let on : (value == 0) ≡ false = ground (arith, pos) in
      let buffer = store_digits 10 number_buffer value decimal_digit in
      (
        reverse buffer,
        rw on (print_back-reverse buffer t ∙ sym (writestring-write (reverse buffer) t)),
        store-IsNumeralOf 10 number_buffer value decimal_digit decimal_value (omega arith)
            decimal_value-digit pos (omega arith),
        All-reverse IsDecimal buffer (
            All-store_digits 10 decimal_digit decimal_value (omega arith) IsDecimal
              (λ d h. (omega arith, omega arith)) number_buffer value),
        omega (
          arith,
          length-reverse buffer,
          length-store_digits 10 decimal_digit decimal_value (omega arith) number_buffer 10 value
              (omega arith),
        ),
      )
  | no none_left ↦
      let e : value ≡ 0 = omega arith in
      (
        48 ∷ [],
        rw e (zero_writestring t),
        rw e (refl, omega arith, omega arith),
        ((omega arith, omega arith), tt),
        omega arith,
      )
]

pub writestring-append :
    (xs ys : List ℕ) (t : Terminal) → writestring (xs ++ ys) t ≡ writestring ys (writestring xs t)
unfolding writestring
writestring-append [] ys t = refl
writestring-append (c ∷ xs) ys t = writestring-append xs ys (putchar c t)

-- What is printed in base 16 for a number below 2^32: "0x" and its numeral, of at most 8 digits.
pub print_hex_lem :
    (value : ℕ) (t : Terminal)
    → value < 2 ^ 32
    → (text : List ℕ) × (print_hex value t ≡ writestring (48 ∷ 120 ∷ text) t)
      × IsNumeralOf 16 hex_value value text
      × (length text ≤ 8)
unfolding print_hex writestring
print_hex_lem value t lt = elim (dec_lt 0 value) [
  | yes pos ↦
      let on : (value == 0) ≡ false = ground (arith, pos) in
      let buffer = store_digits 16 8 value hex_digit in
      let s = putchar 120 (putchar 48 t) in
      (
        reverse buffer,
        rw on (print_back-reverse buffer s ∙ sym (writestring-write (reverse buffer) s)),
        store-IsNumeralOf 16 8 value hex_digit hex_value (omega arith) hex_value-digit pos
            (omega arith),
        omega (
          arith,
          length-reverse buffer,
          length-store_digits 16 hex_digit hex_value (omega arith) 8 8 value (omega arith),
        ),
      )
  | no none_left ↦
      let e : value ≡ 0 = omega arith in
      (48 ∷ [], rw e refl, rw e (refl, omega arith, omega arith), omega arith)
]

-- An `int` is printed as its sign and its size; of the least one, only the sign is printed.
pub print_int_lem :
    (value : ℕ) (t : Terminal)
    → value < 2 ^ 32
    → print_int value t ≡ (
        if ltb value (2 ^ 31)
        then print_uint value t
        else if value == 2 ^ 31
        then putchar 45 t
        else print_uint (2 ^ 32 - value) (putchar 45 t))
unfolding print_int print_positive print_uint
print_int_lem value t lt = elim (dec_lt value (2 ^ 31)) [
  | yes low ↦
      let a : ltb value (2 ^ 31) ≡ true = ground (arith, low) in
      let b : leb (2 ^ 31) value ≡ false = ground (arith, low) in rw a (rw b refl)
  | no high ↦
      let a : ltb value (2 ^ 31) ≡ false = ground (arith, high) in
      let b : leb (2 ^ 31) value ≡ true = ground (arith, high) in
      let m : (2 ^ 32 - value) % 2 ^ 32 ≡ 2 ^ 32 - value = omega arith in
      elim (ℕ_discrete value (2 ^ 31)) [
        | yes p ↦ rw p refl
        | no ne ↦
            let c : (value == 2 ^ 31) ≡ false = ground (arith, ne) in
            let d : leb (2 ^ 31) (2 ^ 32 - value) ≡ false = ground (arith, high, ne, lt) in
            rw a (rw b (rw c (rw m (rw d refl))))
      ]
]

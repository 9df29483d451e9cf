-- ===== src/Terminal/Digits.antt =====
-- The numbers that KluxOS/src/drivers/terminal.c prints against a reader of numerals.
use klux_os.Terminal.Format.{store_digits, print_back}
use klux_os.Terminal.{putchar, Terminal, write, writestring}
use klux_os.Base.{
  max, leb, ◌-◌, ◌%◌, ltb, ◌/◌, All-append, dec_lt, length-append, ◌^◌, reverse, ◌++◌, ◌+◌, ◌<◌,
  ◌≡◌, All, length, ◌*◌, ◌≤◌, List, ℕ, zero, suc, refl, arith, [], ◌∷◌, true, false, ◌∙◌, ap, sym,
  if◌then◌else◌,
}
use native.Mathlib.Nat.{
  le_of_mul-le-mul_right, pow-zero, mul_comm, pow-suc, div-add-mod, div-lt_iff_lt-mul, mod-lt,
  mul-le-mul_right,
}

write-append : (xs ys : List ℕ) (t : Terminal) → write (xs ++ ys) t ≡ write ys (write xs t)
unfolding write
write-append [] ys t = refl
write-append (c ∷ xs) ys t = write-append xs ys (putchar c t)

-- The buffer is printed from its end.
pub print_back-reverse :
    (buffer : List ℕ) (t : Terminal) → print_back buffer t ≡ write (reverse buffer) t
unfolding print_back write
print_back-reverse [] t = refl
print_back-reverse (c ∷ buffer) t =
    ap (putchar c) (print_back-reverse buffer t) ∙ sym (write-append (reverse buffer) (c ∷ []) t)

pub writestring-write : (text : List ℕ) (t : Terminal) → writestring text t ≡ write text t
unfolding writestring write
writestring-write [] t = refl
writestring-write (c ∷ text) t = writestring-write text (putchar c t)

-- The number of a numeral, its highest digit first, after the number `acc`.
abbrev pub read_number : (base : ℕ) → (char_value : ℕ → ℕ) → List ℕ → (acc : ℕ) → ℕ
read_number base char_value [] acc = acc
read_number base char_value (c ∷ text) acc =
    read_number base char_value text (acc * base + char_value c)

pub All-reverse : (P : ℕ → Type 0) (xs : List ℕ) → All P xs → All P (reverse xs)
All-reverse P [] h = tt
All-reverse P (x ∷ xs) h = All-append P (reverse xs) (x ∷ []) (All-reverse P xs h.1) (h.0, tt)

pub length-reverse : (xs : List ℕ) → length (reverse xs) ≡ length xs
length-reverse [] = refl
length-reverse (x ∷ xs) = omega (arith, length-append (reverse xs) (x ∷ []), length-reverse xs)

module _ (base : ℕ) (digit char_value : ℕ → ℕ) (two : 2 ≤ base) where
  read-snoc :
      (xs : List ℕ) (c acc : ℕ)
      → read_number base char_value (xs ++ c ∷ []) acc
        ≡ read_number base char_value xs acc * base + char_value c
  read-snoc [] c acc = refl
  read-snoc (x ∷ xs) c acc = read-snoc xs c (acc * base + char_value x)

  smaller : (value k : ℕ) → value < base ^ suc k → value / base < base ^ k
  smaller value k lt =
      (div-lt_iff_lt-mul {k = base} {x = value} {y = base ^ k} (omega arith)).1
        (omega (arith, pow-suc base k))

  -- The stored digits, turned round, are a numeral of the value, when there are places enough.
  pub read-store_digits :
      (left value : ℕ)
      → ((d : ℕ) → d < base → char_value (digit d) ≡ d)
      → value < base ^ left
      → read_number base char_value (reverse (store_digits base left value digit)) 0 ≡ value
  unfolding store_digits
  read-store_digits zero value inverse lt = omega (arith, pow-zero base)
  read-store_digits (suc left) value inverse lt = elim (dec_lt 0 value) [
    | yes pos ↦
        let on : ltb 0 value ≡ true = ground (arith, pos) in
        let rest = store_digits base left (value / base) digit in
        let ih = read-store_digits left (value / base) inverse (smaller value left lt) in
        rw on (
          read-snoc (reverse rest) (digit (value % base)) 0
          ∙ ap (λ (n : ℕ). n * base + char_value (digit (value % base))) ih
          ∙ ap (λ (n : ℕ). value / base * base + n)
              (inverse (value % base) (mod-lt value (omega arith)))
          ∙ omega (arith, div-add-mod value base, mul_comm (value / base) base))
    | no none_left ↦
        let off : ltb 0 value ≡ false = ground (arith, none_left) in rw off (omega arith)
  ]

  -- As many digits as the value has.
  pub length-store_digits :
      (left k value : ℕ) → value < base ^ k → length (store_digits base left value digit) ≤ k
  unfolding store_digits
  length-store_digits zero k value lt = omega arith
  length-store_digits (suc left) zero value lt =
      let off : ltb 0 value ≡ false = ground (arith, lt, pow-zero base) in rw off (omega arith)
  length-store_digits (suc left) (suc k) value lt = elim (dec_lt 0 value) [
    | yes pos ↦
        let on : ltb 0 value ≡ true = ground (arith, pos) in
        rw on (omega (arith, length-store_digits left k (value / base) (smaller value k lt)))
    | no none_left ↦
        let off : ltb 0 value ≡ false = ground (arith, none_left) in rw off (omega arith)
  ]

  pub All-store_digits :
      (P : ℕ → Type 0)
      → ((d : ℕ) → d < base → P (digit d))
      → (left value : ℕ) → All P (store_digits base left value digit)
  unfolding store_digits
  All-store_digits P each zero value = tt
  All-store_digits P each (suc left) value = elim (dec_lt 0 value) [
    | yes pos ↦
        let on : ltb 0 value ≡ true = ground (arith, pos) in
        rw on (
          each (value % base) (mod-lt value (omega arith)),
          All-store_digits P each left (value / base),
        )
    | no none_left ↦ let off : ltb 0 value ≡ false = ground (arith, none_left) in rw off tt
  ]

  -- The last digit stored, which is printed first, is not 0.
  leading-store_digits :
      (left value : ℕ)
      → 0 < value
      → base ^ length (store_digits base left value digit) ≤ value * base
  unfolding store_digits
  leading-store_digits zero value pos =
      let h : base ^ 0 ≤ value * base = omega (arith, mul-le-mul_right base pos, pow-zero base) in h
  leading-store_digits (suc left) value pos =
      let on : ltb 0 value ≡ true = ground (arith, pos) in
      let rest = store_digits base left (value / base) digit in
      let below : base ^ length rest ≤ value = elim (dec_lt 0 (value / base)) [
        | yes more ↦
            let ih = leading-store_digits left (value / base) more in
            omega (arith, ih, div-add-mod value base, mul_comm (value / base) base)
        | no last ↦
            let e : value / base ≡ 0 = omega arith in
            let n : length rest ≤ 0 =
              length-store_digits left 0 (value / base) (omega (arith, pow-zero base)) in
            let z : length rest ≡ 0 = omega (arith, n) in
            let one : base ^ 0 ≤ value = omega (arith, pow-zero base) in rw z one
      ] in
      rw on (omega (arith, pow-suc base (length rest), mul-le-mul_right base below))

-- A character that stands for a digit below `base`.
abbrev pub decimal_value : ℕ → ℕ
decimal_value c = c - 48

abbrev pub IsDecimal : ℕ → Type 0
IsDecimal c = (48 ≤ c) × (c ≤ 57)

-- The place of a character in "0123456789ABCDEF".
abbrev pub hex_value : ℕ → ℕ
hex_value c = if leb 65 c then c - 55 else c - 48

-- The decimal numeral of a number: its digits without a leading 0, the numeral "0" for 0.
abbrev pub IsNumeralOf : (base : ℕ) (char_value : ℕ → ℕ) (value : ℕ) → List ℕ → Type 0
IsNumeralOf base char_value value text =
    (read_number base char_value text 0 ≡ value)
    × (0 < length text)
    × (base ^ (length text - 1) ≤ max value 1)

read-no_digits :
    (base : ℕ) (char_value : ℕ → ℕ) (buffer : List ℕ)
    → length buffer ≡ 0
    → read_number base char_value (reverse buffer) 0 ≡ 0
read-no_digits base char_value [] e = refl
read-no_digits base char_value (c ∷ buffer) e = absurd (omega arith)

pub store-IsNumeralOf :
    (base left value : ℕ) (digit char_value : ℕ → ℕ)
    → 2 ≤ base
    → ((d : ℕ) → d < base → char_value (digit d) ≡ d)
    → 0 < value
    → value < base ^ left
    → IsNumeralOf base char_value value (reverse (store_digits base left value digit))
store-IsNumeralOf base left value digit char_value two inverse pos lt =
    let buffer = store_digits base left value digit in
    let lead = leading-store_digits base digit char_value two left value pos in
    let reads = read-store_digits base digit char_value two left value inverse lt in
    let n = length-reverse buffer in
    let used : 0 < length buffer = elim (dec_lt 0 (length buffer)) [
      | yes h ↦ h
      | no h ↦
          absurd (omega (arith, pos, reads, read-no_digits base char_value buffer (omega arith)))
    ] in
    let p : length buffer ≡ suc (length buffer - 1) = omega arith in
    let q : base ^ length buffer ≡ base ^ (length buffer - 1) * base =
      ap (λ (k : ℕ). base ^ k) p ∙ pow-suc base (length buffer - 1) in
    let r : base ^ (length buffer - 1) ≤ value =
      le_of_mul-le-mul_right {k = base} (omega (arith, lead, q)) (omega arith) in
    let e : length (reverse buffer) - 1 ≡ length buffer - 1 = omega (arith, n) in
    (reads, omega (arith, n), rw e (omega (arith, r)))

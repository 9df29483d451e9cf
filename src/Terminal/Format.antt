-- ===== src/Terminal/Format.antt =====
-- The printing of numbers and formats of KluxOS/src/drivers/terminal.c.
use klux_os.Terminal.{putchar, writestring, Terminal}
use klux_os.Base.{
  ◌-◌, ◌%◌, ◌^◌, leb, ltb, ◌||◌, get_or, ◌+◌, ◌/◌, ◌==◌, Bool, List, ℕ, zero, suc, [], ◌∷◌, true,
  false, if◌then◌else◌,
}

-- The loop that stores digits, the lowest first, in a buffer with `left` places more; it ends
-- earlier when the value is used up. `terminal_print_uint` has no test on the place.
unfoldable pub store_digits : (base left value : ℕ) → (digit : ℕ → ℕ) → List ℕ
store_digits base zero value digit = []
store_digits base (suc left) value digit =
    let rest = store_digits base left (value / base) digit in
    if ltb 0 value then digit (value % base) ∷ rest else []

-- The loop that prints the buffer from its end.
unfoldable pub print_back : List ℕ → Terminal → Terminal
print_back [] t = t
print_back (c ∷ buffer) t = putchar c (print_back buffer t)

abbrev pub decimal_digit : ℕ → ℕ
decimal_digit d = 48 + d

-- The table "0123456789ABCDEF".
abbrev pub hex_digits : List ℕ
hex_digits = 48 ∷ 49 ∷ 50 ∷ 51 ∷ 52 ∷ 53 ∷ 54 ∷ 55 ∷ 56 ∷ 57 ∷ 65 ∷ 66 ∷ 67 ∷ 68 ∷ 69 ∷ 70 ∷ []

abbrev pub hex_digit : ℕ → ℕ
hex_digit d = get_or hex_digits d 0

abbrev pub number_buffer : ℕ
number_buffer = 12

unfoldable pub print_uint : (value : ℕ) → Terminal → Terminal
print_uint value t =
    if value == 0
    then putchar 48 t
    else print_back (store_digits 10 number_buffer value decimal_digit) t

-- What both functions do with an `int` that is no longer tested for its sign: the loop of one that
-- is still negative has no turn.
unfoldable pub print_positive : (value : ℕ) → Terminal → Terminal
print_positive value t =
    if value == 0
    then putchar 48 t
    else if leb (2 ^ 31) value
    then t
    else print_back (store_digits 10 number_buffer value decimal_digit) t

-- A 32-bit word, negative from 2^31 on; `-value` wraps.
unfoldable pub print_int : (value : ℕ) → Terminal → Terminal
print_int value t =
    if leb (2 ^ 31) value
    then print_positive ((2 ^ 32 - value) % 2 ^ 32) (putchar 45 t)
    else print_positive value t

unfoldable pub print_hex : (value : ℕ) → Terminal → Terminal
print_hex value t =
    let prefixed = writestring (48 ∷ 120 ∷ []) t in
    if value == 0
    then putchar 48 prefixed
    else print_back (store_digits 16 8 value hex_digit) prefixed

-- What is printed for the character after a '%': "(int)", "(uint)", "(hex)", "(string)", "(char)",
-- or the two characters.
unfoldable pub placeholder : ℕ → List ℕ
placeholder c =
    if c == 37
    then 37 ∷ []
    else if (c == 100) || (c == 105)
    then 40 ∷ 105 ∷ 110 ∷ 116 ∷ 41 ∷ []
    else if c == 117
    then 40 ∷ 117 ∷ 105 ∷ 110 ∷ 116 ∷ 41 ∷ []
    else if (c == 120) || (c == 88)
    then 40 ∷ 104 ∷ 101 ∷ 120 ∷ 41 ∷ []
    else if c == 115
    then 40 ∷ 115 ∷ 116 ∷ 114 ∷ 105 ∷ 110 ∷ 103 ∷ 41 ∷ []
    else if c == 99
    then 40 ∷ 99 ∷ 104 ∷ 97 ∷ 114 ∷ 41 ∷ []
    else 37 ∷ c ∷ []

-- The arguments after the format are not read. `escaped` says that the character before was a '%'
-- that starts a specifier.
unfoldable pub printf_from : (escaped : Bool) → List ℕ → Terminal → Terminal
printf_from escaped [] t = t
printf_from false (c ∷ format) t =
    let plain = printf_from false format (putchar c t) in
    let specifier = printf_from true format t in if c == 37 then specifier else plain
printf_from true (c ∷ format) t = printf_from false format (writestring (placeholder c) t)

unfoldable pub printf : List ℕ → Terminal → Terminal
printf format t = printf_from false format t

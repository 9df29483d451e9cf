-- ===== src/Aes/Schedule.antt =====
-- The key expansion and `aes_init` of KluxOS/src/security/aes.c. `none` is an access outside an
-- array.
pub mod Expansion
use klux_os.Aes.{bit_xor, zip_column, Column, Context}
use klux_os.Base.{
  set, ◌&&◌, length, ltb, ◌%◌, ◌/◌, ◌==◌, get_elem?, if◌then◌else◌, ◌*◌, ◌+◌, ◌-◌, List, Option, ℕ,
  zero, suc, none, some,
}
use klux_os.Aes.Tables.{sbox, rcon}

infixl 5 ◌>>=◌
abbrev pub ◌>>=◌ {ℓ κ} : {A : Type ℓ} {B : Type κ} → Option A → (A → Option B) → Option B
none >>= k = none
some x >>= k = k x

-- `temp[0..4)`
abbrev pub read_word : List ℕ → ℕ → Option Column
read_word xs i = do
  a ← get_elem? xs i
  b ← get_elem? xs (i + 1)
  c ← get_elem? xs (i + 2)
  d ← get_elem? xs (i + 3)
  some (record { r0 = a; r1 = b; r2 = c; r3 = d })

-- A store that must lie inside the array.
abbrev pub store : List ℕ → ℕ → ℕ → Option (List ℕ)
store xs i v = if ltb i (length xs) then some (set xs i v) else none

abbrev pub write_word : List ℕ → ℕ → Column → Option (List ℕ)
write_word xs i w = do
  xs ← store xs i w.r0
  xs ← store xs (i + 1) w.r1
  xs ← store xs (i + 2) w.r2
  store xs (i + 3) w.r3

-- The four look-ups `temp[j] = sbox[temp[j]]`.
abbrev pub sub_word : Column → Option Column
sub_word w = do
  a ← get_elem? sbox w.r0
  b ← get_elem? sbox w.r1
  c ← get_elem? sbox w.r2
  d ← get_elem? sbox w.r3
  some (record { r0 = a; r1 = b; r2 = c; r3 = d })

abbrev pub rotate : Column → Column
rotate w = record { r0 = w.r1; r1 = w.r2; r2 = w.r3; r3 = w.r0 }

-- What the body of the loop does to `temp` at index `i`.
unfoldable pub transform : ℕ → ℕ → Column → Option Column
transform key_size i temp =
    if i % key_size == 0
    then (do
      w ← sub_word (rotate temp)
      r ← get_elem? rcon (i / key_size - 1)
      some (record w { r0 = bit_xor w.r0 r }))
    else if ltb 24 key_size && (i % key_size == 16)
    then sub_word temp
    else some temp

unfoldable pub expand_step : ℕ → ℕ → List ℕ → Option (List ℕ)
expand_step key_size i xs = do
  temp ← read_word xs (i - 4)
  temp ← transform key_size i temp
  old ← read_word xs (i - key_size)
  write_word xs i (zip_column bit_xor old temp)

-- The `while` loop from index `i`, with `left` words left.
unfoldable pub expand_from : ℕ → ℕ → ℕ → List ℕ → Option (List ℕ)
expand_from key_size zero i xs = some xs
expand_from key_size (suc left) i xs = do
  xs ← expand_step key_size i xs
  expand_from key_size left (i + 4) xs

-- The first loop copies the key, from index `i`, with `left` bytes left.
unfoldable pub copy_key : List ℕ → ℕ → ℕ → List ℕ → Option (List ℕ)
copy_key key zero i xs = some xs
copy_key key (suc left) i xs = do
  b ← get_elem? key i
  xs ← store xs i b
  copy_key key left (i + 1) xs

unfoldable pub expand_key : List ℕ → List ℕ → ℕ → ℕ → Option (List ℕ)
expand_key key expanded key_size round_count = do
  xs ← copy_key key key_size 0 expanded
  expand_from key_size ((16 * (round_count + 1) - key_size) / 4) key_size xs

-- What `aes_init` answers: -2 for a key size that is none of the three, else the context.
pub data Init : Type 0 where
  bad_size : Init
  ready : Context → Init

unfoldable pub rounds_of : ℕ → Option ℕ
rounds_of key_size =
    if key_size == 16
    then some 10
    else if key_size == 24
    then some 12
    else if key_size == 32
    then some 14
    else none

-- `aes_init` on a context that is there and a key that is there.
unfoldable pub init : Context → List ℕ → ℕ → Option Init
init ctx key key_size = elim (rounds_of key_size) [
  | none ↦ some bad_size
  | some rounds ↦ elim (expand_key key ctx.expanded_key key_size rounds) [
    | none ↦ none
    | some xs ↦ some (ready (record { expanded_key = xs; rounds = rounds }))
  ]
]

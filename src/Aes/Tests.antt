-- ===== src/Aes/Tests.antt =====
-- Runs of the block cipher, on the test vector of the cipher's standard for 128-bit keys.
use klux_os.Aes.Chain.{encrypt_cbc-decrypt_cbc, block, before}
use klux_os.Aes.Cbc.{encrypt_cbc, decrypt_cbc, done}
use klux_os.Aes.{zip_block, bit_xor}
use klux_os.Aes.Inverse.{inv_mix_columns_loses, uniform}
use klux_os.Aes.Round.{IsContext}
use klux_os.Aes.Schedule.Expansion.{init_total, IsBytes, IsSchedule}
use klux_os.Aes.{
  xtime, inv_sub_byte, sub_byte, inv_sub_bytes, sub_bytes, inv_shift_rows, shift_rows,
  inv_mix_column, mix_column, add_round_key, decrypt_rounds, decrypt_block, encrypt_rounds, get_or,
  encrypt_block, block_at, mix_columns, ℕ, Context, inv_mix_columns,
}
use klux_os.Base.{◌≢◌, ◌<◌, ◌∷◌, replicate, ◌≡◌, List, Option, length, refl, arith, [], none, some}
use klux_os.Aes.Schedule.{
  transform, expand_step, expand_from, copy_key, expand_key, Init, rounds_of, init, bad_size, ready,
}

abbrev key : List ℕ
key =
    0x00 ∷ 0x01 ∷ 0x02 ∷ 0x03 ∷ 0x04 ∷ 0x05 ∷ 0x06 ∷ 0x07 ∷ 0x08 ∷ 0x09 ∷ 0x0a ∷ 0x0b ∷ 0x0c ∷ 0x0d
    ∷ 0x0e ∷ 0x0f ∷ []

abbrev plain : List ℕ
plain =
    0x00 ∷ 0x11 ∷ 0x22 ∷ 0x33 ∷ 0x44 ∷ 0x55 ∷ 0x66 ∷ 0x77 ∷ 0x88 ∷ 0x99 ∷ 0xaa ∷ 0xbb ∷ 0xcc ∷ 0xdd
    ∷ 0xee ∷ 0xff ∷ []

abbrev blank : Context
blank = record { expanded_key = replicate 240 0; rounds = 0 }

abbrev context_of : Option Init → Context
context_of none = blank
context_of (some bad_size) = blank
context_of (some (ready ctx)) = ctx

blank-IsSchedule : IsSchedule blank.expanded_key
blank-IsSchedule = omega arith

key-IsBytes : IsBytes key
key-IsBytes = omega arith

encrypts_the_vector :
    encrypt_block (context_of (init blank key 16)) (block_at plain 0)
    ≡ block_at
        (0x69 ∷ 0xc4 ∷ 0xe0 ∷ 0xd8 ∷ 0x6a ∷ 0x7b ∷ 0x04 ∷ 0x30 ∷ 0xd8 ∷ 0xcd ∷ 0xb7 ∷ 0x80 ∷ 0x70
          ∷ 0xb4 ∷ 0xc5 ∷ 0x5a ∷ [])
        0
unfolding init rounds_of expand_key copy_key expand_from expand_step transform encrypt_block
    encrypt_rounds add_round_key mix_columns mix_column shift_rows sub_bytes sub_byte xtime
encrypts_the_vector = refl

-- The source's own decryption of that block is not the plain text.
decrypts_to_something_else :
    (decrypt_block (context_of (init blank key 16)) (
      block_at
        (0x69 ∷ 0xc4 ∷ 0xe0 ∷ 0xd8 ∷ 0x6a ∷ 0x7b ∷ 0x04 ∷ 0x30 ∷ 0xd8 ∷ 0xcd ∷ 0xb7 ∷ 0x80 ∷ 0x70
          ∷ 0xb4 ∷ 0xc5 ∷ 0x5a ∷ [])
        0)).c0.r0
    ≢ 0x00
unfolding init rounds_of expand_key copy_key expand_from expand_step transform decrypt_block
    decrypt_rounds add_round_key inv_mix_columns inv_mix_column inv_shift_rows inv_sub_bytes
    inv_sub_byte xtime
decrypts_to_something_else = omega arith

init_total_example :
    (ctx' : Context) × (init blank key 16 ≡ some (ready ctx'))
    × (rounds_of 16 ≡ some ctx'.rounds)
    × IsContext ctx'
    × (length ctx'.expanded_key ≡ 240)
    × ((j : ℕ) → j < 16 → get_or ctx'.expanded_key j 0 ≡ get_or key j 0)
init_total_example =
    init_total blank key 16 blank-IsSchedule key-IsBytes (omega arith) (omega arith)

inv_mix_columns_loses_example :
    inv_mix_columns
      (mix_columns (record { c0 = uniform 1; c1 = uniform 2; c2 = uniform 3; c3 = uniform 4 }))
    ≢ record { c0 = uniform 1; c1 = uniform 2; c2 = uniform 3; c3 = uniform 4 }
inv_mix_columns_loses_example =
    inv_mix_columns_loses 1 (uniform 2) (uniform 3) (uniform 4) (omega arith) (omega arith)

encrypt_cbc-decrypt_cbc_example :
    (secret plain_again : List ℕ) × (encrypt_cbc blank (block_at key 0) plain 16 ≡ done secret)
    × (length secret ≡ 16)
    × ((i : ℕ)
        → i < 1
        → block secret i
          ≡ encrypt_block blank
              (zip_block bit_xor (block plain i) (before (block_at key 0) secret i)))
    × (decrypt_cbc blank (block_at key 0) plain 16 ≡ done plain_again)
    × (length plain_again ≡ 16)
    × ((i : ℕ)
        → i < 1
        → block plain_again i
          ≡ zip_block bit_xor
              (decrypt_block blank (block plain i))
              (before (block_at key 0) plain i))
encrypt_cbc-decrypt_cbc_example = encrypt_cbc-decrypt_cbc blank (block_at key 0) plain 16 refl

-- ===== src/Aes.antt =====
-- KluxOS/src/security/aes.c: the block cipher. A block of 16 bytes, `state[16]` in the source, is
-- four columns of four bytes: `state[4 * i + j]` is row `j` of column `i`.
pub mod Tables
pub mod Schedule
pub mod Cbc
pub mod Chain
pub mod Field
pub mod Inverse
pub mod Round
mod Tests
use Tables.{sbox, rsbox}
use klux_os.Base.{ℕ, zero, suc, ◌+◌, ◌-◌, ◌*◌, ◌/◌, ◌%◌, bit_xor, Bool, true, false, List, get_or}

pub record Column : Type 0 where
  pub r0 : ℕ
  pub r1 : ℕ
  pub r2 : ℕ
  pub r3 : ℕ

pub record Block : Type 0 where
  pub c0 : Column
  pub c1 : Column
  pub c2 : Column
  pub c3 : Column

-- `aes_context_t`
pub record Context : Type 0 where
  pub expanded_key : List ℕ
  pub rounds : ℕ

infixl 60 ◌^^◌
abbrev pub ◌^^◌ : ℕ → ℕ → ℕ
a ^^ b = bit_xor a b

abbrev pub map_column : (ℕ → ℕ) → Column → Column
map_column f c = record { r0 = f c.r0; r1 = f c.r1; r2 = f c.r2; r3 = f c.r3 }

abbrev pub map_block : (ℕ → ℕ) → Block → Block
map_block f s = record {
  c0 = map_column f s.c0;
  c1 = map_column f s.c1;
  c2 = map_column f s.c2;
  c3 = map_column f s.c3;
}

abbrev pub zip_column : (ℕ → ℕ → ℕ) → Column → Column → Column
zip_column f c d = record { r0 = f c.r0 d.r0; r1 = f c.r1 d.r1; r2 = f c.r2 d.r2; r3 = f c.r3 d.r3 }

abbrev pub zip_block : (ℕ → ℕ → ℕ) → Block → Block → Block
zip_block f s t = record {
  c0 = zip_column f s.c0 t.c0;
  c1 = zip_column f s.c1 t.c1;
  c2 = zip_column f s.c2 t.c2;
  c3 = zip_column f s.c3 t.c3;
}

-- The four bytes from index `i` on, and the sixteen of a block.
abbrev pub column_at : List ℕ → ℕ → Column
column_at xs i = record {
  r0 = get_or xs i 0;
  r1 = get_or xs (i + 1) 0;
  r2 = get_or xs (i + 2) 0;
  r3 = get_or xs (i + 3) 0;
}

abbrev pub block_at : List ℕ → ℕ → Block
block_at xs i = record {
  c0 = column_at xs i;
  c1 = column_at xs (i + 4);
  c2 = column_at xs (i + 8);
  c3 = column_at xs (i + 12);
}

-- Multiplication by x in the field of 256 elements, on a byte.
pub xtime : ℕ → ℕ
xtime x = (x * 2 ^^ x / 128 % 2 * 0x1b) % 256

pub sub_byte : ℕ → ℕ
sub_byte b = get_or sbox b 0

pub inv_sub_byte : ℕ → ℕ
inv_sub_byte b = get_or rsbox b 0

pub sub_bytes : Block → Block
sub_bytes s = map_block sub_byte s

pub inv_sub_bytes : Block → Block
inv_sub_bytes s = map_block inv_sub_byte s

-- Row `j` moves to the left by `j` columns.
pub shift_rows : Block → Block
shift_rows s = record {
  c0 = record { r0 = s.c0.r0; r1 = s.c1.r1; r2 = s.c2.r2; r3 = s.c3.r3 };
  c1 = record { r0 = s.c1.r0; r1 = s.c2.r1; r2 = s.c3.r2; r3 = s.c0.r3 };
  c2 = record { r0 = s.c2.r0; r1 = s.c3.r1; r2 = s.c0.r2; r3 = s.c1.r3 };
  c3 = record { r0 = s.c3.r0; r1 = s.c0.r1; r2 = s.c1.r2; r3 = s.c2.r3 };
}

pub inv_shift_rows : Block → Block
inv_shift_rows s = record {
  c0 = record { r0 = s.c0.r0; r1 = s.c3.r1; r2 = s.c2.r2; r3 = s.c1.r3 };
  c1 = record { r0 = s.c1.r0; r1 = s.c0.r1; r2 = s.c3.r2; r3 = s.c2.r3 };
  c2 = record { r0 = s.c2.r0; r1 = s.c1.r1; r2 = s.c0.r2; r3 = s.c3.r3 };
  c3 = record { r0 = s.c3.r0; r1 = s.c2.r1; r2 = s.c1.r2; r3 = s.c0.r3 };
}

-- One round of the loop in `mix_columns`. The casts to `uint8_t` keep bytes as they are.
pub mix_column : Column → Column
mix_column s =
    let a = s.r0 in
    let b = s.r1 in
    let c = s.r2 in
    let d = s.r3 in
    record {
      r0 = xtime a ^^ xtime b ^^ b ^^ c ^^ d;
      r1 = a ^^ xtime b ^^ xtime c ^^ c ^^ d;
      r2 = a ^^ b ^^ xtime c ^^ xtime d ^^ d;
      r3 = xtime a ^^ a ^^ b ^^ c ^^ xtime d;
    }

pub mix_columns : Block → Block
mix_columns s = record {
  c0 = mix_column s.c0;
  c1 = mix_column s.c1;
  c2 = mix_column s.c2;
  c3 = mix_column s.c3;
}

-- One round of the loop in `inv_mix_columns`, under the names of the source.
pub inv_mix_column : Column → Column
inv_mix_column s =
    let a = s.r0 in
    let b = s.r1 in
    let c = s.r2 in
    let d = s.r3 in
    let ea = xtime (xtime a) in
    let fb = xtime (xtime b) in
    let gc = xtime (xtime c) in
    let hd = xtime (xtime d) in
    let eea = xtime ea in
    let ffb = xtime fb in
    let ggc = xtime gc in
    let hhd = xtime hd in
    record {
      r0 = eea ^^ eea ^^ a ^^ ffb ^^ b ^^ gc ^^ c ^^ hd ^^ d;
      r1 = ea ^^ a ^^ ffb ^^ ffb ^^ b ^^ ggc ^^ c ^^ hd ^^ d;
      r2 = ea ^^ a ^^ fb ^^ b ^^ ggc ^^ ggc ^^ c ^^ hhd ^^ d;
      r3 = eea ^^ a ^^ fb ^^ b ^^ gc ^^ c ^^ hhd ^^ hhd ^^ d;
    }

pub inv_mix_columns : Block → Block
inv_mix_columns s = record {
  c0 = inv_mix_column s.c0;
  c1 = inv_mix_column s.c1;
  c2 = inv_mix_column s.c2;
  c3 = inv_mix_column s.c3;
}

pub add_round_key : Block → Block → Block
add_round_key s k = zip_block bit_xor s k

abbrev pub round_key : Context → ℕ → Block
round_key ctx round = block_at ctx.expanded_key (round * 16)

-- The loop of `aes_encrypt_block` with `left` rounds left, from round `round` on.
pub encrypt_rounds : Context → ℕ → ℕ → Block → Block
encrypt_rounds ctx zero round s = s
encrypt_rounds ctx (suc left) round s =
    encrypt_rounds ctx left (round + 1)
      (add_round_key (mix_columns (shift_rows (sub_bytes s))) (round_key ctx round))

pub encrypt_block : Context → Block → Block
encrypt_block ctx input =
    let s = encrypt_rounds ctx (ctx.rounds - 1) 1 (add_round_key input (round_key ctx 0)) in
    add_round_key (shift_rows (sub_bytes s)) (round_key ctx ctx.rounds)

-- The loop of `aes_decrypt_block`, which counts `round` down to 1.
pub decrypt_rounds : Context → ℕ → Block → Block
decrypt_rounds ctx zero s = s
decrypt_rounds ctx (suc below) s =
    decrypt_rounds ctx below (
      inv_mix_columns
        (add_round_key (inv_sub_bytes (inv_shift_rows s)) (round_key ctx (suc below))))

pub decrypt_block : Context → Block → Block
decrypt_block ctx input =
    let s = decrypt_rounds ctx (ctx.rounds - 1) (add_round_key input (round_key ctx ctx.rounds)) in
    add_round_key (inv_sub_bytes (inv_shift_rows s)) (round_key ctx 0)

-- ===== src/Aes/Round.antt =====
-- The parts of a round of KluxOS/src/security/aes.c: what keeps bytes, and what is undone.
use klux_os.Aes.Field.{inv_sub_byte-sub_byte, xor-byte, IsByteBlock, IsByteColumn}
use klux_os.Base.{arith, arith, All-get_or, ◌+◌, bit_xor_cancel, ◌≤◌, ◌<◌, All, ◌≡◌, List}
use klux_os.Aes.{
  get_or, column_at, inv_sub_byte, sub_byte, bit_xor, map_column, inv_shift_rows, sub_bytes,
  zip_column, ℕ, Block, Column, Context, add_round_key, inv_sub_bytes, shift_rows,
}

-- A schedule of bytes.
pub record IsContext (ctx : Context) : Type 0 where
  pub bytes : All (λ b. b < 256) ctx.expanded_key
  pub some_rounds : 1 ≤ ctx.rounds

pub column_at-byte : (xs : List ℕ) (i : ℕ) → All (λ b. b < 256) xs → IsByteColumn (column_at xs i)
column_at-byte xs i h = (at i, at (i + 1), at (i + 2), at (i + 3))
  where
    at : (j : ℕ) → get_or xs j 0 < 256
    at j = All-get_or (λ b. b < 256) xs j 0 h (omega arith)

pub zip_column-byte :
    (c d : Column) → IsByteColumn c → IsByteColumn d → IsByteColumn (zip_column bit_xor c d)
zip_column-byte c d h k = (
  xor-byte c.r0 d.r0 h.0 k.0,
  xor-byte c.r1 d.r1 h.1 k.1,
  xor-byte c.r2 d.r2 h.2 k.2,
  xor-byte c.r3 d.r3 h.3 k.3,
)

pub sub_column-byte : (c : Column) → IsByteColumn c → IsByteColumn (map_column sub_byte c)
sub_column-byte c h = (
  (inv_sub_byte-sub_byte c.r0 h.0).1,
  (inv_sub_byte-sub_byte c.r1 h.1).1,
  (inv_sub_byte-sub_byte c.r2 h.2).1,
  (inv_sub_byte-sub_byte c.r3 h.3).1,
)

inv_sub_column : (c : Column) → IsByteColumn c → map_column inv_sub_byte (map_column sub_byte c) ≡ c
inv_sub_column c h = λ i. record {
  r0 = (inv_sub_byte-sub_byte c.r0 h.0).0 i;
  r1 = (inv_sub_byte-sub_byte c.r1 h.1).0 i;
  r2 = (inv_sub_byte-sub_byte c.r2 h.2).0 i;
  r3 = (inv_sub_byte-sub_byte c.r3 h.3).0 i;
}

-- `inv_shift_rows` and `inv_sub_bytes` undo one round's substitution on a block of bytes.
pub unsubstitute :
    (s : Block) → IsByteBlock s → inv_sub_bytes (inv_shift_rows (shift_rows (sub_bytes s))) ≡ s
unfolding inv_sub_bytes inv_shift_rows shift_rows sub_bytes
unsubstitute s h = λ i. record {
  c0 = inv_sub_column s.c0 h.0 i;
  c1 = inv_sub_column s.c1 h.1 i;
  c2 = inv_sub_column s.c2 h.2 i;
  c3 = inv_sub_column s.c3 h.3 i;
}

xor_column_cancel : (c d : Column) → zip_column bit_xor (zip_column bit_xor c d) d ≡ c
xor_column_cancel c d = λ i. record {
  r0 = bit_xor_cancel c.r0 d.r0 i;
  r1 = bit_xor_cancel c.r1 d.r1 i;
  r2 = bit_xor_cancel c.r2 d.r2 i;
  r3 = bit_xor_cancel c.r3 d.r3 i;
}

-- Adding the same round key twice changes nothing.
pub add_round_key_twice : (s k : Block) → add_round_key (add_round_key s k) k ≡ s
unfolding add_round_key
add_round_key_twice s k = λ i. record {
  c0 = xor_column_cancel s.c0 k.c0 i;
  c1 = xor_column_cancel s.c1 k.c1 i;
  c2 = xor_column_cancel s.c2 k.c2 i;
  c3 = xor_column_cancel s.c3 k.c3 i;
}

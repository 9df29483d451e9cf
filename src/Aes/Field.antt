-- ===== src/Aes/Field.antt =====
-- The bytes of a block, and the two S-boxes of KluxOS/src/security/aes.c.
use klux_os.Base.{
  ◌&&◌, bit_xor-lt, ℕ, ◌<◌, ◌≡◌, refl, arith, true, ◌==◌, ltb, holds_below, holds_below_at,
}
use klux_os.Aes.{Block, Column, inv_sub_byte, sub_byte, ◌^^◌}

-- All four bytes of a column, and all sixteen of a block, are bytes.
abbrev pub IsByteColumn : Column → Type 0
IsByteColumn c = (c.r0 < 256) × (c.r1 < 256) × (c.r2 < 256) × (c.r3 < 256)

abbrev pub IsByteBlock : Block → Type 0
IsByteBlock s = IsByteColumn s.c0 × IsByteColumn s.c1 × IsByteColumn s.c2 × IsByteColumn s.c3

pub xor-byte : (a b : ℕ) → a < 256 → b < 256 → a ^^ b < 256
xor-byte a b ha hb = bit_xor-lt 8 a b ha hb

sub_byte_table :
    holds_below (λ x. (inv_sub_byte (sub_byte x) == x) && ltb (sub_byte x) 256) 256 ≡ true
unfolding holds_below sub_byte inv_sub_byte
sub_byte_table = refl

-- The two S-boxes undo one another on bytes.
pub inv_sub_byte-sub_byte : (x : ℕ) → x < 256 → (inv_sub_byte (sub_byte x) ≡ x) × (sub_byte x < 256)
inv_sub_byte-sub_byte x h = ground (
  arith,
  holds_below_at (λ y. (inv_sub_byte (sub_byte y) == y) && ltb (sub_byte y) 256) 256 x h
      sub_byte_table,
)

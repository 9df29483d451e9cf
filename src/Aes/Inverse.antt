-- ===== src/Aes/Inverse.antt =====
-- What `inv_mix_columns` of KluxOS/src/security/aes.c does to what `mix_columns` makes.
use klux_os.Base.{holds_below_at, not, arith, ◌||◌, ◌==◌, ◌≢◌, holds_below, refl, ℕ, ◌<◌, ◌≡◌, ap}
use klux_os.Aes.{
  true, inv_mix_column, Bool, inv_mix_columns, mix_columns, mix_column, Column, Block, xtime,
}

abbrev pub uniform : ℕ → Column
uniform x = record { r0 = x; r1 = x; r2 = x; r3 = x }

abbrev lost_at : ℕ → Bool
lost_at x = (x == 0) || not ((inv_mix_column (mix_column (uniform x))).r0 == x)

lost_table : holds_below lost_at 256 ≡ true
unfolding holds_below inv_mix_column mix_column xtime
lost_table = refl

-- The `inv_mix_columns` of the source is not an inverse of `mix_columns`: whatever the other three
-- columns hold, a block whose first column is four times the same byte, not 0, does not come back.
pub inv_mix_columns_loses :
    (x : ℕ) (d e f : Column)
    → x < 256
    → x ≢ 0
    → inv_mix_columns (mix_columns (record { c0 = uniform x; c1 = d; c2 = e; c3 = f }))
      ≢ record { c0 = uniform x; c1 = d; c2 = e; c3 = f }
unfolding inv_mix_columns mix_columns
inv_mix_columns_loses x d e f h nonzero same =
    ground (arith, holds_below_at lost_at 256 x h lost_table, ap (λ (s : Block). s.c0.r0) same)

-- ===== src/Base/Bytes.antt =====
-- Facts about small numbers, checked value by value.
use Prim.Native.Nat.{ℕ, zero, suc, ◌<◌}
use mathlib.Core.Path.{◌≡◌}
use mathlib.Core.Bool.{Bool, true, ◌&&◌}
use native.Mathlib.Omega.{arith}

-- The test passes at every number below the limit.
unfoldable pub holds_below : (ℕ → Bool) → ℕ → Bool
holds_below test zero = true
holds_below test (suc limit) = holds_below test limit && test limit

pub holds_below_at :
    (test : ℕ → Bool) (limit n : ℕ) → n < limit → holds_below test limit ≡ true → test n ≡ true
unfolding holds_below
holds_below_at test zero n below passed = elim below [ ]
holds_below_at test (suc limit) n below passed = ground (arith, holds_below_at test limit n)

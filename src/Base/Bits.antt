-- ===== src/Base/Bits.antt =====
-- Bit operations over small ranges, by evaluation of every value.
use Prim.Native.Nat.{ℕ, zero, suc, ◌+◌, ◌%◌, ◌<◌, bit_and, bit_or}
use mathlib.Core.Path.{◌≡◌, refl}
use mathlib.Core.Bool.{Bool, true, ◌&&◌}
use native.Mathlib.Omega.{arith}
use cow_rs.Base.Tests.{◌==◌, ==_iff}

-- The test holds of every number below the bound.
unfoldable pub holds_below : (ℕ → Bool) → ℕ → Bool
holds_below test zero = true
holds_below test (suc bound) = holds_below test bound && test bound

pub holds_below_lem :
    (test : ℕ → Bool) (bound x : ℕ) → x < bound → holds_below test bound ≡ true → test x ≡ true
unfolding holds_below
holds_below_lem test zero x inside all = absurd (omega arith)
holds_below_lem test (suc bound) x inside all =
    let below = holds_below_lem test bound x in ground arith

and_one_table : holds_below (λ x. bit_and x 1 == x % 2) 256 ≡ true
unfolding holds_below
and_one_table = refl

and_three_table : holds_below (λ x. bit_and x 3 == x % 4) 256 ≡ true
unfolding holds_below
and_three_table = refl

pub bit_and-one : (x : ℕ) → x < 256 → bit_and x 1 ≡ x % 2
bit_and-one x h = (==_iff _ _).0 (holds_below_lem _ 256 x h and_one_table)

pub bit_and_three : (x : ℕ) → x < 256 → bit_and x 3 ≡ x % 4
bit_and_three x h = (==_iff _ _).0 (holds_below_lem _ 256 x h and_three_table)

-- A mask above all set bits only adds itself.
abbrev adds : ℕ → ℕ → Bool
adds m x = bit_or x m == x + m

or_high_table :
    (holds_below (adds 0) 32 ≡ true)
    × (holds_below (adds 32) 32 ≡ true)
    × (holds_below (adds 64) 32 ≡ true)
    × (holds_below (adds 96) 32 ≡ true)
unfolding holds_below
or_high_table = (refl, refl, refl, refl)

pub bit_or_high :
    (x : ℕ)
    → x < 32
    → (bit_or x 0 ≡ x + 0)
      × (bit_or x 32 ≡ x + 32)
      × (bit_or x 64 ≡ x + 64)
      × (bit_or x 96 ≡ x + 96)
bit_or_high x h = (
  (==_iff _ _).0 (holds_below_lem _ 32 x h or_high_table.0),
  (==_iff _ _).0 (holds_below_lem _ 32 x h or_high_table.1),
  (==_iff _ _).0 (holds_below_lem _ 32 x h or_high_table.2),
  (==_iff _ _).0 (holds_below_lem _ 32 x h or_high_table.3),
)

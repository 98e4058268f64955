-- ===== src/Base/U256.antt =====
-- `alloy_primitives::U256`, whose source is not part of the repository. A value is a number below
-- 2 ^ 256. Comparison, division by a number other than zero and big-endian bytes are those of the
-- number; what `+`, `-` and `*` do beyond the range is a parameter.
use Prim.Native.Nat.{ℕ, ◌+◌, ◌-◌, ◌*◌, ◌/◌, ◌%◌, ◌^◌, ◌≤◌, ◌<◌}
use mathlib.Core.Path.{◌≡◌}
use native.Mathlib.Omega.{arith}
use native.Mathlib.Nat.{mod-eq_of_lt}

abbrev pub IsU256 : ℕ → Type 0
IsU256 n = n < 2 ^ 256

-- The operators, and their documented meaning where the exact result is in range.
pub record U256Ops : Type 0 where
  pub add : ℕ → ℕ → ℕ
  pub sub : ℕ → ℕ → ℕ
  pub mul : ℕ → ℕ → ℕ
  pub add_fits : (a b : ℕ) → IsU256 (a + b) → add a b ≡ a + b
  pub sub_fits : (a b : ℕ) → b ≤ a → IsU256 a → sub a b ≡ a - b
  pub mul_fits : (a b : ℕ) → IsU256 (a * b) → mul a b ≡ a * b

pub wrapping_sub_fits : (a b : ℕ) → b ≤ a → IsU256 a → (a + 2 ^ 256 - b) % 2 ^ 256 ≡ a - b
wrapping_sub_fits a b h k = omega arith

-- Operators that wrap satisfy the laws.
abbrev pub wrapping : U256Ops
wrapping = record {
  add = λ a b. (a + b) % 2 ^ 256;
  sub = λ a b. (a + 2 ^ 256 - b) % 2 ^ 256;
  mul = λ a b. a * b % 2 ^ 256;
  add_fits = λ a b h. mod-eq_of_lt h;
  sub_fits = wrapping_sub_fits;
  mul_fits = λ a b h. mod-eq_of_lt h;
}

pub mul_bound : (a b m n : ℕ) → a < m → b < n → a * b < m * n
mul_bound a b m n p q = grind arith

pub div_bounds : (n d : ℕ) → 0 < d → (n / d * d ≤ n) × (n < n / d * d + d)
div_bounds n d h = (grind arith, grind arith)

-- ===== src/Base/Float.antt =====
-- The operations on `f64` that the code uses. Models have no floating point, so the type and
-- its operations are a parameter.
use Prim.Native.Nat.{ℕ, ◌+◌, ◌*◌, ◌/◌}
use mathlib.Core.Bool.{Bool}
use cow_rs.Base.Tests.{leb}

pub record Float64 : Type 1 where
  pub F : Type 0
  pub zero : F
  pub le : F → F → Bool
  pub mul : F → F → F
  pub round : F → F
  pub from_int : ℕ → F
  pub to_u64 : F → ℕ

-- A fixed-point number with five decimal places has all of them.
abbrev pub fixed_point : Float64
fixed_point = record {
  F = ℕ;
  zero = 0;
  le = leb;
  mul = λ a b. a * b / 100_000;
  round = λ a. (a + 50_000) / 100_000 * 100_000;
  from_int = λ n. n * 100_000;
  to_u64 = λ a. a / 100_000;
}

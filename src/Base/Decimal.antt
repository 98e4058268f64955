-- ===== src/Base/Decimal.antt =====
-- `str::parse` of an unsigned integer, from the standard library: digits behind at most one `+`, and
-- no overflow.
use Prim.Native.Nat.{ℕ, ◌+◌, ◌-◌, ◌*◌, ◌<◌}
use mathlib.Core.Path.{◌≡◌}
use native.Mathlib.Omega.{arith}
use mathlib.Core.Bool.{Bool, ◌&&◌}
use mathlib.Core.Option.{Option, none, some}
use mathlib.Core.Logic.{inl, inr}
use mathlib.Core.List.{[], ◌∷◌}
use cow_rs.Base.Tests.{ltb, leb, ◌==◌, if◌then◌else◌, Bool-cases}
use cow_rs.Base.Hex.{Text}

abbrev pub is_digit : ℕ → Bool
is_digit c = leb b'0' c && leb c b'9'

-- The digits behind the number `acc`, below the bound.
abbrev pub digits_from : ℕ → ℕ → Text → Option ℕ
digits_from bound acc [] = some acc
digits_from bound acc (c ∷ cs) =
    let rest = digits_from bound (acc * 10 + (c - b'0')) cs in
    if is_digit c && ltb (acc * 10 + (c - b'0')) bound then rest else none

unfoldable pub parse_uint : ℕ → Text → Option ℕ
parse_uint bound [] = none
parse_uint bound (c ∷ []) = digits_from bound 0 (c ∷ [])
parse_uint bound (c ∷ d ∷ cs) =
    if c == b'+' then digits_from bound 0 (d ∷ cs) else digits_from bound 0 (c ∷ d ∷ cs)

digits_from-lt :
    (bound acc v : ℕ) (text : Text) → acc < bound → digits_from bound acc text ≡ some v → v < bound
digits_from-lt bound acc v [] h e = ground arith
digits_from-lt bound acc v (c ∷ cs) h e =
    let next : ℕ = acc * 10 + (c - b'0') in
    elim (Bool-cases (is_digit c && ltb next bound)) [
      | inl good ↦ digits_from-lt bound next v cs (ground arith) (ground arith)
      | inr bad ↦ ground arith
    ]

-- A number that is parsed is below the bound.
pub parse_uint-lt :
    (bound v : ℕ) (text : Text) → 0 < bound → parse_uint bound text ≡ some v → v < bound
unfolding parse_uint
parse_uint-lt bound v [] h e = cc
parse_uint-lt bound v (c ∷ []) h e = digits_from-lt bound 0 v (c ∷ []) h e
parse_uint-lt bound v (c ∷ d ∷ cs) h e = elim (Bool-cases (c == b'+')) [
  | inl plus ↦ digits_from-lt bound 0 v (d ∷ cs) h (ground arith)
  | inr plain ↦ digits_from-lt bound 0 v (c ∷ d ∷ cs) h (ground arith)
]

-- ===== src/Bridging/Fees/Rates.antt =====
-- A fee at a rate, up to the rounding, and the rate of a fee.
use native.Mathlib.Nat.{le_of_mul-le-mul_right, lt_of_mul-lt-mul_right}
use cow_rs.Base.{ℕ, ◌+◌, ◌-◌, ◌*◌, ◌/◌, ◌%◌, ◌^◌, ◌<◌, ◌≤◌, ◌≡◌, ap, sym, ◌∙◌, some, arith}
use cow_rs.Base.U256.{U256Ops, IsU256, div_bounds}
use cow_rs.Bridging.{ok}
use cow_rs.Bridging.Fees.{calculate_fee_bps}

-- A fee at a rate of parts of `whole`, rounded up.
pub record IsFeeAt (rate whole amount fee : ℕ) : Type 0 where
  pub covers : amount * rate ≤ fee * whole
  pub least : fee * whole < amount * rate + whole

distrib : (x p r : ℕ) → x * (p + r) ≡ x * p + x * r
distrib x p r = grind arith

distrib_right : (x y w : ℕ) → (x + y) * w ≡ x * w + y * w
distrib_right x y w = grind arith

pub left-IsFeeAt :
    (whole x p : ℕ) → 0 < whole → p ≤ whole → IsFeeAt p whole x (x - x * (whole - p) / whole)
left-IsFeeAt whole x p some_whole h =
    let r : ℕ = whole - p in
    let all : p + r ≡ whole = omega arith in
    let split : x * whole ≡ x * p + x * r = ap (λ (w : ℕ). x * w) (sym all) ∙ distrib x p r in
    let q : ℕ = x * r / whole in
    let (low, high) = div_bounds (x * r) whole some_whole in
    let fee : ℕ = x - q in
    let small : q ≤ x = le_of_mul-le-mul_right (omega arith) some_whole in
    let back : x * whole ≡ fee * whole + q * whole =
      ap (λ (y : ℕ). y * whole) (omega arith) ∙ distrib_right fee q whole in
    record { covers = omega arith; least = omega arith }

-- The rate of a fee in basis points, to the nearest.
pub record IsNearest (fee amount bps : ℕ) : Type 0 where
  pub whole : bps ≤ 10_000
  pub low : 2 * (bps * amount) ≤ 2 * (fee * 10_000) + amount
  pub high : 2 * (fee * 10_000) ≤ 2 * (bps * amount) + amount

module _ (u : U256Ops) where
  pub calculate_fee_bps-IsNearest :
      (fee amount : ℕ)
      → 0 < amount
      → fee ≤ amount
      → IsU256 (amount * 10_000 + amount)
      → (bps : ℕ) × (calculate_fee_bps u fee amount ≡ some (ok bps)) × IsNearest fee amount bps
  unfolding calculate_fee_bps
  calculate_fee_bps-IsNearest fee amount positive le fits =
      let n : ℕ = fee * 10_000 + amount / 2 in
      let product = u.mul_fits fee 10_000 (omega arith) in
      let total = u.add_fits (fee * 10_000) (amount / 2) (omega arith) in
      let bps : ℕ = n / amount in
      let (low, high) = div_bounds n amount positive in
      let below : bps * amount < 10_001 * amount = omega arith in
      let smaller : bps < 10_001 = lt_of_mul-lt-mul_right amount below in
      let whole : bps ≤ 10_000 = omega arith in
      let same : bps % 2 ^ 32 ≡ bps = omega arith in
      (
        bps,
        rw (product, total) (ground (arith, same)),
        record { whole = whole; low = omega arith; high = omega arith },
      )

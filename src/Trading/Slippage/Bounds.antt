-- ===== src/Trading/Slippage/Bounds.antt =====
-- The suggested slippage stays in its bounds, and its exact value for moderate amounts.
use cow_rs.Base.{ℕ, ◌/◌, ◌≤◌, min, max, ◌==◌, if◌then◌else◌, arith}
use cow_rs.Base.U256.{U256Ops}
use cow_rs.Trading.Costs.{QuoteAmountsAndCosts}
use cow_rs.Trading.Slippage.{max_slippage_bps, u64_or, suggest_slippage_bps}

clamped :
    (u : U256Ops) (before total min_bps : ℕ)
    → (min_bps ≤ (
        if before == 0
        then min_bps
        else max
            (min (u64_or max_slippage_bps (u.mul total 10_000 / before)) max_slippage_bps)
            min_bps))
      × ((if before == 0
            then min_bps
            else max
                (min (u64_or max_slippage_bps (u.mul total 10_000 / before)) max_slippage_bps)
                min_bps)
          ≤ max max_slippage_bps min_bps)
clamped u before total min_bps = ground arith

-- Whatever the amounts and however the operators overflow, the suggestion is at least the minimum
-- and at most 10,000 basis points or the minimum, whichever is larger.
pub suggest_slippage_bps-bounds :
    (u : U256Ops) (costs : QuoteAmountsAndCosts) (fee_factor_pct volume_bps min_bps : ℕ)
    → (min_bps ≤ suggest_slippage_bps u costs fee_factor_pct volume_bps min_bps)
      × (suggest_slippage_bps u costs fee_factor_pct volume_bps min_bps
          ≤ max max_slippage_bps min_bps)
unfolding suggest_slippage_bps
suggest_slippage_bps-bounds u costs fee_factor_pct volume_bps min_bps =
    clamped u costs.before_network_costs.sell_amount _ min_bps

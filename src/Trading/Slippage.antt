-- ===== src/Trading/Slippage.antt =====
-- crates/trading/src/slippage.rs, the suggested slippage.
pub mod Bounds
use cow_rs.Base.{ℕ, ◌*◌, ◌/◌, ◌^◌, min, max, Bool, ◌==◌, leb, if◌then◌else◌}
use cow_rs.Base.U256.{U256Ops}
use cow_rs.Trading.Costs.{QuoteAmountsAndCosts}

abbrev pub max_slippage_bps : ℕ
max_slippage_bps = 10_000

-- `try_into::<u64>()`, with what stands for a value that does not fit.
abbrev pub u64_or : ℕ → ℕ → ℕ
u64_or d n = if leb (2 ^ 64) n then d else n

module _ (u : U256Ops) where
  unfoldable pub suggest_slippage_from_fee : ℕ → ℕ → ℕ
  suggest_slippage_from_fee fee_amount multiply_factor_pct =
      u.mul fee_amount multiply_factor_pct / 100

  unfoldable pub suggest_slippage_from_volume : ℕ → ℕ → Bool → ℕ → ℕ
  suggest_slippage_from_volume sell_before sell_after sells volume_bps =
      let base = if sells then sell_after else sell_before in
      if base == 0 then 0 else u.mul base volume_bps / 10_000

  unfoldable pub suggest_slippage_bps : QuoteAmountsAndCosts → ℕ → ℕ → ℕ → ℕ
  suggest_slippage_bps costs fee_factor_pct volume_bps min_bps =
      let sell_before = costs.before_network_costs.sell_amount in
      let sell_after = costs.after_network_costs.sell_amount in
      let fee = costs.network_fee.amount_in_sell_currency in
      let total =
        u.add (suggest_slippage_from_fee fee fee_factor_pct)
          (suggest_slippage_from_volume sell_before sell_after costs.sells volume_bps) in
      if sell_before == 0
      then min_bps
      else max (min (u64_or max_slippage_bps (u.mul total 10_000 / sell_before)) max_slippage_bps)
          min_bps

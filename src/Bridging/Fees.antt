-- ===== src/Bridging/Fees.antt =====
-- crates/bridging/src/utils.rs and across.rs: percentages of amounts, and the amounts and costs of an
-- Across quote.
pub mod Rates
pub mod Accounts
use cow_rs.Base.{
  ℕ, ◌+◌, ◌-◌, ◌*◌, ◌/◌, ◌%◌, ◌^◌, ltb, ◌==◌, Bool, if◌then◌else◌, Option, none, some, min,
}
use cow_rs.Base.Decimal.{parse_uint}
use cow_rs.Base.Hex.{Text}
use cow_rs.Base.U256.{U256Ops}
use cow_rs.Types.{is_sell}
use cow_rs.Bridging.{
  BridgeStatus, in_progress, executed, refund, quote_error, Checked, ok, err, ◌>>=◌,
  QuoteBridgeRequest, BridgeAmounts, BridgingFee, BridgeQuoteAmountsAndCosts,
}

-- 100 % in the format of Across.
abbrev pub pct_100_percent : ℕ
pct_100_percent = 10 ^ 18

pub record AcrossPctFee : Type 0 where
  pub pct : Text
  pub total : Text

pub record AcrossSuggestedFeesLimits : Type 0 where
  pub min_deposit : Text
  pub max_deposit : Text
  pub max_deposit_instant : Text
  pub max_deposit_short_delay : Text
  pub recommended_deposit_instant : Text

pub record AcrossSuggestedFeesResponse : Type 0 where
  pub total_relay_fee : AcrossPctFee
  pub relayer_capital_fee : AcrossPctFee
  pub relayer_gas_fee : AcrossPctFee
  pub lp_fee : AcrossPctFee
  pub timestamp : Text
  pub is_amount_too_low : Bool
  pub quote_block : Text
  pub spoke_pool_address : Text
  pub exclusive_relayer : Text
  pub exclusivity_deadline : Text
  pub estimated_fill_time_sec : Text
  pub fill_deadline : Text
  pub limits : AcrossSuggestedFeesLimits

pub data AcrossDepositStatus : Type 0 where
  filled slow_fill_requested pending expired refunded : AcrossDepositStatus

unfoldable pub map_across_status_to_bridge_status : AcrossDepositStatus → BridgeStatus
map_across_status_to_bridge_status filled = executed
map_across_status_to_bridge_status slow_fill_requested = executed
map_across_status_to_bridge_status pending = in_progress
map_across_status_to_bridge_status expired = BridgeStatus.expired
map_across_status_to_bridge_status refunded = refund

pub record BridgeFees : Type 0 where
  pub bridge_fee : ℕ
  pub destination_gas_fee : ℕ

pub record BridgeLimits : Type 0 where
  pub min_deposit : ℕ
  pub max_deposit : ℕ

pub record BridgeQuoteResult : Type 0 where
  pub id : Option Text
  pub signature : Option Text
  pub attestation_signature : Option Text
  pub quote_body : Option Text
  pub is_sell : Bool
  pub amounts_and_costs : BridgeQuoteAmountsAndCosts
  pub expected_fill_time_seconds : Option ℕ
  pub quote_timestamp : ℕ
  pub fees : BridgeFees
  pub limits : BridgeLimits

unfoldable pub pct_to_bps : ℕ → Checked ℕ
pct_to_bps pct =
    if ltb pct_100_percent pct
    then err (quote_error "fee cannot exceed 100%")
    else ok (pct * 10_000 / pct_100_percent % 2 ^ 32)

-- `saturating_add` of `u64`.
unfoldable pub calculate_deadline : ℕ → ℕ → ℕ
calculate_deadline now_secs duration_secs = min (now_secs + duration_secs) (2 ^ 64 - 1)

-- `map_err` of a failed parse.
abbrev pub or_invalid : Option ℕ → Checked ℕ
or_invalid none = err (quote_error "invalid totalRelayFee.pct")
or_invalid (some pct) = ok pct

-- `map_or(default, …)` of a parse.
abbrev pub value_or : ℕ → Option ℕ → ℕ
value_or default none = default
value_or default (some v) = v

module _ (u : U256Ops) where
  -- `10_000u32 - bps` wraps in a release build.
  unfoldable pub apply_bps : ℕ → ℕ → ℕ
  apply_bps amount bps = u.mul amount ((10_000 + 2 ^ 32 - bps) % 2 ^ 32) / 10_000

  unfoldable pub apply_pct_fee : ℕ → ℕ → Checked ℕ
  apply_pct_fee amount pct =
      if ltb pct_100_percent pct
      then err (quote_error "fee cannot exceed 100%")
      else ok (u.mul amount (pct_100_percent - pct) / pct_100_percent)

  -- `to::<u64>` panics on a larger number.
  abbrev pub narrow : ℕ → Option (Checked ℕ)
  narrow bps = if ltb bps (2 ^ 64) then some (ok (bps % 2 ^ 32)) else none

  unfoldable pub calculate_fee_bps : ℕ → ℕ → Option (Checked ℕ)
  calculate_fee_bps fee_amount amount =
      if amount == 0
      then some (err (quote_error "denominator is zero"))
      else if ltb amount fee_amount
      then some (err (quote_error "fee amount is greater than amount"))
      else narrow (u.add (u.mul fee_amount 10_000) (amount / 2) / amount)

  -- `pow` is that of `U256`. A power that wraps to zero, from 256 decimals on, divides to zero here and
  -- panics in the code.
  module _ (pow : ℕ → ℕ → ℕ) where
    abbrev pub buy_amount_of : QuoteBridgeRequest → ℕ
    buy_amount_of req =
        u.mul req.sell_amount (pow 10 req.buy_token_decimals) / pow 10 req.sell_token_decimals

    unfoldable pub to_amounts_and_costs :
        QuoteBridgeRequest → ℕ → AcrossSuggestedFeesResponse → Checked BridgeQuoteAmountsAndCosts
    to_amounts_and_costs req slippage_bps fees = do
      pct ← or_invalid (parse_uint (2 ^ 128) fees.total_relay_fee.pct)
      buy_amount_after_fee ← apply_pct_fee (buy_amount_of req) pct
      sell_amount_after_fee ← apply_pct_fee req.sell_amount pct
      fee_bps ← pct_to_bps pct
      ok (record {
        before_fee = record { sell_amount = req.sell_amount; buy_amount = buy_amount_of req };
        after_fee = record { sell_amount = req.sell_amount; buy_amount = buy_amount_after_fee };
        after_slippage = record {
          sell_amount = req.sell_amount;
          buy_amount = apply_bps buy_amount_after_fee slippage_bps;
        };
        bridging_fee = record {
          fee_bps = fee_bps;
          amount_in_sell_currency = u.sub req.sell_amount sell_amount_after_fee;
          amount_in_buy_currency = u.sub (buy_amount_of req) buy_amount_after_fee;
        };
        slippage_bps = slippage_bps;
      })

    -- `serde_json::to_string` of the fees is a parameter.
    unfoldable pub to_bridge_quote_result :
        (AcrossSuggestedFeesResponse → Option Text)
        → QuoteBridgeRequest
        → ℕ
        → AcrossSuggestedFeesResponse
        → Checked BridgeQuoteResult
    to_bridge_quote_result to_string req slippage_bps fees = do
      amounts_and_costs ← to_amounts_and_costs req slippage_bps fees
      ok (record {
        id = none;
        signature = none;
        attestation_signature = none;
        quote_body = to_string fees;
        is_sell = is_sell req.kind;
        amounts_and_costs = amounts_and_costs;
        expected_fill_time_seconds = parse_uint (2 ^ 64) fees.estimated_fill_time_sec;
        quote_timestamp = value_or 0 (parse_uint (2 ^ 64) fees.timestamp);
        fees = record {
          bridge_fee = value_or 0 (parse_uint (2 ^ 128) fees.relayer_capital_fee.total);
          destination_gas_fee = value_or 0 (parse_uint (2 ^ 128) fees.relayer_gas_fee.total);
        };
        limits = record {
          min_deposit = value_or 0 (parse_uint (2 ^ 128) fees.limits.min_deposit);
          max_deposit = value_or 0 (parse_uint (2 ^ 128) fees.limits.max_deposit);
        };
      })

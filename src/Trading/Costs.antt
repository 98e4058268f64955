-- ===== src/Trading/Costs.antt =====
-- crates/trading/src/costs.rs, and the cost types of crates/trading/src/types.rs.
pub mod Bounds
use cow_rs.Base.{
  ℕ, ◌+◌, ◌-◌, ◌*◌, ◌/◌, ◌%◌, ◌^◌, min, Bool, ◌==◌, if◌then◌else◌, Option, Result, ok, err, ◌>>=◌,
  api, or_fail,
}
use cow_rs.Base.Hex.{Text}
use cow_rs.Base.U256.{U256Ops}
use cow_rs.Types.{OrderKind, is_sell}

pub record Amounts : Type 0 where
  pub sell_amount : ℕ
  pub buy_amount : ℕ

pub record NetworkFee : Type 0 where
  pub amount_in_sell_currency : ℕ
  pub amount_in_buy_currency : ℕ

-- Of a partner or of the protocol.
pub record FeeCost : Type 0 where
  pub amount : ℕ
  pub bps : ℕ

abbrev pub no_fee : FeeCost
no_fee = record { amount = 0; bps = 0 }

pub record QuoteAmountsAndCosts : Type 0 where
  pub sells : Bool
  pub before_all_fees : Amounts
  pub before_network_costs : Amounts
  pub after_network_costs : Amounts
  pub after_partner_fees : Amounts
  pub after_slippage : Amounts
  pub network_fee : NetworkFee
  pub partner_fee : FeeCost
  pub protocol_fee : FeeCost

-- The fields of `OrderQuoteResponse` that the computation reads.
pub record QuoteData : Type 0 where
  pub kind : OrderKind
  pub sell_amount : Text
  pub buy_amount : Text
  pub fee_amount : Text

abbrev pub amounts : ℕ → ℕ → Amounts
amounts s b = record { sell_amount = s; buy_amount = b }

-- `saturating_sub` and `saturating_add`.
unfoldable pub max_slippage_atoms : QuoteAmountsAndCosts → ℕ
max_slippage_atoms c = c.after_partner_fees.buy_amount - c.after_slippage.buy_amount

unfoldable pub total_fees_atoms : QuoteAmountsAndCosts → ℕ
total_fees_atoms c =
    min
      (min (c.network_fee.amount_in_sell_currency + c.partner_fee.amount) (2 ^ 256 - 1)
        + c.protocol_fee.amount)
      (2 ^ 256 - 1)

module _ (u : U256Ops) where
  -- `10_000u32 - slippage_bps` wraps in a release build.
  unfoldable pub apply_slippage_sell : ℕ → ℕ → ℕ
  apply_slippage_sell buy_amount slippage_bps =
      u.mul buy_amount ((10_000 + 2 ^ 32 - slippage_bps) % 2 ^ 32) / 10_000

  unfoldable pub apply_slippage_buy : ℕ → ℕ → ℕ
  apply_slippage_buy sell_amount slippage_bps =
      u.mul sell_amount ((10_000 + slippage_bps) % 2 ^ 32) / 10_000

  -- The computation behind the three parses.
  unfoldable pub costs_of : Bool → ℕ → ℕ → ℕ → ℕ → QuoteAmountsAndCosts
  costs_of sells sell_amount buy_amount fee_amount slippage_bps =
      let gross_sell = if sells then u.add sell_amount fee_amount else sell_amount in
      let before = amounts gross_sell buy_amount in
      let after = amounts sell_amount buy_amount in
      record {
        sells = sells;
        before_all_fees = before;
        before_network_costs = before;
        after_network_costs = after;
        after_partner_fees = after;
        after_slippage =
            if sells
            then amounts sell_amount (apply_slippage_sell buy_amount slippage_bps)
            else amounts (apply_slippage_buy sell_amount slippage_bps) buy_amount;
        network_fee = record {
          amount_in_sell_currency = fee_amount;
          amount_in_buy_currency =
              if gross_sell == 0 then 0 else u.mul fee_amount buy_amount / gross_sell;
        };
        partner_fee = no_fee;
        protocol_fee = no_fee;
      }

  -- `parse` is that of `alloy_primitives::U256`.
  unfoldable pub compute_quote_amounts_and_costs :
      (Text → Option ℕ) → QuoteData → ℕ → Result QuoteAmountsAndCosts
  compute_quote_amounts_and_costs parse quote slippage_bps = do
    sell_amount ← or_fail (parse quote.sell_amount) (api 0 "invalid sellAmount")
    buy_amount ← or_fail (parse quote.buy_amount) (api 0 "invalid buyAmount")
    fee_amount ← or_fail (parse quote.fee_amount) (api 0 "invalid feeAmount")
    ok (costs_of (is_sell quote.kind) sell_amount buy_amount fee_amount slippage_bps)

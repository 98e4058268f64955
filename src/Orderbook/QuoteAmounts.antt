-- ===== src/Orderbook/QuoteAmounts.antt =====
-- crates/orderbook/src/quote_amounts.rs: the amounts of a quote at each fee stage.
pub mod Exact
pub mod Accounts
mod Tests
use cow_rs.Base.{
  ℕ, ◌+◌, ◌*◌, ◌/◌, ◌<◌, ◌≡◌, Bool, true, false, ltb, ◌==◌, if◌then◌else◌, Option, none, some,
}
use cow_rs.Base.Panics.{◌>>=◌, checked_div}
use cow_rs.Base.U256.{U256Ops}
use cow_rs.Base.Float.{Float64}
use cow_rs.Types.{OrderKind, is_sell}

pub record QuoteAmounts : Type 0 where
  pub sell_amount : ℕ
  pub buy_amount : ℕ

pub record QuoteNetworkFee : Type 0 where
  pub amount_in_sell_currency : ℕ
  pub amount_in_buy_currency : ℕ

pub record QuoteFeeComponent (F : Type 0) : Type 0 where
  pub amount : ℕ
  pub bps : F

pub record QuoteCosts (F : Type 0) : Type 0 where
  pub network_fee : QuoteNetworkFee
  pub partner_fee : QuoteFeeComponent F
  pub protocol_fee : QuoteFeeComponent F

pub record QuoteAmountsAndCostsResult (F : Type 0) : Type 0 where
  pub sells : Bool
  pub costs : QuoteCosts F
  pub before_all_fees : QuoteAmounts
  pub before_network_costs : QuoteAmounts
  pub after_protocol_fees : QuoteAmounts
  pub after_network_costs : QuoteAmounts
  pub after_partner_fees : QuoteAmounts
  pub after_slippage : QuoteAmounts
  pub amounts_to_sign : QuoteAmounts

pub record QuoteOrderParams : Type 0 where
  pub kind : OrderKind
  pub sell_amount : ℕ
  pub buy_amount : ℕ
  pub fee_amount : ℕ

pub record QuoteAmountsAndCostsParams (F : Type 0) : Type 0 where
  pub order_params : QuoteOrderParams
  pub protocol_fee_bps : Option F
  pub partner_fee_bps : Option ℕ
  pub slippage_percent_bps : ℕ

pub record PartnerFeeResult : Type 0 where
  pub partner_fee_amount : ℕ
  pub amounts : QuoteAmounts

abbrev pub hundred_thousands : ℕ
hundred_thousands = 100_000

abbrev pub one_hundred_bps : ℕ
one_hundred_bps = 10_000

abbrev pub amounts : ℕ → ℕ → QuoteAmounts
amounts sell buy = record { sell_amount = sell; buy_amount = buy }

-- `o.map_or(d, |v| v)`
abbrev pub map_or {ℓ} : {A : Type ℓ} → A → Option A → A
map_or d none = d
map_or d (some a) = a

-- The rate with five decimal places of a basis point, as an integer.
unfoldable pub scaled_bps : (fl : Float64) → fl.F → ℕ
scaled_bps fl bps = fl.to_u64 (fl.round (fl.mul bps (fl.from_int hundred_thousands)))

module _ (u : U256Ops) where
  -- The part of `get_protocol_fee_amount` behind its two guards.
  unfoldable pub reversed_fee : QuoteOrderParams → ℕ → Option ℕ
  reversed_fee o bps =
      if is_sell o.kind
      then checked_div (u.mul o.buy_amount bps)
          (u.sub (u.mul one_hundred_bps hundred_thousands) bps)
      else checked_div (u.mul (u.add o.sell_amount o.fee_amount) bps)
          (u.add (u.mul one_hundred_bps hundred_thousands) bps)

  pub get_protocol_fee_amount : (fl : Float64) → QuoteOrderParams → fl.F → Option ℕ
  get_protocol_fee_amount fl o bps =
      if fl.le bps fl.zero
      then some 0
      else if scaled_bps fl bps == 0
      then some 0
      else reversed_fee o (scaled_bps fl bps)

  pub partner_fee_of : QuoteAmounts → Bool → ℕ → ℕ
  partner_fee_of before_all_fees sells bps =
      let surplus = if sells then before_all_fees.buy_amount else before_all_fees.sell_amount in
      if ltb 0 bps then u.mul surplus bps / one_hundred_bps else 0

  pub get_quote_amounts_after_partner_fee :
      QuoteAmounts → QuoteAmounts → Bool → ℕ → PartnerFeeResult
  get_quote_amounts_after_partner_fee after_network_costs before_all_fees sells bps =
      let fee = partner_fee_of before_all_fees sells bps in
      record {
        partner_fee_amount = fee;
        amounts =
            if sells
            then amounts after_network_costs.sell_amount (u.sub after_network_costs.buy_amount fee)
            else amounts (u.add after_network_costs.sell_amount fee) after_network_costs.buy_amount;
      }

  pub get_quote_amounts_after_slippage : QuoteAmounts → Bool → ℕ → QuoteAmounts
  get_quote_amounts_after_slippage a sells bps =
      let slippage = λ (amount : ℕ). u.mul amount bps / one_hundred_bps in
      if sells
      then amounts a.sell_amount (u.sub a.buy_amount (slippage a.buy_amount))
      else amounts (u.add a.sell_amount (slippage a.sell_amount)) a.buy_amount

  pub network_cost_in_buy : QuoteOrderParams → ℕ
  network_cost_in_buy o =
      if o.sell_amount == 0 then 0 else u.mul o.buy_amount o.fee_amount / o.sell_amount

  -- Stages 0, 1 and 2.
  pub before_all : QuoteOrderParams → ℕ → QuoteAmounts
  before_all o fee =
      if is_sell o.kind
      then amounts (u.add o.sell_amount o.fee_amount)
          (u.add (u.add o.buy_amount (network_cost_in_buy o)) fee)
      else amounts (u.sub o.sell_amount fee) o.buy_amount

  pub after_protocol : QuoteOrderParams → ℕ → QuoteAmounts
  after_protocol o fee =
      if is_sell o.kind
      then amounts (before_all o fee).sell_amount (u.sub (before_all o fee).buy_amount fee)
      else amounts o.sell_amount (before_all o fee).buy_amount

  pub after_network : QuoteOrderParams → ℕ → QuoteAmounts
  after_network o fee =
      if is_sell o.kind
      then amounts o.sell_amount o.buy_amount
      else amounts (u.add o.sell_amount o.fee_amount) (after_protocol o fee).buy_amount

  -- All stages, with the protocol fee and the rates at hand.
  pub stages :
      (fl : Float64) → QuoteOrderParams → ℕ → fl.F → ℕ → ℕ → QuoteAmountsAndCostsResult fl.F
  stages fl o protocol_fee_amount protocol_fee partner_fee slippage_bps =
      let before = before_all o protocol_fee_amount in
      let protocol = after_protocol o protocol_fee_amount in
      let network = after_network o protocol_fee_amount in
      let partner =
        get_quote_amounts_after_partner_fee network before (is_sell o.kind) partner_fee in
      let slipped =
        get_quote_amounts_after_slippage partner.amounts (is_sell o.kind) slippage_bps in
      record {
        sells = is_sell o.kind;
        costs = record {
          network_fee = record {
            amount_in_sell_currency = o.fee_amount;
            amount_in_buy_currency = network_cost_in_buy o;
          };
          partner_fee = record {
            amount = partner.partner_fee_amount;
            bps = fl.from_int partner_fee;
          };
          protocol_fee = record { amount = protocol_fee_amount; bps = protocol_fee };
        };
        before_all_fees = before;
        before_network_costs = protocol;
        after_protocol_fees = protocol;
        after_network_costs = network;
        after_partner_fees = partner.amounts;
        after_slippage = slipped;
        amounts_to_sign =
            if is_sell o.kind
            then amounts before.sell_amount slipped.buy_amount
            else amounts slipped.sell_amount before.buy_amount;
      }

  pub get_quote_amounts_and_costs :
      (fl : Float64) → QuoteAmountsAndCostsParams fl.F → Option (QuoteAmountsAndCostsResult fl.F)
  get_quote_amounts_and_costs fl p = do
    let partner_fee = map_or 0 p.partner_fee_bps
    let protocol_fee = map_or fl.zero p.protocol_fee_bps
    protocol_fee_amount ← get_protocol_fee_amount fl p.order_params protocol_fee
    some (
        stages fl p.order_params protocol_fee_amount protocol_fee partner_fee
          p.slippage_percent_bps)

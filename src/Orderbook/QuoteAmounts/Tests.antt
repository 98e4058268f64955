-- ===== src/Orderbook/QuoteAmounts/Tests.antt =====
-- The quote functions at concrete quotes.
use cow_rs.Base.{ℕ, ◌≡◌, refl, some, arith}
use cow_rs.Base.U256.{wrapping}
use cow_rs.Base.Float.{fixed_point}
use cow_rs.Types.{sell, buy}
use cow_rs.Orderbook.QuoteAmounts.{
  QuoteOrderParams, QuoteAmountsAndCostsParams, QuoteAmountsAndCostsResult, get_protocol_fee_amount,
  scaled_bps, reversed_fee, partner_fee_of, before_all, network_cost_in_buy,
  get_quote_amounts_and_costs,
}
use cow_rs.Orderbook.QuoteAmounts.Exact.{IsFeeAtRate, get_protocol_fee_amount-IsFeeAtRate}
use cow_rs.Orderbook.QuoteAmounts.Accounts.{
  SellAccounts, BuyAccounts, get_quote_amounts_and_costs-SellAccounts,
  get_quote_amounts_and_costs-BuyAccounts,
}

abbrev sale : QuoteOrderParams
sale = record { kind = sell; sell_amount = 1_000_000; buy_amount = 500_000; fee_amount = 2_000 }

abbrev purchase : QuoteOrderParams
purchase = record { kind = buy; sell_amount = 1_000_000; buy_amount = 500_000; fee_amount = 2_000 }

-- A protocol fee of 20 basis points, a partner fee of 100, a slippage of 50.
abbrev quote : QuoteOrderParams → QuoteAmountsAndCostsParams ℕ
quote o = record {
  order_params = o;
  protocol_fee_bps = some 2_000_000;
  partner_fee_bps = some 100;
  slippage_percent_bps = 50;
}

sale_fee : get_protocol_fee_amount wrapping fixed_point sale 2_000_000 ≡ some 1_002
unfolding get_protocol_fee_amount scaled_bps reversed_fee
sale_fee = refl

purchase_fee : get_protocol_fee_amount wrapping fixed_point purchase 2_000_000 ≡ some 2_000
unfolding get_protocol_fee_amount scaled_bps reversed_fee
purchase_fee = refl

get_protocol_fee_amount-IsFeeAtRate_example :
    (fee : ℕ) × (get_protocol_fee_amount wrapping fixed_point sale 2_000_000 ≡ some fee)
    × IsFeeAtRate sale (scaled_bps fixed_point 2_000_000) fee
unfolding scaled_bps
get_protocol_fee_amount-IsFeeAtRate_example =
    get_protocol_fee_amount-IsFeeAtRate wrapping fixed_point sale 2_000_000 (omega arith)
      (omega arith) refl

get_quote_amounts_and_costs-SellAccounts_example :
    (r : QuoteAmountsAndCostsResult ℕ) × (get_quote_amounts_and_costs wrapping fixed_point
        (quote sale)
      ≡ some r)
    × SellAccounts sale r
unfolding scaled_bps partner_fee_of before_all network_cost_in_buy
get_quote_amounts_and_costs-SellAccounts_example =
    get_quote_amounts_and_costs-SellAccounts wrapping fixed_point (quote sale) 1_002 (omega arith)
      refl sale_fee (omega arith)

get_quote_amounts_and_costs-BuyAccounts_example :
    (r : QuoteAmountsAndCostsResult ℕ) × (get_quote_amounts_and_costs wrapping fixed_point
        (quote purchase)
      ≡ some r)
    × BuyAccounts purchase r
unfolding scaled_bps
get_quote_amounts_and_costs-BuyAccounts_example =
    get_quote_amounts_and_costs-BuyAccounts wrapping fixed_point (quote purchase) 2_000
      (omega arith) refl purchase_fee (omega arith)

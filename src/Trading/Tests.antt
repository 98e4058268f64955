-- ===== src/Trading/Tests.antt =====
-- The costs of a quote of 1,000,000 for 500,000 with a fee of 2,000.
use cow_rs.Base.{ℕ, ◌≤◌, ◌≡◌, refl, max, true, Option, some, [], ◌∷◌, ok, arith}
use cow_rs.Base.Hex.{Text}
use cow_rs.Base.U256.{wrapping}
use cow_rs.Types.{sell, OrderKind}
use cow_rs.Trading.Costs.{
  QuoteAmountsAndCosts, QuoteData, compute_quote_amounts_and_costs, costs_of,
}
use cow_rs.Trading.Costs.Bounds.{SellCosts, compute_quote-SellCosts}
use cow_rs.Trading.Slippage.{suggest_slippage_bps, max_slippage_bps}
use cow_rs.Trading.Slippage.Bounds.{suggest_slippage_bps-bounds}

-- Texts of one code point, which is the number.
abbrev parse : Text → Option ℕ
parse [] = some 0
parse (c ∷ rest) = some c

abbrev quote : OrderKind → QuoteData
quote kind = record {
  kind = kind;
  sell_amount = 1_000_000 ∷ [];
  buy_amount = 500_000 ∷ [];
  fee_amount = 2_000 ∷ [];
}

abbrev costs : QuoteAmountsAndCosts
costs = costs_of wrapping true 1_000_000 500_000 2_000 50

compute_quote-SellCosts_example :
    (c : QuoteAmountsAndCosts) × (compute_quote_amounts_and_costs wrapping parse (quote sell) 50
      ≡ ok c)
    × SellCosts c 1_000_000 500_000 2_000 50
compute_quote-SellCosts_example =
    compute_quote-SellCosts wrapping parse (quote sell) 50 1_000_000 500_000 2_000 refl refl refl
      refl (omega arith) (omega arith) (omega arith) (omega arith)

suggested : suggest_slippage_bps wrapping costs 50 50 0 ≡ 59
unfolding suggest_slippage_bps costs_of cow_rs.Trading.Slippage.suggest_slippage_from_fee
    cow_rs.Trading.Slippage.suggest_slippage_from_volume
suggested = refl

suggest_slippage_bps-bounds_example :
    (20 ≤ suggest_slippage_bps wrapping costs 50 50 20)
    × (suggest_slippage_bps wrapping costs 50 50 20 ≤ max max_slippage_bps 20)
suggest_slippage_bps-bounds_example = suggest_slippage_bps-bounds wrapping costs 50 50 20

-- ===== src/Trading/Costs/Bounds.antt =====
-- The costs of a quote for moderate amounts.
use native.Mathlib.Nat.{mul-le-mul_left, div-mul-le_self, mul_comm, lt-mul-div-succ}
use cow_rs.Base.{
  ℕ, zero, suc, ◌+◌, ◌-◌, ◌*◌, ◌/◌, ◌%◌, ◌^◌, ◌≤◌, ◌<◌, ◌≡◌, refl, true, false, ◌==◌, if◌then◌else◌,
  arith, Option, some, ok,
}
use cow_rs.Base.Hex.{Text}
use cow_rs.Base.U256.{U256Ops, mul_bound}
use cow_rs.Types.{is_sell}
use cow_rs.Trading.Costs.{
  QuoteAmountsAndCosts, QuoteData, amounts, no_fee, apply_slippage_sell, apply_slippage_buy,
  costs_of, compute_quote_amounts_and_costs,
}

-- `q` is the largest number with `q * d ≤ n`.
abbrev pub IsQuotient : ℕ → ℕ → ℕ → Type 0
IsQuotient n d q = (q * d ≤ n) × (n < (q + 1) * d)

-- The same, and nothing of nothing.
abbrev pub IsShare : ℕ → ℕ → ℕ → Type 0
IsShare n zero q = q ≡ 0
IsShare n (suc d) q = IsQuotient n (suc d) q

-- The accounts of a sell order for `sell` atoms and a fee, which buys `buy` atoms.
pub record SellCosts (c : QuoteAmountsAndCosts) (sell buy fee slippage_bps : ℕ) : Type 0 where
  pub before_all : c.before_all_fees ≡ amounts (sell + fee) buy
  pub before_network : c.before_network_costs ≡ amounts (sell + fee) buy
  pub after_network : c.after_network_costs ≡ amounts sell buy
  pub after_partner : c.after_partner_fees ≡ amounts sell buy
  pub sells_the_same : c.after_slippage.sell_amount ≡ sell
  pub tolerated : IsQuotient (buy * (10_000 - slippage_bps)) 10_000 c.after_slippage.buy_amount
  pub fee_in_sell : c.network_fee.amount_in_sell_currency ≡ fee
  pub fee_in_buy : IsShare (fee * buy) (sell + fee) c.network_fee.amount_in_buy_currency
  pub no_other_fees : (c.partner_fee ≡ no_fee) × (c.protocol_fee ≡ no_fee)

-- The accounts of a buy order.
pub record BuyCosts (c : QuoteAmountsAndCosts) (slippage_bps : ℕ) : Type 0 where
  pub no_fee_on_top : c.before_network_costs ≡ c.after_network_costs
  pub buys_the_same : c.after_slippage.buy_amount ≡ c.after_network_costs.buy_amount
  pub tolerated :
      c.after_network_costs.sell_amount * (10_000 + slippage_bps) / 10_000
      ≡ c.after_slippage.sell_amount
  pub not_less : c.after_network_costs.sell_amount ≤ c.after_slippage.sell_amount

rate_below : (a k : ℕ) → k ≤ 10_000 → a * k / 10_000 ≤ a
rate_below a k h = omega (arith, mul-le-mul_left a h)

rate_above : (a k : ℕ) → 10_000 ≤ k → a ≤ a * k / 10_000
rate_above a k h = omega (arith, mul-le-mul_left a h)

div-IsQuotient : (n d : ℕ) → 0 < d → IsQuotient n d (n / d)
div-IsQuotient n d h = (div-mul-le_self n d, rw (mul_comm (n / d + 1) d) (lt-mul-div-succ n h))

ratio-IsShare : (n d : ℕ) → IsShare n d (if d == 0 then 0 else n / d)
ratio-IsShare n zero = refl
ratio-IsShare n (suc d) =
    let nonzero : (suc d == 0) ≡ false = ground arith in
    rw nonzero (div-IsQuotient n (suc d) (omega arith))

module _ (u : U256Ops) (sell buy fee slippage_bps : ℕ) where
  costs_of-SellCosts :
      sell < 2 ^ 112
      → buy < 2 ^ 112
      → fee < 2 ^ 112
      → slippage_bps ≤ 10_000
      → SellCosts (costs_of u true sell buy fee slippage_bps) sell buy fee slippage_bps
  unfolding costs_of apply_slippage_sell
  costs_of-SellCosts hs hb hf rate =
      let scale : (10_000 + 2 ^ 32 - slippage_bps) % 2 ^ 32 ≡ 10_000 - slippage_bps = omega arith in
      let product = mul_bound buy (10_000 - slippage_bps) (2 ^ 112) (2 ^ 16) hb (omega arith) in
      let cost = mul_bound fee buy (2 ^ 112) (2 ^ 112) hf hb in
      let exact = u.mul_fits buy (10_000 - slippage_bps) (omega arith) in
      let sum = u.add_fits sell fee (omega arith) in
      let fee_exact = u.mul_fits fee buy (omega arith) in
      record {
        before_all = rw sum refl;
        before_network = rw sum refl;
        after_network = refl;
        after_partner = refl;
        sells_the_same = refl;
        tolerated = rw (scale, exact) (omega arith);
        fee_in_sell = refl;
        fee_in_buy = rw (sum, fee_exact) (ratio-IsShare (fee * buy) (sell + fee));
        no_other_fees = (refl, refl);
      }

  costs_of-BuyCosts :
      sell < 2 ^ 112
      → slippage_bps ≤ 10_000
      → BuyCosts (costs_of u false sell buy fee slippage_bps) slippage_bps
  unfolding costs_of apply_slippage_buy
  costs_of-BuyCosts hs rate =
      let scale : (10_000 + slippage_bps) % 2 ^ 32 ≡ 10_000 + slippage_bps = omega arith in
      let product = mul_bound sell (10_000 + slippage_bps) (2 ^ 112) (2 ^ 16) hs (omega arith) in
      let exact = u.mul_fits sell (10_000 + slippage_bps) (omega arith) in
      record {
        no_fee_on_top = refl;
        buys_the_same = refl;
        tolerated = rw (scale, exact);
        not_less = rw (scale, exact) (rate_above sell (10_000 + slippage_bps) (omega arith));
      }

-- For a sell quote whose amounts parse to numbers below 2 ^ 112, and a slippage of at most 10,000
-- basis points, the computation succeeds: before the network costs the order sells the parsed sell
-- amount and the fee, after them the sell amount, both for the parsed buy amount; slippage lowers only
-- the buy amount, to its share rounded down; the fee in buy currency is the fee's share of the buy
-- amount rounded down; and there is no other fee.
pub compute_quote-SellCosts :
    (u : U256Ops) (parse : Text → Option ℕ) (quote : QuoteData) (slippage_bps sell buy fee : ℕ)
    → is_sell quote.kind ≡ true
    → parse quote.sell_amount ≡ some sell
    → parse quote.buy_amount ≡ some buy
    → parse quote.fee_amount ≡ some fee
    → sell < 2 ^ 112
    → buy < 2 ^ 112
    → fee < 2 ^ 112
    → slippage_bps ≤ 10_000
    → (c : QuoteAmountsAndCosts) × (compute_quote_amounts_and_costs u parse quote slippage_bps
        ≡ ok c)
      × SellCosts c sell buy fee slippage_bps
unfolding compute_quote_amounts_and_costs
compute_quote-SellCosts u parse quote slippage_bps sell buy fee k ps pb pf hs hb hf rate = (
  costs_of u true sell buy fee slippage_bps,
  rw (k, ps, pb, pf),
  costs_of-SellCosts u sell buy fee slippage_bps hs hb hf rate,
)

-- For a buy quote whose amounts parse, the sell amount to a number below 2 ^ 112, and a slippage
-- of at most 10,000 basis points, the computation succeeds: no fee is put on top, and slippage
-- raises only the sell amount, by its rate.
compute_quote-BuyCosts :
    (u : U256Ops) (parse : Text → Option ℕ) (quote : QuoteData) (slippage_bps sell buy fee : ℕ)
    → is_sell quote.kind ≡ false
    → parse quote.sell_amount ≡ some sell
    → parse quote.buy_amount ≡ some buy
    → parse quote.fee_amount ≡ some fee
    → sell < 2 ^ 112
    → slippage_bps ≤ 10_000
    → (c : QuoteAmountsAndCosts) × (compute_quote_amounts_and_costs u parse quote slippage_bps
        ≡ ok c)
      × BuyCosts c slippage_bps
unfolding compute_quote_amounts_and_costs
compute_quote-BuyCosts u parse quote slippage_bps sell buy fee k ps pb pf hs rate = (
  costs_of u false sell buy fee slippage_bps,
  rw (k, ps, pb, pf),
  costs_of-BuyCosts u sell buy fee slippage_bps hs rate,
)

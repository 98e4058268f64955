-- ===== src/Orderbook/QuoteAmounts/Accounts.antt =====
-- The stages of a quote add up: what the fees and the slippage take is what is missing at the end.
use native.Mathlib.Nat.{div-le_self, mul-le-mul_left}
use cow_rs.Base.{
  ℕ, ◌+◌, ◌-◌, ◌*◌, ◌/◌, ◌^◌, ◌<◌, ◌≤◌, ◌≡◌, true, false, some, arith, some_inj, sym, ◌∙◌,
}
use cow_rs.Base.U256.{U256Ops, mul_bound}
use cow_rs.Base.Float.{Float64}
use cow_rs.Types.{is_sell}
use cow_rs.Orderbook.QuoteAmounts.{
  QuoteAmounts, QuoteOrderParams, QuoteAmountsAndCostsParams, QuoteAmountsAndCostsResult, map_or,
  scaled_bps, get_protocol_fee_amount, partner_fee_of, get_quote_amounts_after_partner_fee,
  get_quote_amounts_after_slippage, network_cost_in_buy, before_all, after_protocol, after_network,
  stages, get_quote_amounts_and_costs, one_hundred_bps,
}
use cow_rs.Orderbook.QuoteAmounts.Exact.{IsModerate, full_rate, get_protocol_fee_amount_total}

-- The result of a sell order: each stage buys no more than the one before it, and the amount before all fees is what is signed, the slippage and the three fees. The sold
-- amount is the quoted one with the network fee.
pub record SellAccounts (o : QuoteOrderParams) {F : Type 0} (r : QuoteAmountsAndCostsResult F)
    : Type 0 where
  pub total :
      r.before_all_fees.buy_amount
      ≡ r.amounts_to_sign.buy_amount
        + (r.after_partner_fees.buy_amount - r.after_slippage.buy_amount)
        + r.costs.partner_fee.amount
        + r.costs.protocol_fee.amount
        + r.costs.network_fee.amount_in_buy_currency
  pub sold : r.amounts_to_sign.sell_amount ≡ o.sell_amount + o.fee_amount
  pub protocol_le : r.after_protocol_fees.buy_amount ≤ r.before_all_fees.buy_amount
  pub network_le : r.after_network_costs.buy_amount ≤ r.after_protocol_fees.buy_amount
  pub partner_le : r.after_partner_fees.buy_amount ≤ r.after_network_costs.buy_amount
  pub slippage_le : r.after_slippage.buy_amount ≤ r.after_partner_fees.buy_amount

-- The result of a buy order: each stage sells no less than the one before it, and the amount that is
-- signed is the amount before all fees, the three fees and the slippage. The bought amount is the
-- quoted one.
pub record BuyAccounts (o : QuoteOrderParams) {F : Type 0} (r : QuoteAmountsAndCostsResult F)
    : Type 0 where
  pub total :
      r.amounts_to_sign.sell_amount
      ≡ r.before_all_fees.sell_amount
        + r.costs.protocol_fee.amount
        + r.costs.network_fee.amount_in_sell_currency
        + r.costs.partner_fee.amount
        + (r.after_slippage.sell_amount - r.after_partner_fees.sell_amount)
  pub bought : r.amounts_to_sign.buy_amount ≡ o.buy_amount
  pub protocol_le : r.before_all_fees.sell_amount ≤ r.after_protocol_fees.sell_amount
  pub network_le : r.after_protocol_fees.sell_amount ≤ r.after_network_costs.sell_amount
  pub partner_le : r.after_network_costs.sell_amount ≤ r.after_partner_fees.sell_amount
  pub slippage_le : r.after_partner_fees.sell_amount ≤ r.after_slippage.sell_amount

module _ (u : U256Ops) (o : QuoteOrderParams) (m : IsModerate o) where
  network_cost_in_buy-lt : network_cost_in_buy u o < 2 ^ 192
  unfolding network_cost_in_buy
  network_cost_in_buy-lt =
      let fits = mul_bound o.buy_amount o.fee_amount (2 ^ 96) (2 ^ 96) m.buy_small m.fee_small in
      ground (
        arith,
        u.mul_fits o.buy_amount o.fee_amount,
        div-le_self (o.buy_amount * o.fee_amount) o.sell_amount,
      )

partner_fee_of-lt :
    (u : U256Ops) (a : QuoteAmounts) (partner : ℕ)
    → a.sell_amount < 2 ^ 96
    → partner < 2 ^ 32
    → partner_fee_of u a false partner < 2 ^ 128
unfolding partner_fee_of
partner_fee_of-lt u a partner small h =
    let fits = mul_bound a.sell_amount partner (2 ^ 96) (2 ^ 32) small h in
    ground (arith, u.mul_fits a.sell_amount partner)

slippage_exact :
    (u : U256Ops) (amount bps : ℕ)
    → amount < 2 ^ 200
    → bps ≤ one_hundred_bps
    → (u.mul amount bps ≡ amount * bps) × (amount * bps / 10_000 ≤ amount)
slippage_exact u amount bps small h =
    let fits = mul_bound amount bps (2 ^ 200) 10_001 small (omega arith) in
    (u.mul_fits amount bps (omega arith), omega (arith, mul-le-mul_left amount h))

module _ (u : U256Ops) (o : QuoteOrderParams) (m : IsModerate o) (fl : Float64) (fee : ℕ)
    (rate : fl.F) (partner slip : ℕ) (small : fee < 2 ^ 127) (h : slip ≤ one_hundred_bps) where
  -- The amounts of a sell order, `n` being the network cost and `p` the partner fee.
  sell_amounts :
      (n p : ℕ)
      → n < 2 ^ 192
      → p ≤ o.buy_amount
      → let before = u.add (u.add o.buy_amount n) fee in
        let paid = u.sub o.buy_amount p in
        let last = u.sub paid (u.mul paid slip / 10_000) in
        (before ≡ last + (paid - last) + p + fee + n)
        × (u.sub before fee ≤ before)
        × (o.buy_amount ≤ u.sub before fee)
        × (paid ≤ o.buy_amount)
        × (last ≤ paid)
  sell_amounts n p cost paid =
      let left : o.buy_amount - p < 2 ^ 200 = omega arith in
      let (slipped, slipped_le) = slippage_exact u (o.buy_amount - p) slip left h in
      rw
        (
          u.add_fits o.buy_amount n (omega arith),
          u.add_fits (o.buy_amount + n) fee (omega arith),
          u.sub_fits (o.buy_amount + n + fee) fee (omega arith) (omega arith),
          u.sub_fits o.buy_amount p paid (omega arith),
          slipped,
          u.sub_fits (o.buy_amount - p) ((o.buy_amount - p) * slip / 10_000) slipped_le
              (omega arith),
        )
        (omega arith)

  stages-SellAccounts :
      is_sell o.kind ≡ true
      → partner_fee_of u (before_all u o fee) true partner ≤ o.buy_amount
      → SellAccounts o (stages u fl o fee rate partner slip)
  unfolding stages after_network after_protocol before_all get_quote_amounts_after_partner_fee
      get_quote_amounts_after_slippage
  stages-SellAccounts k paid =
      let p = partner_fee_of u (before_all u o fee) true partner in
      let core = sell_amounts (network_cost_in_buy u o) p (network_cost_in_buy-lt u o m) paid in
      record {
        total = rw k (rw k at core.0);
        sold = rw k (u.add_fits o.sell_amount o.fee_amount (omega arith));
        protocol_le = rw k core.1;
        network_le = rw k core.2;
        partner_le = rw k (rw k at core.3);
        slippage_le = rw k (rw k at core.4);
      }

  -- The amounts of a buy order, `p` being the partner fee.
  buy_amounts :
      (p : ℕ)
      → p < 2 ^ 128
      → fee ≤ o.sell_amount
      → let before = u.sub o.sell_amount fee in
        let network = u.add o.sell_amount o.fee_amount in
        let paid = u.add network p in
        let last = u.add paid (u.mul paid slip / 10_000) in
        (last ≡ before + fee + o.fee_amount + p + (last - paid))
        × (before ≤ o.sell_amount)
        × (o.sell_amount ≤ network)
        × (network ≤ paid)
        × (paid ≤ last)
  buy_amounts p pays cost =
      let amount = o.sell_amount + o.fee_amount + p in
      let (slipped, slipped_le) = slippage_exact u amount slip (omega arith) h in
      rw
        (
          u.sub_fits o.sell_amount fee cost (omega arith),
          u.add_fits o.sell_amount o.fee_amount (omega arith),
          u.add_fits (o.sell_amount + o.fee_amount) p (omega arith),
          slipped,
          u.add_fits amount (amount * slip / 10_000) (omega arith),
        )
        (omega arith)

  stages-BuyAccounts :
      is_sell o.kind ≡ false
      → partner < 2 ^ 32
      → fee ≤ o.sell_amount
      → BuyAccounts o (stages u fl o fee rate partner slip)
  unfolding stages after_network after_protocol before_all get_quote_amounts_after_partner_fee
      get_quote_amounts_after_slippage
  stages-BuyAccounts k narrow cost =
      let before = before_all u o fee in
      let less : (u.sub o.sell_amount fee) < 2 ^ 96 =
        rw (u.sub_fits o.sell_amount fee cost (omega arith)) (omega arith) in
      let pays = partner_fee_of-lt u before partner (rw k less) narrow in
      let core = buy_amounts (partner_fee_of u before false partner) pays cost in
      record {
        total = rw k (rw k at core.0);
        bought = rw k;
        protocol_le = rw k core.1;
        network_le = rw k core.2;
        partner_le = rw k (rw k at core.3);
        slippage_le = rw k (rw k at core.4);
      }

-- Rates and amounts at which no stage overflows, and at which the fees are no larger than the amount
-- that they are taken from.
pub record IsPlain (fl : Float64) (p : QuoteAmountsAndCostsParams fl.F) : Type 0 where
  pub moderate : IsModerate p.order_params
  pub below_full : scaled_bps fl (map_or fl.zero p.protocol_fee_bps) < full_rate
  pub narrow : map_or 0 p.partner_fee_bps < 2 ^ 32
  pub slips : p.slippage_percent_bps ≤ one_hundred_bps

-- The protocol fee of a plain quote is small.
protocol_fee-lt :
    (u : U256Ops) (fl : Float64) (p : QuoteAmountsAndCostsParams fl.F) (fee : ℕ)
    → IsPlain fl p
    → get_protocol_fee_amount u fl p.order_params (map_or fl.zero p.protocol_fee_bps) ≡ some fee
    → fee < 2 ^ 127
protocol_fee-lt u fl p fee h e =
    let (fee', same, bound) =
      get_protocol_fee_amount_total u fl p.order_params (map_or fl.zero p.protocol_fee_bps)
        h.moderate h.below_full in
    rw (some_inj (sym e ∙ same)) bound

-- For a sell order with amounts below 2 ^ 96, a protocol fee below 100 %, a partner rate below 2 ^
-- 32, a slippage of at most 100 % and a partner fee no larger than the quoted buy amount, the
-- function returns a result in which each stage buys no more than the one before it, the amount
-- before all fees is the signed one, the slippage and the three fees, and the sold amount is the
-- quoted one and the network fee.
pub get_quote_amounts_and_costs-SellAccounts :
    (u : U256Ops) (fl : Float64) (p : QuoteAmountsAndCostsParams fl.F) (fee : ℕ)
    → IsPlain fl p
    → is_sell p.order_params.kind ≡ true
    → get_protocol_fee_amount u fl p.order_params (map_or fl.zero p.protocol_fee_bps) ≡ some fee
    → partner_fee_of u (before_all u p.order_params fee) true (map_or 0 p.partner_fee_bps)
      ≤ p.order_params.buy_amount
    → (r : QuoteAmountsAndCostsResult fl.F) × (get_quote_amounts_and_costs u fl p ≡ some r)
      × SellAccounts p.order_params r
unfolding get_quote_amounts_and_costs
get_quote_amounts_and_costs-SellAccounts u fl p fee h k e paid = (
  stages u fl p.order_params fee (map_or fl.zero p.protocol_fee_bps) (map_or 0 p.partner_fee_bps)
      p.slippage_percent_bps,
  rw e,
  stages-SellAccounts u p.order_params h.moderate fl fee _ _ _ (protocol_fee-lt u fl p fee h e)
      h.slips k paid,
)

-- For a buy order with amounts below 2 ^ 96, a protocol fee below 100 %, a partner rate below 2 ^
-- 32, a slippage of at most 100 % and a protocol fee no larger than the quoted sell amount, the
-- function returns a result in which each stage sells no less than the one before it, the signed
-- amount is the amount before all fees, the three fees and the slippage, and the bought amount is
-- the quoted one.
pub get_quote_amounts_and_costs-BuyAccounts :
    (u : U256Ops) (fl : Float64) (p : QuoteAmountsAndCostsParams fl.F) (fee : ℕ)
    → IsPlain fl p
    → is_sell p.order_params.kind ≡ false
    → get_protocol_fee_amount u fl p.order_params (map_or fl.zero p.protocol_fee_bps) ≡ some fee
    → fee ≤ p.order_params.sell_amount
    → (r : QuoteAmountsAndCostsResult fl.F) × (get_quote_amounts_and_costs u fl p ≡ some r)
      × BuyAccounts p.order_params r
unfolding get_quote_amounts_and_costs
get_quote_amounts_and_costs-BuyAccounts u fl p fee h k e cost = (
  stages u fl p.order_params fee (map_or fl.zero p.protocol_fee_bps) (map_or 0 p.partner_fee_bps)
      p.slippage_percent_bps,
  rw e,
  stages-BuyAccounts u p.order_params h.moderate fl fee _ _ _ (protocol_fee-lt u fl p fee h e)
      h.slips k h.narrow cost,
)

-- ===== src/Bridging/Fees/Accounts.antt =====
-- The amounts and costs of an Across quote.
use native.Mathlib.Nat.{
  mul-le-mul_left, div-le_of_le-mul, div-le_self, pow-le-pow_right, one-le-pow,
}
use cow_rs.Base.{ℕ, ◌+◌, ◌-◌, ◌*◌, ◌/◌, ◌%◌, ◌^◌, ◌<◌, ◌≤◌, ◌≡◌, refl, some, arith}
use cow_rs.Base.Decimal.{parse_uint}
use cow_rs.Base.U256.{U256Ops, IsU256, div_bounds, mul_bound}
use cow_rs.Bridging.{ok, QuoteBridgeRequest, BridgeQuoteAmountsAndCosts}
use cow_rs.Bridging.Fees.{
  pct_100_percent, AcrossSuggestedFeesResponse, apply_bps, apply_pct_fee, pct_to_bps,
  to_amounts_and_costs,
}
use cow_rs.Bridging.Fees.Rates.{IsFeeAt, left-IsFeeAt}

-- `n / d`, rounded down.
pub record IsQuotient (n d q : ℕ) : Type 0 where
  pub low : q * d ≤ n
  pub high : n < q * d + d

quotient : (n d : ℕ) → 0 < d → IsQuotient n d (n / d)
quotient n d h = let (low, high) = div_bounds n d h in record { low = low; high = high }

-- Each amount of the result in terms of the request.
pub record IsAccount (req : QuoteBridgeRequest) (slippage_bps pct : ℕ)
    (r : BridgeQuoteAmountsAndCosts) : Type 0 where
  pub sold :
      (r.before_fee.sell_amount ≡ req.sell_amount)
      × (r.after_slippage.sell_amount ≡ req.sell_amount)
  pub converted :
      IsQuotient
        (req.sell_amount * 10 ^ req.buy_token_decimals)
        (10 ^ req.sell_token_decimals)
        r.before_fee.buy_amount
  pub fee_taken :
      r.after_fee.buy_amount + r.bridging_fee.amount_in_buy_currency ≡ r.before_fee.buy_amount
  pub fee_in_buy :
      IsFeeAt pct pct_100_percent r.before_fee.buy_amount r.bridging_fee.amount_in_buy_currency
  pub fee_in_sell :
      IsFeeAt pct pct_100_percent req.sell_amount r.bridging_fee.amount_in_sell_currency
  pub rate : IsQuotient (pct * 10_000) pct_100_percent r.bridging_fee.fee_bps
  pub slippage :
      IsQuotient
        (r.after_fee.buy_amount * (10_000 - slippage_bps))
        10_000
        r.after_slippage.buy_amount

-- `pow` of `U256` is exact where the result fits.
abbrev pub IsPow : (ℕ → ℕ → ℕ) → Type 0
IsPow pow = (a b : ℕ) → IsU256 (a ^ b) → pow a b ≡ a ^ b

abbrev pub left : ℕ → ℕ → ℕ
left x pct = x * (pct_100_percent - pct) / pct_100_percent

pub left_le : (x pct : ℕ) → left x pct ≤ x
left_le x pct =
    let whole : pct_100_percent - pct ≤ pct_100_percent = omega arith in
    let product : x * (pct_100_percent - pct) ≤ x * pct_100_percent = mul-le-mul_left x whole in
    div-le_of_le-mul pct_100_percent (omega arith)

ten_pow : (n : ℕ) → n ≤ 77 → (0 < 10 ^ n) × IsU256 (10 ^ n)
ten_pow n h =
    let grows : 10 ^ n ≤ 10 ^ 77 = pow-le-pow_right (omega arith) h in
    let positive : 1 ≤ 10 ^ n = one-le-pow n 10 (omega arith) in (positive, omega arith)

abbrev buy_of : QuoteBridgeRequest → ℕ
buy_of req = req.sell_amount * 10 ^ req.buy_token_decimals / 10 ^ req.sell_token_decimals

-- The result, in exact numbers.
abbrev accounted : QuoteBridgeRequest → ℕ → ℕ → BridgeQuoteAmountsAndCosts
accounted req slippage_bps pct = record {
  before_fee = record { sell_amount = req.sell_amount; buy_amount = buy_of req };
  after_fee = record { sell_amount = req.sell_amount; buy_amount = left (buy_of req) pct };
  after_slippage = record {
    sell_amount = req.sell_amount;
    buy_amount = left (buy_of req) pct * (10_000 - slippage_bps) / 10_000;
  };
  bridging_fee = record {
    fee_bps = pct * 10_000 / pct_100_percent;
    amount_in_sell_currency = req.sell_amount - left req.sell_amount pct;
    amount_in_buy_currency = buy_of req - left (buy_of req) pct;
  };
  slippage_bps = slippage_bps;
}

accounted-IsAccount :
    (req : QuoteBridgeRequest) (slippage_bps pct : ℕ)
    → pct ≤ pct_100_percent
    → req.sell_token_decimals ≤ 77
    → IsAccount req slippage_bps pct (accounted req slippage_bps pct)
accounted-IsAccount req slippage_bps pct h ds =
    let less = left_le (buy_of req) pct in
    record {
      sold = (refl, refl);
      converted = quotient _ (10 ^ req.sell_token_decimals) (ten_pow req.sell_token_decimals ds).0;
      fee_taken = omega arith;
      fee_in_buy = left-IsFeeAt pct_100_percent (buy_of req) pct (omega arith) h;
      fee_in_sell = left-IsFeeAt pct_100_percent req.sell_amount pct (omega arith) h;
      rate = quotient (pct * 10_000) pct_100_percent (omega arith);
      slippage = quotient _ 10_000 (omega arith);
    }

bps_of : (pct : ℕ) → pct ≤ pct_100_percent → pct_to_bps pct ≡ ok (pct * 10_000 / pct_100_percent)
unfolding pct_to_bps
bps_of pct h =
    let small : pct * 10_000 / 10 ^ 18 % 2 ^ 32 ≡ pct * 10_000 / 10 ^ 18 = omega arith in
    rw small (ground arith)

module _ (u : U256Ops) where
  pub fee_left : (x p : ℕ) → x < 2 ^ 192 → p ≤ pct_100_percent → apply_pct_fee u x p ≡ ok (left x p)
  unfolding apply_pct_fee
  fee_left x p h k =
      let bound = mul_bound x (10 ^ 18 - p) (2 ^ 192) (2 ^ 64) h (omega arith) in
      let fits : IsU256 (x * (10 ^ 18 - p)) = omega arith in
      let exact = u.mul_fits x (10 ^ 18 - p) fits in rw exact (ground arith)

  slipped :
      (x bps : ℕ) → x < 2 ^ 192 → bps ≤ 10_000 → apply_bps u x bps ≡ x * (10_000 - bps) / 10_000
  unfolding apply_bps
  slipped x bps h k =
      let bound = mul_bound x (10_000 - bps) (2 ^ 192) (2 ^ 64) h (omega arith) in
      let fits : IsU256 (x * (10_000 - bps)) = omega arith in
      let factor : (10_000 + 2 ^ 32 - bps) % 2 ^ 32 ≡ 10_000 - bps = omega arith in
      rw (factor, u.mul_fits x (10_000 - bps) fits) refl

  -- For a fee of at most 100 %, a slippage of at most 100 %, at most 77 decimals and amounts in range, the
  -- result is computed, and it accounts for what is sold, received, paid as a fee and allowed to slip.
  pub to_amounts_and_costs-IsAccount :
      (pow : ℕ → ℕ → ℕ) (req : QuoteBridgeRequest) (slippage_bps pct : ℕ)
      (fees : AcrossSuggestedFeesResponse)
      → IsPow pow
      → parse_uint (2 ^ 128) fees.total_relay_fee.pct ≡ some pct
      → pct ≤ pct_100_percent
      → slippage_bps ≤ 10_000
      → req.sell_token_decimals ≤ 77
      → req.buy_token_decimals ≤ 77
      → req.sell_amount * 10 ^ req.buy_token_decimals < 2 ^ 192
      → req.sell_amount < 2 ^ 192
      → (r : BridgeQuoteAmountsAndCosts) × (to_amounts_and_costs u pow req slippage_bps fees ≡ ok r)
        × IsAccount req slippage_bps pct r
  unfolding to_amounts_and_costs
  to_amounts_and_costs-IsAccount pow req slippage_bps pct fees exact parsed h k ds db fits small =
      let up = ten_pow req.buy_token_decimals db in
      let down = ten_pow req.sell_token_decimals ds in
      let buy_small : buy_of req < 2 ^ 192 = omega (
        arith,
        div-le_self (req.sell_amount * 10 ^ req.buy_token_decimals) (10 ^ req.sell_token_decimals),
      ) in
      let less_buy = left_le (buy_of req) pct in
      let less_sell = left_le req.sell_amount pct in
      (
        accounted req slippage_bps pct,
        rw
            (
              parsed,
              exact 10 req.buy_token_decimals up.1,
              exact 10 req.sell_token_decimals down.1,
              u.mul_fits req.sell_amount (10 ^ req.buy_token_decimals) (omega arith),
              fee_left (buy_of req) pct buy_small h,
              fee_left req.sell_amount pct small h,
              bps_of pct h,
              slipped (left (buy_of req) pct) slippage_bps (omega arith) k,
              u.sub_fits (buy_of req) (left (buy_of req) pct) less_buy (omega arith),
              u.sub_fits req.sell_amount (left req.sell_amount pct) less_sell (omega arith),
            )
            refl,
        accounted-IsAccount req slippage_bps pct h ds,
      )

-- ===== src/Composable/Twap/Parts.antt =====
-- Valid orders, and what is left of an order's amounts after the division into parts.
use native.Mathlib.Nat.{mul-div_cancel, div-add-mod', div-mul-le_self, lt-div-mul-add}
use cow_rs.Base.{
  ℕ, zero, suc, ◌∙◌, ◌+◌, ◌*◌, ◌/◌, ◌%◌, ◌<◌, ◌≤◌, ◌≡◌, ◌≢◌, ◌↔◌, true, false, ◌==◌, if◌then◌else◌,
  ok, arith,
}
use cow_rs.Base.Bytes.{bytes_eq_iff, all_zero}
use cow_rs.Base.U256.{U256Ops, IsU256}
use cow_rs.Composable.Types.{TwapData, TwapStruct, at_mining_time, starts_at, auto, limit_duration}
use cow_rs.Composable.Twap.{
  TwapOrder, is_valid, max_frequency, t0_of, span_of, struct_of, data_to_struct, struct_to_data,
}

-- What the order's terms must satisfy.
pub record IsTradable (d : TwapData) : Type 0 where
  pub tokens_differ : d.sell_token ≢ d.buy_token
  pub sell_token_set : all_zero d.sell_token ≡ false
  pub buy_token_set : all_zero d.buy_token ≡ false
  pub sells : 0 < d.sell_amount
  pub buys : 0 < d.buy_amount
  pub parts : 2 ≤ d.num_parts
  pub lasts : 0 < d.part_duration
  pub frequent : d.part_duration ≤ max_frequency
  pub divisible : d.sell_amount % d.num_parts ≡ 0
  pub span_within : span_of d.duration_of_part ≤ d.part_duration

-- The validity test accepts exactly the orders with tradable terms: different tokens that are set,
-- positive amounts, at least two parts, a part duration of at most a year, a sell amount that the
-- parts divide, and a span within the part.
is_valid_iff : (order : TwapOrder) → (is_valid order ≡ true) ↔ IsTradable order.terms
unfolding is_valid
is_valid_iff order = ground (arith, bytes_eq_iff order.terms.sell_token order.terms.buy_token)

start_back : (t : ℕ) → t0_of (if t == 0 then at_mining_time else starts_at t) ≡ t
start_back t = ground arith

span_back : (t : ℕ) → span_of (if t == 0 then auto else limit_duration t) ≡ t
span_back t = ground arith

-- A struct with at least one part whose totals are below 2 ^ 256 is given back by the conversion
-- to user-facing data and back.
data_to_struct-struct_to_data :
    (u : U256Ops) (s : TwapStruct)
    → 0 < s.n
    → IsU256 (s.part_sell_amount * s.n)
    → IsU256 (s.min_part_limit * s.n)
    → data_to_struct (struct_to_data u s) ≡ ok s
unfolding data_to_struct struct_to_data
data_to_struct-struct_to_data u s pos fits₁ fits₂ = rw (
  u.mul_fits s.part_sell_amount s.n fits₁,
  u.mul_fits s.min_part_limit s.n fits₂,
  mul-div_cancel s.part_sell_amount pos,
  mul-div_cancel s.min_part_limit pos,
  nonzero,
  start_back s.t0,
  span_back s.span,
)
  where
    nonzero : (s.n == 0) ≡ false
    nonzero = ground arith

positive_of_product : (a b : ℕ) → 0 < a * b → 0 < a
positive_of_product zero b h = absurd (omega arith)
positive_of_product (suc a) b h = omega arith

-- A valid order with amounts below 2 ^ 256 is converted to parts that each sell something;
-- converting back gives the order's sell amount exactly, and its buy amount but for less than one
-- atom a part.
pub data_to_struct_parts :
    (u : U256Ops) (order : TwapOrder)
    → is_valid order ≡ true
    → IsU256 order.terms.sell_amount
    → IsU256 order.terms.buy_amount
    → (s : TwapStruct) × (data_to_struct order.terms ≡ ok s)
      × (0 < s.part_sell_amount)
      × ((struct_to_data u s).sell_amount ≡ order.terms.sell_amount)
      × ((struct_to_data u s).buy_amount ≤ order.terms.buy_amount)
      × (order.terms.buy_amount < (struct_to_data u s).buy_amount + order.terms.num_parts)
unfolding data_to_struct struct_to_data
data_to_struct_parts u order valid fits₁ fits₂ =
    let d = order.terms in
    let v = (is_valid_iff order).0 valid in
    let whole : d.sell_amount / d.num_parts * d.num_parts ≡ d.sell_amount =
      omega (arith, div-add-mod' d.sell_amount d.num_parts) in
    let rounded = div-mul-le_self d.buy_amount d.num_parts in
    let close = lt-div-mul-add {a = d.buy_amount} {b = d.num_parts} (omega arith) in
    let exact₁ = u.mul_fits (d.sell_amount / d.num_parts) d.num_parts (omega arith) in
    let exact₂ = u.mul_fits (d.buy_amount / d.num_parts) d.num_parts (omega arith) in
    let nonzero : (d.num_parts == 0) ≡ false = ground arith in
    let positive : 0 < d.sell_amount / d.num_parts =
      positive_of_product _ d.num_parts (omega arith) in
    (struct_of d, rw nonzero, positive, exact₁ ∙ whole, rw exact₂ rounded, rw exact₂ close)

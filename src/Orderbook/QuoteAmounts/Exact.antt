-- ===== src/Orderbook/QuoteAmounts/Exact.antt =====
-- The protocol fee of a quote, and the range in which no operation on `U256` overflows.
use native.Mathlib.Nat.{mul-le-mul_right, div-le_self}
use cow_rs.Base.{
  ℕ, ◌+◌, ◌-◌, ◌*◌, ◌/◌, ◌^◌, ◌<◌, ◌≤◌, ◌≡◌, refl, ap, true, false, ◌==◌, if◌then◌else◌, some,
  arith, ==_iff, leb, leb→le, leb-false→le, Bool-cases, inl, inr,
}
use cow_rs.Base.Panics.{checked_div_lem}
use cow_rs.Base.U256.{U256Ops, mul_bound, div_bounds}
use cow_rs.Base.Float.{Float64}
use cow_rs.Types.{is_sell}
use cow_rs.Orderbook.QuoteAmounts.{
  QuoteOrderParams, scaled_bps, reversed_fee, get_protocol_fee_amount, one_hundred_bps,
  hundred_thousands,
}

-- Amounts below 2 ^ 96, some 10 ^ 28 atoms.
pub record IsModerate (o : QuoteOrderParams) : Type 0 where
  pub sell_small : o.sell_amount < 2 ^ 96
  pub buy_small : o.buy_amount < 2 ^ 96
  pub fee_small : o.fee_amount < 2 ^ 96

-- 100 % in units of 1 / 100,000 of a basis point.
abbrev pub full_rate : ℕ
full_rate = 1_000_000_000

-- The amount from which a fee of `fee` atoms was taken: what a sell order would buy without it, or
-- what a buy order would sell without it.
abbrev pub before_fee : QuoteOrderParams → ℕ → ℕ
before_fee o fee = if is_sell o.kind then o.buy_amount + fee else o.sell_amount + o.fee_amount - fee

abbrev pub AtMostRate : QuoteOrderParams → ℕ → ℕ → Type 0
AtMostRate o bps fee = fee * full_rate ≤ before_fee o fee * bps

-- The largest fee that is at most the given rate of the amount before the fee.
abbrev pub IsFeeAtRate : QuoteOrderParams → ℕ → ℕ → Type 0
IsFeeAtRate o bps fee = AtMostRate o bps fee × ¬ (AtMostRate o bps (fee + 1))

sub_mul : (a b c : ℕ) → (a - b) * c ≡ a * c - b * c
sub_mul a b c = elim (Bool-cases (leb b a)) [
  | inl h ↦
      let le = leb→le b a h in
      let split : a ≡ (a - b) + b = omega arith in omega (arith, ap (λ (t : ℕ). t * c) split)
  | inr h ↦
      let le : a ≤ b = leb-false→le b a h in
      let zero : a - b ≡ 0 = omega arith in
      omega (arith, ap (λ (t : ℕ). t * c) zero, mul-le-mul_right c le)
]

-- The quotient that a sell order's fee is, `r` being the rest of the rate.
sell_fee_at_rate :
    (amount b r fee : ℕ)
    → b + r ≡ full_rate
    → fee * r ≤ amount * b
    → amount * b < fee * r + r
    → (fee * full_rate ≤ (amount + fee) * b) × ¬ ((fee + 1) * full_rate ≤ (amount + (fee + 1)) * b)
sell_fee_at_rate amount b r fee e lo hi =
    let scaled = ap (λ (t : ℕ). fee * t) e in (omega (arith, scaled), omega (arith, scaled))

buy_fee_at_rate :
    (amount b fee : ℕ)
    → fee * (full_rate + b) ≤ amount * b
    → amount * b < fee * (full_rate + b) + (full_rate + b)
    → (fee * full_rate ≤ (amount - fee) * b) × ¬ ((fee + 1) * full_rate ≤ (amount - (fee + 1)) * b)
buy_fee_at_rate amount b fee lo hi =
    (omega (arith, sub_mul amount fee b), omega (arith, sub_mul amount (fee + 1) b))

module _ (u : U256Ops) (o : QuoteOrderParams) (m : IsModerate o) (b : ℕ)
    (small : b < full_rate) where
  reversed_fee_sell :
      is_sell o.kind ≡ true → reversed_fee u o b ≡ some (o.buy_amount * b / (full_rate - b))
  unfolding reversed_fee
  reversed_fee_sell k =
      let fits = mul_bound o.buy_amount b (2 ^ 96) full_rate m.buy_small small in
      rw
        (
          k,
          u.mul_fits one_hundred_bps hundred_thousands (omega arith),
          u.sub_fits full_rate b (omega arith) (omega arith),
          u.mul_fits o.buy_amount b (omega arith),
        )
        (checked_div_lem (o.buy_amount * b) (full_rate - b) (omega arith))

  reversed_fee_buy :
      is_sell o.kind ≡ false
      → reversed_fee u o b ≡ some ((o.sell_amount + o.fee_amount) * b / (full_rate + b))
  unfolding reversed_fee
  reversed_fee_buy k =
      let fits =
        mul_bound (o.sell_amount + o.fee_amount) b (2 ^ 97) full_rate (omega arith) small in
      rw
        (
          k,
          u.mul_fits one_hundred_bps hundred_thousands (omega arith),
          u.add_fits full_rate b (omega arith),
          u.add_fits o.sell_amount o.fee_amount (omega arith),
          u.mul_fits (o.sell_amount + o.fee_amount) b (omega arith),
        )
        (checked_div_lem ((o.sell_amount + o.fee_amount) * b) (full_rate + b) (omega arith))

  reversed_fee-IsFeeAtRate :
      (fee : ℕ) × (reversed_fee u o b ≡ some fee) × IsFeeAtRate o b fee × (fee < 2 ^ 127)
  reversed_fee-IsFeeAtRate = elim (Bool-cases (is_sell o.kind)) [
    | inl k ↦
        let fee = o.buy_amount * b / (full_rate - b) in
        let bounds = div_bounds (o.buy_amount * b) (full_rate - b) (omega arith) in
        let at =
          sell_fee_at_rate o.buy_amount b (full_rate - b) fee (omega arith) bounds.0 bounds.1 in
        (
          fee,
          reversed_fee_sell k,
          rw k at,
          omega (
            arith,
            div-le_self (o.buy_amount * b) (full_rate - b),
            mul_bound o.buy_amount b (2 ^ 96) full_rate m.buy_small small,
          ),
        )
    | inr k ↦
        let amount = o.sell_amount + o.fee_amount in
        let fee = amount * b / (full_rate + b) in
        let bounds = div_bounds (amount * b) (full_rate + b) (omega arith) in
        let at = buy_fee_at_rate amount b fee bounds.0 bounds.1 in
        (
          fee,
          reversed_fee_buy k,
          rw k at,
          omega (
            arith,
            div-le_self (amount * b) (full_rate + b),
            mul_bound amount b (2 ^ 97) full_rate (omega arith) small,
          ),
        )
  ]

  get_protocol_fee_amount_positive :
      (fl : Float64) (bps : fl.F)
      → fl.le bps fl.zero ≡ false
      → scaled_bps fl bps ≡ b
      → (fee : ℕ) × (get_protocol_fee_amount u fl o bps ≡ some fee)
        × IsFeeAtRate o b fee
        × (fee < 2 ^ 127)
  unfolding get_protocol_fee_amount
  get_protocol_fee_amount_positive fl bps pos e = elim (Bool-cases (b == 0)) [
    | inl z ↦
        let zero : b ≡ 0 = (==_iff b 0).0 z in
        (0, rw (pos, e, z), rw zero (omega arith, omega arith), omega arith)
    | inr nz ↦
        let (fee, same, at, bound) = reversed_fee-IsFeeAtRate in
        (fee, rw (pos, e, nz) same, at, bound)
  ]

-- For amounts below 2 ^ 96 and a positive rate below 100 %, a protocol fee is computed and is the
-- largest that is at most that rate of the amount before the fee.
pub get_protocol_fee_amount-IsFeeAtRate :
    (u : U256Ops) (fl : Float64) (o : QuoteOrderParams) (bps : fl.F)
    → IsModerate o
    → scaled_bps fl bps < full_rate
    → fl.le bps fl.zero ≡ false
    → (fee : ℕ) × (get_protocol_fee_amount u fl o bps ≡ some fee)
      × IsFeeAtRate o (scaled_bps fl bps) fee
get_protocol_fee_amount-IsFeeAtRate u fl o bps m small pos =
    let (fee, same, at, _) =
      get_protocol_fee_amount_positive u o m (scaled_bps fl bps) small fl bps pos refl in
    (fee, same, at)

pub get_protocol_fee_amount_total :
    (u : U256Ops) (fl : Float64) (o : QuoteOrderParams) (bps : fl.F)
    → IsModerate o
    → scaled_bps fl bps < full_rate
    → (fee : ℕ) × (get_protocol_fee_amount u fl o bps ≡ some fee) × (fee < 2 ^ 127)
unfolding get_protocol_fee_amount
get_protocol_fee_amount_total u fl o bps m small = elim (Bool-cases (fl.le bps fl.zero)) [
  | inl z ↦ (0, rw z, omega arith)
  | inr pos ↦
      let (fee, same, _, bound) =
        get_protocol_fee_amount_positive u o m (scaled_bps fl bps) small fl bps pos refl in
      (fee, same, bound)
]

-- ===== src/Settlement/Encoder/Prices.antt =====
-- The clearing prices under the operations of the encoder.
use cow_rs.Base.{
  ℕ, zero, suc, ◌+◌, ◌-◌, ◌≤◌, ◌<◌, ◌≡◌, refl, ltb, ◌==◌, if◌then◌else◌, inl, inr, List, [], ◌∷◌,
  ◌++◌, length, get_or, set, replicate, arith, Bool-cases, length-append, length-replicate,
}
use cow_rs.Base.Bytes.{Bytes}
use cow_rs.Types.{UnsignedOrder}
use cow_rs.Types.Trade.{index, SignatureData, encode_trade}
use cow_rs.Settlement.Encoder.{SettlementEncoder, cover, add_token, set_clearing_price, add_trade}

pub length-cover :
    (n : ℕ) (ps : List ℕ) → (n ≤ length (cover n ps)) × (length ps ≤ length (cover n ps))
unfolding cover
length-cover n ps = ground (
  arith,
  length-append ps (replicate (n - length ps) 0),
  length-replicate {A = ℕ} (n - length ps) 0,
)

get_or-replicate : (n i : ℕ) → get_or {A = ℕ} (replicate n 0) i 0 ≡ 0
get_or-replicate zero i = refl
get_or-replicate (suc n) zero = refl
get_or-replicate (suc n) (suc i) = get_or-replicate n i

get_or-append_zeros : (ps : List ℕ) (n i : ℕ) → get_or (ps ++ replicate n 0) i 0 ≡ get_or ps i 0
get_or-append_zeros [] n i = get_or-replicate n i
get_or-append_zeros (p ∷ ps) n zero = refl
get_or-append_zeros (p ∷ ps) n (suc i) = get_or-append_zeros ps n i

get_or-cover : (n : ℕ) (ps : List ℕ) (i : ℕ) → get_or (cover n ps) i 0 ≡ get_or ps i 0
unfolding cover
get_or-cover n ps i = elim (Bool-cases (ltb (length ps) n)) [
  | inl short ↦ rw short (get_or-append_zeros ps (n - length ps) i)
  | inr long ↦ rw long
]

get_or-set :
    (ps : List ℕ) (k i v : ℕ)
    → k < length ps
    → get_or (set ps k v) i 0 ≡ (if i == k then v else get_or ps i 0)
get_or-set [] k i v h = absurd (omega arith)
get_or-set (p ∷ ps) zero zero v h = refl
get_or-set (p ∷ ps) zero (suc i) v h = ground arith
get_or-set (p ∷ ps) (suc k) zero v h = ground arith
get_or-set (p ∷ ps) (suc k) (suc i) v h = ground (arith, get_or-set ps k i v (omega arith))

-- The price of a token index, zero where none is stored.
abbrev pub price_of : SettlementEncoder → ℕ → ℕ
price_of e i = get_or e.clearing_prices i 0

-- Reading a missing price as zero: setting a price stores it at its index and changes no other,
-- and registering a token or adding a trade changes no price.
price_of_lem :
    (e : SettlementEncoder) (k p i : ℕ) (t : Bytes) (o : UnsignedOrder) (s : SignatureData) (x : ℕ)
    → (price_of (set_clearing_price e k p) i ≡ (if i == k then p else price_of e i))
      × (price_of (add_token e t).0 i ≡ price_of e i)
      × (price_of (add_trade e o s x) i ≡ price_of e i)
unfolding set_clearing_price add_token add_trade
price_of_lem e k p i t o s x =
    let long = (length-cover (k + 1) e.clearing_prices).0 in
    (
      rw (← get_or-cover (k + 1) e.clearing_prices i)
          (get_or-set (cover (k + 1) e.clearing_prices) k i p (omega arith)),
      get_or-cover ((index e.tokens t).1 + 1) e.clearing_prices i,
      get_or-cover (length (encode_trade e.tokens o s x).0.tokens) e.clearing_prices i,
    )

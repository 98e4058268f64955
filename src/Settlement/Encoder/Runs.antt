-- ===== src/Settlement/Encoder/Runs.antt =====
-- What the encoder's state guarantees after any sequence of its operations.
use cow_rs.Base.{
  ℕ, ◌+◌, ◌≤◌, ◌≡◌, refl, some, inl, inr, List, [], ◌∷◌, ◌++◌, map, length, get_elem?, ok, arith,
  length-set,
}
use mathlib.Core.Path.{ap₂}
use cow_rs.Base.Bytes.{Bytes}
use cow_rs.Types.{UnsignedOrder}
use cow_rs.Types.Trade.{EncodedTrade, index, SignatureData, encode_trade, decode_order}
use cow_rs.Types.Trade.Registry.{
  IsConsistent, empty_registry-IsConsistent, index-IsConsistent, index_keeps, length-index,
}
use cow_rs.Types.Trade.RoundTrip.{
  normalized_order, IsTradeOf, encode_trade-IsTradeOf, encode_trade_keeps,
  encode_trade-IsConsistent,
}
use cow_rs.Settlement.Encoder.{
  SettlementEncoder, InteractionStage, new_encoder, cover, add_token, set_clearing_price, add_trade,
  add_interaction, clear,
}
use cow_rs.Settlement.Encoder.Prices.{length-cover}

-- A call of one of the operations that change the encoder.
pub data Operation : Type 0 where
  token : Bytes → Operation
  price : ℕ → ℕ → Operation
  trade : UnsignedOrder → SignatureData → ℕ → Operation
  interaction : InteractionStage → Bytes → ℕ → Bytes → Operation
  reset : Operation

abbrev pub step : SettlementEncoder → Operation → SettlementEncoder
step e (token t) = (add_token e t).0
step e (price i p) = set_clearing_price e i p
step e (trade o s executed) = add_trade e o s executed
step e (interaction stage target value calldata) = add_interaction e stage target value calldata
step e reset = clear e

abbrev pub run : SettlementEncoder → List Operation → SettlementEncoder
run e [] = e
run e (op ∷ ops) = run (step e op) ops

-- The orders of the trades that a sequence of calls leaves in the encoder.
abbrev pub orders_after : List UnsignedOrder → Operation → List UnsignedOrder
orders_after os (trade o s executed) = os ++ o ∷ []
orders_after os reset = []
orders_after os _ = os

abbrev pub orders_of : List UnsignedOrder → List Operation → List UnsignedOrder
orders_of os [] = os
orders_of os (op ∷ ops) = orders_of (orders_after os op) ops

-- The trades are those of the orders, one by one.
abbrev TradesOf : List Bytes → List EncodedTrade → List UnsignedOrder → Type 0
TradesOf tokens [] [] = Unit
TradesOf tokens [] (o ∷ os) = ⊥
TradesOf tokens (t ∷ ts) [] = ⊥
TradesOf tokens (t ∷ ts) (o ∷ os) = IsTradeOf tokens t o × TradesOf tokens ts os

TradesOf-extend :
    (tokens later : List Bytes) (ts : List EncodedTrade) (os : List UnsignedOrder)
    → ((i : ℕ) (t : Bytes) → get_elem? tokens i ≡ some t → get_elem? later i ≡ some t)
    → TradesOf tokens ts os
    → TradesOf later ts os
TradesOf-extend tokens later [] [] keep h = tt
TradesOf-extend tokens later [] (o ∷ os) keep h = elim h [ ]
TradesOf-extend tokens later (t ∷ ts) [] keep h = elim h [ ]
TradesOf-extend tokens later (t ∷ ts) (o ∷ os) keep (first, rest) = (
  record {
    sell_at = keep t.sell_token_index o.sell_token first.sell_at;
    buy_at = keep t.buy_token_index o.buy_token first.buy_at;
    content = first.content;
  },
  TradesOf-extend tokens later ts os keep rest,
)

TradesOf-push :
    (tokens : List Bytes) (ts : List EncodedTrade) (os : List UnsignedOrder) (t : EncodedTrade)
    (o : UnsignedOrder)
    → TradesOf tokens ts os
    → IsTradeOf tokens t o
    → TradesOf tokens (ts ++ t ∷ []) (os ++ o ∷ [])
TradesOf-push tokens [] [] t o h new = (new, tt)
TradesOf-push tokens [] (o' ∷ os) t o h new = elim h [ ]
TradesOf-push tokens (t' ∷ ts) [] t o h new = elim h [ ]
TradesOf-push tokens (t' ∷ ts) (o' ∷ os) t o (first, rest) new =
    (first, TradesOf-push tokens ts os t o rest new)

decode_orders :
    (tokens : List Bytes) (ts : List EncodedTrade) (os : List UnsignedOrder)
    → TradesOf tokens ts os
    → map (λ t. decode_order t tokens) ts ≡ map (λ o. ok (normalized_order o)) os
decode_orders tokens [] [] h = refl
decode_orders tokens [] (o ∷ os) h = elim h [ ]
decode_orders tokens (t ∷ ts) [] h = elim h [ ]
decode_orders tokens (t ∷ ts) (o ∷ os) (first, rest) =
    ap₂ (◌∷◌) (first.content tokens first.sell_at first.buy_at) (decode_orders tokens ts os rest)

-- The registry is consistent, each token has a price, and the trades are those of the orders.
pub record IsWellFormed (e : SettlementEncoder) (os : List UnsignedOrder) : Type 0 where
  pub consistent : IsConsistent e.tokens
  pub priced : length e.tokens.tokens ≤ length e.clearing_prices
  pub traded : TradesOf e.tokens.tokens e.trades os

step-IsWellFormed :
    (e : SettlementEncoder) (os : List UnsignedOrder) (op : Operation)
    → IsWellFormed e os
    → IsWellFormed (step e op) (orders_after os op)
unfolding add_token set_clearing_price add_trade add_interaction clear
step-IsWellFormed e os (token t) h =
    let r = e.tokens in
    let priced = h.priced in
    let (covers, keeps) = length-cover ((index r t).1 + 1) e.clearing_prices in
    record {
      consistent = index-IsConsistent r t h.consistent;
      priced = elim (length-index r t) [ inl same ↦ omega arith | inr last ↦ omega arith ];
      traded =
          TradesOf-extend r.tokens (index r t).0.tokens e.trades os (λ i t'. index_keeps r t i)
            h.traded;
    }
step-IsWellFormed e os (price i p) h =
    let priced = h.priced in
    let long = (length-cover (i + 1) e.clearing_prices).1 in
    record {
      consistent = h.consistent;
      priced = omega (arith, length-set (cover (i + 1) e.clearing_prices) i p);
      traded = h.traded;
    }
step-IsWellFormed e os (trade o s executed) h =
    let later = (encode_trade e.tokens o s executed).0 in
    record {
      consistent = encode_trade-IsConsistent e.tokens o s executed h.consistent;
      priced = (length-cover (length later.tokens) e.clearing_prices).0;
      traded =
          TradesOf-push later.tokens e.trades os (encode_trade e.tokens o s executed).1 o
            (TradesOf-extend e.tokens.tokens later.tokens e.trades os
              (λ i t. encode_trade_keeps e.tokens o s executed h.consistent i) h.traded)
            (encode_trade-IsTradeOf e.tokens o s executed h.consistent);
    }
step-IsWellFormed e os (interaction stage target value calldata) h = record {
  consistent = h.consistent;
  priced = h.priced;
  traded = h.traded;
}
step-IsWellFormed e os reset h = record {
  consistent = empty_registry-IsConsistent;
  priced = omega arith;
  traded = tt;
}

run-IsWellFormed :
    (e : SettlementEncoder) (os : List UnsignedOrder) (ops : List Operation)
    → IsWellFormed e os
    → IsWellFormed (run e ops) (orders_of os ops)
run-IsWellFormed e os [] h = h
run-IsWellFormed e os (op ∷ ops) h =
    run-IsWellFormed (step e op) (orders_after os op) ops (step-IsWellFormed e os op h)

new-IsWellFormed : IsWellFormed new_encoder []
unfolding new_encoder
new-IsWellFormed = record {
  consistent = empty_registry-IsConsistent;
  priced = omega arith;
  traded = tt;
}

-- After any calls on a new encoder the registry's map holds exactly the positions of its tokens,
-- and there are at least as many clearing prices as tokens.
pub run-IsConsistent :
    (ops : List Operation)
    → IsConsistent (run new_encoder ops).tokens
      × (length (run new_encoder ops).tokens.tokens ≤ length (run new_encoder ops).clearing_prices)
run-IsConsistent ops =
    let h = run-IsWellFormed new_encoder [] ops new-IsWellFormed in (h.consistent, h.priced)

-- After any calls on a new encoder its trades decode, with its tokens, to the orders added since
-- the last reset, in order, each with its external buy balance turned into `erc20`.
pub decode_orders-run :
    (ops : List Operation)
    → map (λ t. decode_order t (run new_encoder ops).tokens.tokens) (run new_encoder ops).trades
      ≡ map (λ o. ok (normalized_order o)) (orders_of [] ops)
decode_orders-run ops =
    let h = run-IsWellFormed new_encoder [] ops new-IsWellFormed in
    decode_orders (run new_encoder ops).tokens.tokens (run new_encoder ops).trades
      (orders_of [] ops) h.traded

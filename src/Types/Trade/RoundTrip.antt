-- ===== src/Types/Trade/RoundTrip.antt =====
-- Trades and signature data are read back from what was encoded.
use cow_rs.Base.{
  ℕ, ◌≤◌, ◌≡◌, ap, ◌∙◌, List, [], ◌++◌, some, length, get_elem?, ok, arith, take-append,
  drop-append, length-append, le→ltb, lt→leb, get_elem?_inv,
}
use cow_rs.Base.Bytes.{Bytes}
use cow_rs.Types.{UnsignedOrder, SigningScheme}
use cow_rs.Types.Flags.{
  OrderFlags, encode_trade_flags, decode_order_flags, normalize_buy_token_balance,
}
use cow_rs.Types.Flags.RoundTrip.{decode_order_flags-encode_trade_flags, normalized}
use cow_rs.Types.Trade.{
  SettlementTokenRegistry, index, SignatureData, EncodedTrade, encode_trade, decode_order, flags_of,
  Eip1271SignatureData, encode_eip1271_signature_data, decode_eip1271_signature_data,
  decode_signature_owner,
}
use cow_rs.Types.Trade.Registry.{IsConsistent, index-IsConsistent, get_elem?-index, index_keeps}

-- The order with the buy balance that the settlement contract sees.
abbrev pub normalized_order : UnsignedOrder → UnsignedOrder
normalized_order o = record o {
  buy_token_balance = normalize_buy_token_balance o.buy_token_balance;
}

normalize_idempotent :
    (o : UnsignedOrder) (s : SigningScheme)
    → normalized (flags_of o s).order_flags ≡ (flags_of o s).order_flags
unfolding normalize_buy_token_balance
normalize_idempotent o s = ground arith

-- Decoding succeeds where both indices are positions of tokens.
decode_order_lem :
    (trade : EncodedTrade) (tokens : List Bytes) (sell buy : Bytes) (f : OrderFlags)
    → get_elem? tokens trade.sell_token_index ≡ some sell
    → get_elem? tokens trade.buy_token_index ≡ some buy
    → decode_order_flags trade.flags ≡ ok f
    → decode_order trade tokens
      ≡ ok (record {
        sell_token = sell;
        buy_token = buy;
        receiver = trade.receiver;
        sell_amount = trade.sell_amount;
        buy_amount = trade.buy_amount;
        valid_to = trade.valid_to;
        app_data = trade.app_data;
        fee_amount = trade.fee_amount;
        kind = f.kind;
        partially_fillable = f.partially_fillable;
        sell_token_balance = f.sell_token_balance;
        buy_token_balance = f.buy_token_balance;
      })
unfolding decode_order
decode_order_lem trade tokens sell buy f p q e =
    let (sell_in, sell_at) = get_elem?_inv tokens trade.sell_token_index [] p in
    let (buy_in, buy_at) = get_elem?_inv tokens trade.buy_token_index [] q in
    rw (lt→leb _ _ sell_in, lt→leb _ _ buy_in, e, sell_at, buy_at)

-- A trade of an order against a list of tokens: its indices are the positions of the order's tokens,
-- and wherever they are, it decodes to the order.
pub record IsTradeOf (tokens : List Bytes) (trade : EncodedTrade) (o : UnsignedOrder) : Type 0 where
  pub sell_at : get_elem? tokens trade.sell_token_index ≡ some o.sell_token
  pub buy_at : get_elem? tokens trade.buy_token_index ≡ some o.buy_token
  pub content :
      (later : List Bytes)
      → get_elem? later trade.sell_token_index ≡ some o.sell_token
      → get_elem? later trade.buy_token_index ≡ some o.buy_token
      → decode_order trade later ≡ ok (normalized_order o)

module _ (r : SettlementTokenRegistry) (o : UnsignedOrder) (s : SignatureData) (executed : ℕ)
    (c : IsConsistent r) where
  pub encode_trade-IsConsistent : IsConsistent (encode_trade r o s executed).0
  unfolding encode_trade
  encode_trade-IsConsistent = index-IsConsistent _ o.buy_token (index-IsConsistent r o.sell_token c)

  pub encode_trade_keeps :
      (i : ℕ) {t : Bytes}
      → get_elem? r.tokens i ≡ some t
      → get_elem? (encode_trade r o s executed).0.tokens i ≡ some t
  unfolding encode_trade
  encode_trade_keeps i h =
      index_keeps (index r o.sell_token).0 o.buy_token i (index_keeps r o.sell_token i h)

  pub encode_trade-IsTradeOf :
      IsTradeOf (encode_trade r o s executed).0.tokens (encode_trade r o s executed).1 o
  unfolding encode_trade
  encode_trade-IsTradeOf =
      let r₁ = (index r o.sell_token).0 in
      let flags : decode_order_flags (encode_trade_flags (flags_of o s.scheme))
          ≡ ok (flags_of o s.scheme).order_flags =
        decode_order_flags-encode_trade_flags (flags_of o s.scheme)
        ∙ ap ok (normalize_idempotent o s.scheme) in
      record {
        sell_at =
            index_keeps r₁ o.buy_token (index r o.sell_token).1 (get_elem?-index r o.sell_token c);
        buy_at = get_elem?-index r₁ o.buy_token (index-IsConsistent r o.sell_token c);
        content = λ later p q.
            decode_order_lem _ later o.sell_token o.buy_token (flags_of o s.scheme).order_flags p q
              flags;
      }

  -- A trade encoded against a consistent registry decodes, with the tokens of the new registry, to
  -- the order that went in, its external buy balance turned into `erc20`.
  pub decode_order-encode_trade :
      decode_order (encode_trade r o s executed).1 (encode_trade r o s executed).0.tokens
      ≡ ok (normalized_order o)
  decode_order-encode_trade =
      let t = encode_trade-IsTradeOf in
      t.content (encode_trade r o s executed).0.tokens t.sell_at t.buy_at

-- EIP-1271 data with a verifier of 20 bytes is read back whole, and its owner is the verifier.
decode_eip1271-encode_eip1271 :
    (d : Eip1271SignatureData)
    → length d.verifier ≡ 20
    → (decode_eip1271_signature_data (encode_eip1271_signature_data d) ≡ ok d)
      × (decode_signature_owner (encode_eip1271_signature_data d) ≡ ok d.verifier)
unfolding decode_eip1271_signature_data decode_signature_owner encode_eip1271_signature_data
decode_eip1271-encode_eip1271 d h =
    let size : 20 ≤ length (d.verifier ++ d.signature) =
      omega (arith, length-append d.verifier d.signature) in
    let front = take-append 20 d.verifier d.signature h in
    let back = drop-append 20 d.verifier d.signature h in
    (rw (le→ltb _ _ size, front, back), rw (le→ltb _ _ size, front))

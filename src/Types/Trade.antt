-- ===== src/Types/Trade.antt =====
-- crates/types/src/trade.rs: the token registry of a settlement, trades against it, and EIP-1271
-- signature data.
pub mod Registry
pub mod RoundTrip
use cow_rs.Base.{
  ℕ, ◌+◌, Bool, true, false, ◌||◌, ltb, leb, if◌then◌else◌, Option, none, some, List, [], ◌∷◌, ◌++◌,
  length, get_or, take, drop, Result, ok, err, ◌>>=◌, ◌>>◌, fail_if, parse,
}
use cow_rs.Base.Bytes.{Bytes, bytes_eq}
use cow_rs.Types.{OrderKind, TokenBalance, SigningScheme, UnsignedOrder}
use cow_rs.Types.Flags.{
  OrderFlags, TradeFlags, decode_order_flags, encode_trade_flags, normalize_buy_token_balance,
}

pub record EncodedTrade : Type 0 where
  pub sell_token_index : ℕ
  pub buy_token_index : ℕ
  pub receiver : Bytes
  pub sell_amount : ℕ
  pub buy_amount : ℕ
  pub valid_to : ℕ
  pub app_data : Bytes
  pub fee_amount : ℕ
  pub flags : ℕ
  pub executed_amount : ℕ
  pub signature : Bytes

pub record BatchSwapStep : Type 0 where
  pub pool_id : Bytes
  pub asset_in_index : ℕ
  pub asset_out_index : ℕ
  pub amount : ℕ
  pub user_data : Bytes

pub record Swap : Type 0 where
  pub pool_id : Bytes
  pub asset_in : Bytes
  pub asset_out : Bytes
  pub amount : ℕ
  pub user_data : Option Bytes

-- The hash map is an association list.
pub record SettlementTokenRegistry : Type 0 where
  pub tokens : List Bytes
  pub token_map : List (Bytes × ℕ)

abbrev pub lookup : Bytes → List (Bytes × ℕ) → Option ℕ
lookup token [] = none
lookup token ((t, i) ∷ rest) = if bytes_eq t token then some i else lookup token rest

abbrev pub empty_registry : SettlementTokenRegistry
empty_registry = record { tokens = []; token_map = [] }

-- A new token is pushed; the map is asked first.
abbrev pub index_found : SettlementTokenRegistry → Bytes → Option ℕ → SettlementTokenRegistry × ℕ
index_found r token (some idx) = (r, idx)
index_found r token none =
    let idx = length r.tokens in
    (record { tokens = r.tokens ++ token ∷ []; token_map = (token, idx) ∷ r.token_map }, idx)

pub index : SettlementTokenRegistry → Bytes → SettlementTokenRegistry × ℕ
index r token = index_found r token (lookup token r.token_map)

pub record SignatureData : Type 0 where
  pub scheme : SigningScheme
  pub bytes : Bytes

abbrev pub flags_of : UnsignedOrder → SigningScheme → TradeFlags
flags_of order scheme = record {
  order_flags = record {
    kind = order.kind;
    partially_fillable = order.partially_fillable;
    sell_token_balance = order.sell_token_balance;
    buy_token_balance = normalize_buy_token_balance order.buy_token_balance;
  };
  signing_scheme = scheme;
}

-- The sell token is registered before the buy token.
unfoldable pub encode_trade :
    SettlementTokenRegistry
    → UnsignedOrder
    → SignatureData
    → ℕ
    → SettlementTokenRegistry × EncodedTrade
encode_trade tokens order signature executed_amount =
    let (tokens₁, sell_index) = index tokens order.sell_token in
    let (tokens₂, buy_index) = index tokens₁ order.buy_token in
    (
      tokens₂,
      record {
        sell_token_index = sell_index;
        buy_token_index = buy_index;
        receiver = order.receiver;
        sell_amount = order.sell_amount;
        buy_amount = order.buy_amount;
        valid_to = order.valid_to;
        app_data = order.app_data;
        fee_amount = order.fee_amount;
        flags = encode_trade_flags (flags_of order signature.scheme);
        executed_amount = executed_amount;
        signature = signature.bytes;
      },
    )

unfoldable pub decode_order : EncodedTrade → List Bytes → Result UnsignedOrder
decode_order trade tokens = do
  fail_if (leb (length tokens) trade.sell_token_index || leb (length tokens) trade.buy_token_index)
      (parse "trade" "token index out of bounds")
  flags ← decode_order_flags trade.flags
  ok (record {
    sell_token = get_or tokens trade.sell_token_index [];
    buy_token = get_or tokens trade.buy_token_index [];
    receiver = trade.receiver;
    sell_amount = trade.sell_amount;
    buy_amount = trade.buy_amount;
    valid_to = trade.valid_to;
    app_data = trade.app_data;
    fee_amount = trade.fee_amount;
    kind = flags.kind;
    partially_fillable = flags.partially_fillable;
    sell_token_balance = flags.sell_token_balance;
    buy_token_balance = flags.buy_token_balance;
  })

abbrev unwrap_or_default : Option Bytes → Bytes
unwrap_or_default none = []
unwrap_or_default (some bytes) = bytes

unfoldable pub encode_swap_step :
    SettlementTokenRegistry → Swap → SettlementTokenRegistry × BatchSwapStep
encode_swap_step tokens swap =
    let (tokens₁, in_index) = index tokens swap.asset_in in
    let (tokens₂, out_index) = index tokens₁ swap.asset_out in
    (
      tokens₂,
      record {
        pool_id = swap.pool_id;
        asset_in_index = in_index;
        asset_out_index = out_index;
        amount = swap.amount;
        user_data = unwrap_or_default swap.user_data;
      },
    )

unfoldable pub encode_signature_data : SignatureData → Bytes
encode_signature_data signature = signature.bytes

pub record Eip1271SignatureData : Type 0 where
  pub verifier : Bytes
  pub signature : Bytes

unfoldable pub encode_eip1271_signature_data : Eip1271SignatureData → Bytes
encode_eip1271_signature_data d = d.verifier ++ d.signature

unfoldable pub decode_signature_owner : Bytes → Result Bytes
decode_signature_owner bytes = do
  fail_if (ltb (length bytes) 20) (parse "eip1271_signature" "data too short")
  ok (take 20 bytes)

unfoldable pub decode_eip1271_signature_data : Bytes → Result Eip1271SignatureData
decode_eip1271_signature_data bytes = do
  fail_if (ltb (length bytes) 20) (parse "eip1271_signature" "data too short")
  ok (record { verifier = take 20 bytes; signature = drop 20 bytes })

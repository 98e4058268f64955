-- ===== src/Settlement/Encoder.antt =====
-- crates/settlement/src/encoder.rs, the encoder: its state, its operations and the calldata.
pub mod Prices
pub mod Runs
pub mod Layout
use cow_rs.Base.{
  ℕ, String, zero, suc, ◌+◌, ◌-◌, ◌*◌, Bool, ◌&&◌, leb, ltb, if◌then◌else◌, List, [], ◌∷◌, ◌++◌,
  length, set, take, replicate, concat,
}
use cow_rs.Base.Bytes.{Bytes}
use cow_rs.Base.Words.{u256_bytes}
use cow_rs.Types.{UnsignedOrder}
use cow_rs.Types.Trade.{
  EncodedTrade, SettlementTokenRegistry, empty_registry, index, SignatureData, encode_trade,
}
use cow_rs.Settlement.Abi.{
  EncodedInteraction, abi_encode_address_array, abi_encode_u256_array, abi_encode_trades,
  abi_encode_interaction_array,
}

pub data InteractionStage : Type 0 where
  pre intra post : InteractionStage

-- `stage as usize`.
abbrev pub stage_to_usize : InteractionStage → ℕ
stage_to_usize pre = 0
stage_to_usize intra = 1
stage_to_usize post = 2

-- `[Vec<EncodedInteraction>; 3]`.
pub record Interactions : Type 0 where
  pub before : List EncodedInteraction
  pub between : List EncodedInteraction
  pub after : List EncodedInteraction

abbrev pub stage_of : Interactions → InteractionStage → List EncodedInteraction
stage_of is pre = is.before
stage_of is intra = is.between
stage_of is post = is.after

abbrev pub push_stage : Interactions → InteractionStage → EncodedInteraction → Interactions
push_stage is pre ix = record is { before = is.before ++ ix ∷ [] }
push_stage is intra ix = record is { between = is.between ++ ix ∷ [] }
push_stage is post ix = record is { after = is.after ++ ix ∷ [] }

pub record SettlementEncoder : Type 0 where
  pub tokens : SettlementTokenRegistry
  pub clearing_prices : List ℕ
  pub trades : List EncodedTrade
  pub interactions : Interactions

unfoldable pub new_encoder : SettlementEncoder
new_encoder = record {
  tokens = empty_registry;
  clearing_prices = [];
  trades = [];
  interactions = record { before = []; between = []; after = [] };
}

-- `Vec::resize` to a length that is not smaller.
abbrev pub resize : ℕ → List ℕ → List ℕ
resize n prices = prices ++ replicate (n - length prices) 0

-- The prices are extended with zeros to cover a length.
unfoldable pub cover : ℕ → List ℕ → List ℕ
cover n prices = if ltb (length prices) n then resize n prices else prices

unfoldable pub add_token : SettlementEncoder → Bytes → SettlementEncoder × ℕ
add_token e token =
    let (tokens, idx) = index e.tokens token in
    (record e { tokens = tokens; clearing_prices = cover (idx + 1) e.clearing_prices }, idx)

unfoldable pub set_clearing_price : SettlementEncoder → ℕ → ℕ → SettlementEncoder
set_clearing_price e token_index price = record e {
  clearing_prices = set (cover (token_index + 1) e.clearing_prices) token_index price;
}

unfoldable pub add_trade : SettlementEncoder → UnsignedOrder → SignatureData → ℕ → SettlementEncoder
add_trade e order signature executed_amount =
    let (tokens, trade) = encode_trade e.tokens order signature executed_amount in
    record e {
      tokens = tokens;
      clearing_prices = cover (length tokens.tokens) e.clearing_prices;
      trades = e.trades ++ trade ∷ [];
    }

unfoldable pub add_interaction :
    SettlementEncoder → InteractionStage → Bytes → ℕ → Bytes → SettlementEncoder
add_interaction e stage target value calldata = record e {
  interactions =
      push_stage e.interactions stage
        (record { target = target; value = value; calldata = calldata });
}

-- `clear` resets every field in place.
unfoldable pub clear : SettlementEncoder → SettlementEncoder
clear e = record e {
  tokens = empty_registry;
  clearing_prices = [];
  trades = [];
  interactions = record { before = []; between = []; after = [] };
}

abbrev pub nil {ℓ} : {A : Type ℓ} → List A → Bool
nil xs = leb (length xs) 0

unfoldable pub is_empty : SettlementEncoder → Bool
is_empty e =
    nil e.trades
    && nil e.interactions.before
    && nil e.interactions.between
    && nil e.interactions.after

unfoldable pub token_count : SettlementEncoder → ℕ
token_count e = length e.tokens.tokens

unfoldable pub trade_count : SettlementEncoder → ℕ
trade_count e = length e.trades

unfoldable pub interaction_count : SettlementEncoder → InteractionStage → ℕ
interaction_count e stage = length (stage_of e.interactions stage)

unfoldable pub abi_encode_interactions : Interactions → Bytes
abi_encode_interactions is =
    let enc0 = abi_encode_interaction_array is.before in
    let enc1 = abi_encode_interaction_array is.between in
    let enc2 = abi_encode_interaction_array is.after in
    let offset0 = 3 * 32 in
    let offset1 = offset0 + length enc0 in
    let offset2 = offset1 + length enc1 in
    concat (u256_bytes offset0 ∷ u256_bytes offset1 ∷ u256_bytes offset2 ∷ [])
    ++ concat (enc0 ∷ enc1 ∷ enc2 ∷ [])

-- `keccak256` is `alloy_primitives`', here of the bytes of a text.
unfoldable pub selector : (String → Bytes) → String → Bytes
selector keccak256 sig = take 4 (keccak256 sig)

abbrev pub settle_signature : String
settle_signature =
    "settle(address[],uint256[],(uint256,uint256,address,uint256,uint256,uint32,bytes32,uint256,uint256,uint256,bytes)[],(address,uint256,bytes)[][3])"

unfoldable pub encode_settlement : (String → Bytes) → SettlementEncoder → Bytes
encode_settlement keccak256 e =
    let tokens_enc = abi_encode_address_array e.tokens.tokens in
    let prices_enc = abi_encode_u256_array e.clearing_prices in
    let trades_enc = abi_encode_trades e.trades in
    let interactions_enc = abi_encode_interactions e.interactions in
    let offset_tokens = 4 * 32 in
    let offset_prices = offset_tokens + length tokens_enc in
    let offset_trades = offset_prices + length prices_enc in
    let offset_interactions = offset_trades + length trades_enc in
    selector keccak256 settle_signature
    ++ (concat (
          u256_bytes offset_tokens
          ∷ u256_bytes offset_prices
          ∷ u256_bytes offset_trades
          ∷ u256_bytes offset_interactions
          ∷ [])
        ++ concat (tokens_enc ∷ prices_enc ∷ trades_enc ∷ interactions_enc ∷ []))

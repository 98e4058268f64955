-- ===== src/Settlement/Abi.antt =====
-- crates/settlement/src/encoder.rs, the ABI encoding of arrays, trades and interactions. `usize` and
-- `U256::from` of a length are exact.
pub mod Readers
pub mod Trades
use cow_rs.Base.{ℕ, ◌-◌, ◌*◌, ◌%◌, List, [], ◌∷◌, ◌++◌, map, length, replicate, concat}
use cow_rs.Base.Bytes.{Bytes}
use cow_rs.Base.Words.{pad_address, u256_bytes}
use cow_rs.Base.Words.Arrays.{dynamic_array}
use cow_rs.Types.Trade.{EncodedTrade}

pub record EncodedInteraction : Type 0 where
  pub target : Bytes
  pub value : ℕ
  pub calldata : Bytes

unfoldable pub abi_encode_address_array : List Bytes → Bytes
abi_encode_address_array addrs = u256_bytes (length addrs) ++ concat (map pad_address addrs)

unfoldable pub abi_encode_u256_array : List ℕ → Bytes
abi_encode_u256_array values = u256_bytes (length values) ++ concat (map u256_bytes values)

-- Bytes and the zeros up to a 32-byte boundary.
abbrev pub padded : Bytes → Bytes
padded bytes = bytes ++ replicate ((32 - length bytes % 32) % 32) 0

-- The words in front of the signature.
abbrev pub trade_words : EncodedTrade → List Bytes
trade_words t =
    u256_bytes t.sell_token_index
    ∷ u256_bytes t.buy_token_index
    ∷ pad_address t.receiver
    ∷ u256_bytes t.sell_amount
    ∷ u256_bytes t.buy_amount
    ∷ u256_bytes t.valid_to
    ∷ t.app_data
    ∷ u256_bytes t.fee_amount
    ∷ u256_bytes t.flags
    ∷ u256_bytes t.executed_amount
    ∷ u256_bytes (11 * 32)
    ∷ u256_bytes (length t.signature)
    ∷ []

unfoldable pub abi_encode_trade : EncodedTrade → Bytes
abi_encode_trade t = concat (trade_words t) ++ padded t.signature

abbrev pub interaction_words : EncodedInteraction → List Bytes
interaction_words ix =
    pad_address ix.target
    ∷ u256_bytes ix.value
    ∷ u256_bytes (3 * 32)
    ∷ u256_bytes (length ix.calldata)
    ∷ []

unfoldable pub abi_encode_interaction : EncodedInteraction → Bytes
abi_encode_interaction ix = concat (interaction_words ix) ++ padded ix.calldata

abbrev pub abi_encode_trades : List EncodedTrade → Bytes
abi_encode_trades trades = dynamic_array (map abi_encode_trade trades)

abbrev pub abi_encode_interaction_array : List EncodedInteraction → Bytes
abi_encode_interaction_array interactions = dynamic_array (map abi_encode_interaction interactions)

-- ===== src/Settlement/Tests.antt =====
-- A settlement of one trade with one interaction.
use cow_rs.Base.{
  String, ◌^◌, ◌<◌, ◌≤◌, ◌≡◌, refl, false, List, [], ◌∷◌, map, length, replicate, ok, arith,
}
use cow_rs.Base.Bytes.{Bytes, be_bytes}
use cow_rs.Base.Words.{u256, u256_bytes, pad_address}
use cow_rs.Base.Words.Layout.{IsAt, part_at}
use cow_rs.Base.Words.Arrays.{element_at, dynamic_array}
use cow_rs.Types.{sell, erc20, external, eip712, UnsignedOrder}
use cow_rs.Types.Trade.{SignatureData, EncodedTrade, decode_order}
use cow_rs.Types.Trade.RoundTrip.{normalized_order}
use cow_rs.Types.Trade.Registry.{IsConsistent}
use cow_rs.Settlement.Abi.{
  EncodedInteraction, abi_encode_address_array, abi_encode_u256_array, abi_encode_trade,
  abi_encode_interaction,
}
use cow_rs.Settlement.Encoder.{
  SettlementEncoder, new_encoder, pre, selector, abi_encode_interactions, encode_settlement,
}
use cow_rs.Settlement.Abi.Trades.{trade_at, IsTradeData}
use cow_rs.Base.{drop}
use cow_rs.Settlement.Abi.Readers.{addresses_at, u256s_at}
use cow_rs.Settlement.Encoder.Runs.{
  Operation, token, price, trade, interaction, run, orders_of, run-IsConsistent, decode_orders-run,
}
use cow_rs.Settlement.Encoder.Layout.{
  param_at, IsEncodable, encode_settlement-tokens, encode_settlement-trade,
  encode_settlement-interaction,
}

abbrev weth : Bytes
weth = replicate 20 1

abbrev dai : Bytes
dai = replicate 20 2

abbrev order : UnsignedOrder
order = record {
  sell_token = weth;
  buy_token = dai;
  receiver = replicate 20 0;
  sell_amount = 1_000;
  buy_amount = 900;
  valid_to = 1_000_000;
  app_data = replicate 32 0;
  fee_amount = 0;
  kind = sell;
  partially_fillable = false;
  sell_token_balance = erc20;
  buy_token_balance = external;
}

abbrev signature : SignatureData
signature = record { scheme = eip712; bytes = replicate 65 7 }

abbrev calls : List Operation
calls =
    token dai
    ∷ price 0 1_000
    ∷ trade order signature 0
    ∷ interaction pre weth 0 (1 ∷ 2 ∷ 3 ∷ [])
    ∷ []

decode_orders-run_example :
    map (λ t. decode_order t (run new_encoder calls).tokens.tokens) (run new_encoder calls).trades
    ≡ map (λ o. ok (normalized_order o)) (orders_of [] calls)
decode_orders-run_example = decode_orders-run calls

run-IsConsistent_example :
    IsConsistent (run new_encoder calls).tokens
    × (length (run new_encoder calls).tokens.tokens
        ≤ length (run new_encoder calls).clearing_prices)
run-IsConsistent_example = run-IsConsistent calls

abbrev encoded_trade : EncodedTrade
encoded_trade = record {
  sell_token_index = 1;
  buy_token_index = 0;
  receiver = replicate 20 0;
  sell_amount = 1_000;
  buy_amount = 900;
  valid_to = 1_000_000;
  app_data = replicate 32 0;
  fee_amount = 0;
  flags = 0;
  executed_amount = 0;
  signature = replicate 65 7;
}

encoded_trade-IsTradeData : IsTradeData encoded_trade
encoded_trade-IsTradeData = record {
  sell_token_index_fits = omega arith;
  buy_token_index_fits = omega arith;
  receiver_width = refl;
  sell_amount_fits = omega arith;
  buy_amount_fits = omega arith;
  valid_to_fits = omega arith;
  app_data_width = refl;
  fee_amount_fits = omega arith;
  flags_fit = omega arith;
  executed_amount_fits = omega arith;
  signature_fits = omega arith;
}

abbrev approval : EncodedInteraction
approval = record { target = weth; value = 0; calldata = 1 ∷ 2 ∷ 3 ∷ [] }

abbrev encoder : SettlementEncoder
encoder = record {
  tokens = record { tokens = dai ∷ weth ∷ []; token_map = (weth, 1) ∷ (dai, 0) ∷ [] };
  clearing_prices = 1_000 ∷ 0 ∷ [];
  trades = encoded_trade ∷ [];
  interactions = record { before = approval ∷ []; between = []; after = [] };
}

-- A hash of 32 bytes.
abbrev hash : String → Bytes
hash s = replicate 32 1

calldata_size : length (encode_settlement hash encoder) < 2 ^ 256
unfolding encode_settlement selector abi_encode_interactions abi_encode_address_array
    abi_encode_u256_array dynamic_array abi_encode_trade abi_encode_interaction u256_bytes
    pad_address be_bytes
calldata_size = omega arith

encoder-IsEncodable : IsEncodable hash encoder
encoder-IsEncodable = record {
  hash_width = λ s. refl;
  token_widths = (refl, (refl, tt));
  prices_fit = (omega arith, (omega arith, tt));
  size_fits = calldata_size;
}

encode_settlement-tokens_example :
    (addresses_at (encode_settlement hash encoder) (param_at (encode_settlement hash encoder) 0)
      ≡ dai ∷ weth ∷ [])
    × (u256s_at (encode_settlement hash encoder) (param_at (encode_settlement hash encoder) 1)
        ≡ 1_000 ∷ 0 ∷ [])
encode_settlement-tokens_example = encode_settlement-tokens hash encoder encoder-IsEncodable

encode_settlement-trade_example :
    (u256 (encode_settlement hash encoder) (param_at (encode_settlement hash encoder) 2) ≡ 1)
    × (trade_at (
          drop
            (element_at
              (encode_settlement hash encoder)
              (param_at (encode_settlement hash encoder) 2)
              0)
            (encode_settlement hash encoder))
        ≡ encoded_trade)
encode_settlement-trade_example =
    encode_settlement-trade hash encoder encoder-IsEncodable 0 {t = encoded_trade} refl
      encoded_trade-IsTradeData

encode_settlement-interaction_example :
    (u256
        (encode_settlement hash encoder)
        (part_at (encode_settlement hash encoder) (param_at (encode_settlement hash encoder) 3) 0)
      ≡ 1)
    × IsAt
        (abi_encode_interaction approval)
        (element_at
          (encode_settlement hash encoder)
          (part_at (encode_settlement hash encoder) (param_at (encode_settlement hash encoder) 3) 0)
          0)
        (encode_settlement hash encoder)
encode_settlement-interaction_example =
    encode_settlement-interaction hash encoder encoder-IsEncodable pre 0 {ix = approval} refl

abbrev uid : Bytes
uid = replicate 56 171

-- ===== src/Types/Tests.antt =====
-- Flags, trades and signature data at concrete values.
use cow_rs.Base.{◌≡◌, refl, true, false, [], ◌∷◌, replicate, ok}
use cow_rs.Base.Bytes.{Bytes}
use cow_rs.Types.{sell, buy, erc20, external, internal, eip712, eip1271, pre_sign, UnsignedOrder}
use cow_rs.Types.Flags.{
  OrderFlags, TradeFlags, encode_trade_flags, decode_trade_flags, decode_order_flags,
  decode_signing_scheme,
}
use cow_rs.Types.Flags.RoundTrip.{normalized, decode_trade_flags-encode_trade_flags}
use cow_rs.Types.Trade.{
  empty_registry, SignatureData, encode_trade, decode_order, Eip1271SignatureData,
}
use cow_rs.Types.Trade.Registry.{empty_registry-IsConsistent}
use cow_rs.Types.Trade.RoundTrip.{normalized_order, decode_order-encode_trade}

abbrev weth : Bytes
weth = replicate 20 1

abbrev dai : Bytes
dai = replicate 20 2

abbrev sale_flags : OrderFlags
sale_flags = record {
  kind = sell;
  partially_fillable = true;
  sell_token_balance = internal;
  buy_token_balance = external;
}

abbrev flags : TradeFlags
flags = record { order_flags = sale_flags; signing_scheme = eip1271 }

abbrev purchase_flags : TradeFlags
purchase_flags = record {
  order_flags = record {
    kind = buy;
    partially_fillable = true;
    sell_token_balance = external;
    buy_token_balance = internal;
  };
  signing_scheme = pre_sign;
}

byte_of_flags : encode_trade_flags flags ≡ 78
unfolding encode_trade_flags
byte_of_flags = refl

byte_251 : decode_trade_flags 251 ≡ ok purchase_flags
unfolding decode_trade_flags decode_order_flags decode_signing_scheme
byte_251 = refl

decode_trade_flags-encode_trade_flags_example :
    decode_trade_flags (encode_trade_flags flags)
    ≡ ok (record flags { order_flags = normalized sale_flags })
decode_trade_flags-encode_trade_flags_example = decode_trade_flags-encode_trade_flags flags

abbrev order : UnsignedOrder
order = record {
  sell_token = weth;
  buy_token = dai;
  receiver = replicate 20 0;
  sell_amount = 1_000;
  buy_amount = 900;
  valid_to = 1_000_000;
  app_data = replicate 32 0;
  fee_amount = 0;
  kind = sell;
  partially_fillable = false;
  sell_token_balance = erc20;
  buy_token_balance = external;
}

abbrev signature : SignatureData
signature = record { scheme = eip712; bytes = replicate 65 7 }

decode_order-encode_trade_example :
    decode_order
      (encode_trade empty_registry order signature 0).1
      (encode_trade empty_registry order signature 0).0.tokens
    ≡ ok (normalized_order order)
decode_order-encode_trade_example =
    decode_order-encode_trade empty_registry order signature 0 empty_registry-IsConsistent

abbrev contract_signature : Eip1271SignatureData
contract_signature = record { verifier = weth; signature = 1 ∷ 2 ∷ 3 ∷ [] }

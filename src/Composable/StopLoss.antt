-- ===== src/Composable/StopLoss.antt =====
-- crates/composable/src/stop_loss.rs: orders that trigger at a strike price.
pub mod Codec
use cow_rs.Base.{
  ℕ, zero, suc, ◌+◌, ◌-◌, ◌*◌, ◌/◌, ◌%◌, ◌^◌, ◌<◌, ◌≤◌, ◌≡◌, refl, sym, ◌∙◌, ap, ◌≢◌, ◌↔◌, Bool,
  true, false, not, ◌&&◌, ltb, leb, ◌==◌, if◌then◌else◌, Option, none, some, List, [], ◌∷◌, ◌++◌,
  length, concat, get_or, All, Result, ok, err, ◌>>=◌, ◌>>◌, fail_if, app_data, arith, le→ltb,
  Bool-cases,
}
use cow_rs.Base.Bytes.{Bytes, be_bytes, bytes_eq, bytes_eq_iff}
use cow_rs.Base.Words.{
  IsWord, IsAddress, pad_address, u256_bytes, u256_be, bool_word, addr, u256, u32v, bool_v, b256,
}
use cow_rs.Base.Words.Rows.{
  pad_address-IsWord, u256_bytes-IsWord, u256_be-IsWord, bool_word-IsWord, length-concat,
}
use cow_rs.Base.Words.Read.{addr_at, u32v_at, u256_at, b256_at, bool_at}
use cow_rs.Composable.Types.{ConditionalOrderParams, GpV2OrderStruct}
use cow_rs.Composable.Twap.{twap_handler_address}

pub record StopLossData : Type 0 where
  pub sell_token : Bytes
  pub buy_token : Bytes
  pub sell_amount : ℕ
  pub buy_amount : ℕ
  pub app_data : Bytes
  pub receiver : Bytes
  pub is_sell_order : Bool
  pub is_partially_fillable : Bool
  pub valid_to : ℕ
  pub strike_price : ℕ
  pub sell_token_price_oracle : Bytes
  pub buy_token_price_oracle : Bytes
  pub token_amount_in_eth : Bool

pub record StopLossOrder : Type 0 where
  pub terms : StopLossData
  pub salt : Bytes

abbrev pub stop_loss_handler_address : Bytes
stop_loss_handler_address =
    0xe8 ∷ 0x21 ∷ 0x2f ∷ 0x30 ∷ 0xc2 ∷ 0x8b ∷ 0x4a ∷ 0xab ∷ 0x46 ∷ 0x7d ∷ 0xf3 ∷ 0x72 ∷ 0x5c ∷ 0x14
    ∷ 0xd6 ∷ 0xe8 ∷ 0x9c ∷ 0x2e ∷ 0xb9 ∷ 0x72 ∷ []

unfoldable pub is_valid : StopLossOrder → Bool
is_valid order =
    let d = order.terms in
    not (d.sell_amount == 0) && not (d.buy_amount == 0) && not (bytes_eq d.sell_token d.buy_token)

-- The words of the encoding, in order.
abbrev pub stop_loss_words : StopLossData → List Bytes
stop_loss_words d =
    pad_address d.sell_token
    ∷ pad_address d.buy_token
    ∷ u256_bytes d.sell_amount
    ∷ u256_bytes d.buy_amount
    ∷ d.app_data
    ∷ pad_address d.receiver
    ∷ bool_word d.is_sell_order
    ∷ bool_word d.is_partially_fillable
    ∷ u256_be d.valid_to
    ∷ u256_bytes d.strike_price
    ∷ pad_address d.sell_token_price_oracle
    ∷ pad_address d.buy_token_price_oracle
    ∷ bool_word d.token_amount_in_eth
    ∷ []

unfoldable pub encode_stop_loss_struct : StopLossData → Bytes
encode_stop_loss_struct d = concat (stop_loss_words d)

abbrev pub stop_loss_at : Bytes → StopLossData
stop_loss_at bytes = record {
  sell_token = addr bytes 0;
  buy_token = addr bytes 32;
  sell_amount = u256 bytes 64;
  buy_amount = u256 bytes 96;
  app_data = b256 bytes 128;
  receiver = addr bytes 160;
  is_sell_order = bool_v bytes 192;
  is_partially_fillable = bool_v bytes 224;
  valid_to = u32v bytes 256;
  strike_price = u256 bytes 288;
  sell_token_price_oracle = addr bytes 320;
  buy_token_price_oracle = addr bytes 352;
  token_amount_in_eth = bool_v bytes 384;
}

unfoldable pub decode_stop_loss_static_input : Bytes → Result StopLossData
decode_stop_loss_static_input bytes = do
  fail_if (ltb (length bytes) (13 * 32)) (app_data "StopLoss static input too short")
  ok (stop_loss_at bytes)

unfoldable pub to_params : StopLossOrder → Result ConditionalOrderParams
to_params order = ok (record {
  handler = stop_loss_handler_address;
  salt = order.salt;
  static_input = encode_stop_loss_struct order.terms;
})

unfoldable pub salt_preimage : StopLossData → Bytes
salt_preimage d =
    d.sell_token ++ d.buy_token ++ u256_bytes d.sell_amount ++ u256_bytes d.strike_price

-- `StopLossOrder::new`.
unfoldable pub new_order : (Bytes → Bytes) → StopLossData → StopLossOrder
new_order keccak256 d = record { terms = d; salt = keccak256 (salt_preimage d) }

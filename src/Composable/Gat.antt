-- ===== src/Composable/Gat.antt =====
-- crates/composable/src/gat.rs: orders that are good after a time.
pub mod Codec
use cow_rs.Base.{
  ℕ, zero, suc, ◌+◌, ◌-◌, ◌*◌, ◌/◌, ◌%◌, ◌^◌, ◌<◌, ◌≤◌, ◌≡◌, refl, sym, ◌∙◌, ap, ◌≢◌, ◌↔◌, Bool,
  true, false, not, ◌&&◌, ltb, leb, ◌==◌, if◌then◌else◌, Option, none, some, List, [], ◌∷◌, ◌++◌,
  length, concat, get_or, All, Result, ok, err, ◌>>=◌, ◌>>◌, fail_if, app_data, arith, le→ltb,
  Bool-cases,
}
use cow_rs.Base.Bytes.{Bytes, be_bytes, bytes_eq, bytes_eq_iff}
use cow_rs.Base.Words.{
  IsWord, IsAddress, pad_address, u256_bytes, u256_be, bool_word, addr, u256, u32v, bool_v, b256,
}
use cow_rs.Base.Words.Rows.{
  pad_address-IsWord, u256_bytes-IsWord, u256_be-IsWord, bool_word-IsWord, length-concat,
}
use cow_rs.Base.Words.Read.{addr_at, u32v_at, u256_at, b256_at, bool_at}
use cow_rs.Composable.Types.{ConditionalOrderParams, GpV2OrderStruct}
use cow_rs.Composable.Twap.{twap_handler_address}

pub record GatData : Type 0 where
  pub order : GpV2OrderStruct
  pub start_time : ℕ
  pub tx_deadline : ℕ

pub record GatOrder : Type 0 where
  pub terms : GatData
  pub salt : Bytes

abbrev pub gat_handler_address : Bytes
gat_handler_address = twap_handler_address

unfoldable pub is_valid : GatOrder → Bool
is_valid order =
    let d = order.terms in
    let o = d.order in
    not (o.sell_amount == 0)
    && not (o.buy_amount == 0)
    && not (bytes_eq o.sell_token o.buy_token)
    && leb d.start_time d.tx_deadline

-- The words of the encoding, in order.
abbrev pub order_words : GpV2OrderStruct → List Bytes
order_words o =
    pad_address o.sell_token
    ∷ pad_address o.buy_token
    ∷ pad_address o.receiver
    ∷ u256_bytes o.sell_amount
    ∷ u256_bytes o.buy_amount
    ∷ u256_be o.valid_to
    ∷ o.app_data
    ∷ u256_bytes o.fee_amount
    ∷ o.kind
    ∷ bool_word o.partially_fillable
    ∷ o.sell_token_balance
    ∷ o.buy_token_balance
    ∷ []

abbrev pub gat_words : GatData → List Bytes
gat_words d = order_words d.order ++ u256_be d.start_time ∷ u256_be d.tx_deadline ∷ []

unfoldable pub encode_gat_struct : GatData → Bytes
encode_gat_struct d = concat (gat_words d)

abbrev pub order_at : Bytes → GpV2OrderStruct
order_at bytes = record {
  sell_token = addr bytes 0;
  buy_token = addr bytes 32;
  receiver = addr bytes 64;
  sell_amount = u256 bytes 96;
  buy_amount = u256 bytes 128;
  valid_to = u32v bytes 160;
  app_data = b256 bytes 192;
  fee_amount = u256 bytes 224;
  kind = b256 bytes 256;
  partially_fillable = bool_v bytes 288;
  sell_token_balance = b256 bytes 320;
  buy_token_balance = b256 bytes 352;
}

unfoldable pub decode_gat_static_input : Bytes → Result GatData
decode_gat_static_input bytes = do
  fail_if (ltb (length bytes) (14 * 32)) (app_data "GAT static input too short")
  ok (record { order = order_at bytes; start_time = u32v bytes 384; tx_deadline = u32v bytes 416 })

unfoldable pub to_params : GatOrder → Result ConditionalOrderParams
to_params order = ok (record {
  handler = gat_handler_address;
  salt = order.salt;
  static_input = encode_gat_struct order.terms;
})

unfoldable pub salt_preimage : GatData → Bytes
salt_preimage d =
    let o = d.order in
    o.sell_token
    ++ o.buy_token
    ++ u256_bytes o.sell_amount
    ++ be_bytes 4 d.start_time
    ++ be_bytes 4 d.tx_deadline

-- `GatOrder::new`.
unfoldable pub new_order : (Bytes → Bytes) → GatData → GatOrder
new_order keccak256 d = record { terms = d; salt = keccak256 (salt_preimage d) }

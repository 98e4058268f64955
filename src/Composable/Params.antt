-- ===== src/Composable/Params.antt =====
-- crates/composable/src/twap.rs, the parameters of a conditional order: their identity and their
-- ABI encoding, as bytes and as hexadecimal text.
pub mod RoundTrip
use cow_rs.Base.{
  ℕ, ◌+◌, ◌^◌, Bool, leb, ltb, if◌then◌else◌, Option, none, some, List, [], ◌∷◌, ◌++◌, length,
  concat, Result, ok, err, ◌>>=◌, ◌>>◌, fail_if, or_fail, app_data, CowError,
}
use cow_rs.Base.Bytes.{Bytes}
use cow_rs.Base.Hex.{Text, HexCodec, trim_start_0x, prefix_0x}
use cow_rs.Base.Words.{pad_address, u256_be, pad_into, addr, u256, b256, slice}
use cow_rs.Composable.Types.{ConditionalOrderParams}

-- The four words in front of the input, and the padded input.
abbrev pub head_words : ConditionalOrderParams → List Bytes
head_words p = pad_address p.handler ∷ p.salt ∷ u256_be 96 ∷ u256_be (length p.static_input) ∷ []

unfoldable pub params_bytes : ConditionalOrderParams → Bytes
params_bytes p = concat (head_words p) ++ pad_into p.static_input

-- `keccak256` is `alloy_primitives`'.
unfoldable pub order_id : (Bytes → Bytes) → ConditionalOrderParams → Bytes
order_id keccak256 p = keccak256 (params_bytes p)

unfoldable pub encode_params : HexCodec → ConditionalOrderParams → Text
encode_params hex p = prefix_0x (hex.encode (params_bytes p))

-- Decoding of the bytes; `usize` has 64 bits, and the offset word is not read.
unfoldable pub decode_params_bytes : Bytes → Result ConditionalOrderParams
decode_params_bytes bytes = do
  fail_if (ltb (length bytes) 128) (app_data "decode_params: too short")
  let data_len = u256 bytes 96
  fail_if (leb (2 ^ 64) data_len) (app_data "decode_params: static_input length overflow")
  fail_if (leb (2 ^ 64) (128 + data_len)) (app_data "decode_params: static_input length overflow")
  let data_end = 128 + data_len
  fail_if (ltb (length bytes) data_end) (app_data "decode_params: data truncated")
  ok (record {
    handler = addr bytes 0;
    salt = b256 bytes 32;
    static_input = slice 128 data_end bytes;
  })

unfoldable pub decode_params : HexCodec → Text → Result ConditionalOrderParams
decode_params hex text = do
  bytes ← or_fail (hex.decode (trim_start_0x text)) (app_data "decode_params hex")
  decode_params_bytes bytes

-- ===== src/Composable/Utils.antt =====
-- crates/composable/src/utils.rs: the conversions from and to raw contract data. A panic is `none`.
pub mod Raw
use cow_rs.Base.{
  ℕ, ◌+◌, ◌^◌, ltb, leb, if◌then◌else◌, Option, none, some, length, Result, ok, err, app_data,
}
use cow_rs.Base.Bytes.{Bytes}
use cow_rs.Base.Hex.{Text, HexCodec}
use cow_rs.Base.Words.{addr, b256, u256, slice}
use cow_rs.Composable.Types.{ConditionalOrderParams}
use cow_rs.Composable.Params.{encode_params}

-- The input behind its length word at `offset`; a slice that ends behind the buffer panics.
abbrev pub input_at : Bytes → ℕ → Option (Result ConditionalOrderParams)
input_at bytes offset =
    let data_len = u256 bytes offset in
    let start = offset + 32 in
    if leb (2 ^ 64) data_len
    then some (err (app_data "invalid data length"))
    else if ltb (length bytes) (start + data_len)
    then none
    else some (
        ok (record {
          handler = addr bytes 0;
          salt = b256 bytes 32;
          static_input = slice start (start + data_len) bytes;
        }))

unfoldable pub transform_data_to_struct : Bytes → Option (Result ConditionalOrderParams)
transform_data_to_struct bytes =
    let data_offset = u256 bytes 64 in
    if ltb (length bytes) 128
    then some (err (app_data "data too short for ConditionalOrderParams"))
    else if leb (2 ^ 64) data_offset
    then some (err (app_data "invalid offset"))
    else if ltb (length bytes) (data_offset + 32)
    then none
    else input_at bytes data_offset

unfoldable pub transform_struct_to_data : HexCodec → ConditionalOrderParams → Text
transform_struct_to_data hex params = encode_params hex params

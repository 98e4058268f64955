-- ===== src/Composable/Utils/Raw.antt =====
-- Raw contract data: what is read back, and when the code panics.
use cow_rs.Base.{◌+◌, ◌^◌, ◌<◌, ◌≤◌, ◌≡◌, ◌↔◌, ◌⊎◌, none, some, length, ok, arith, le→ltb, lt→leb}
use cow_rs.Base.Bytes.{Bytes}
use cow_rs.Base.Words.{u256}
use cow_rs.Composable.Types.{ConditionalOrderParams}
use cow_rs.Composable.Params.{params_bytes}
use cow_rs.Composable.Params.RoundTrip.{
  IsParams, params_bytes-ge, read_handler, read_salt, read_offset, read_length, read_input,
}
use cow_rs.Composable.Utils.{transform_data_to_struct}

-- The encoding of parameters whose handler has 20 bytes, whose salt has 32 and whose input with
-- 128 bytes more is shorter than 2 ^ 64 is converted back to them.
transform_data_to_struct-params_bytes :
    (p : ConditionalOrderParams)
    → IsParams p
    → transform_data_to_struct (params_bytes p) ≡ some (ok p)
unfolding transform_data_to_struct
transform_data_to_struct-params_bytes p h =
    let fits = h.input_fits in
    let size = params_bytes-ge p h in
    rw (
      read_offset p h,
      read_length p h,
      le→ltb (length (params_bytes p)) 128 (omega arith),
      lt→leb (2 ^ 64) (length p.static_input) (omega arith),
      le→ltb (length (params_bytes p)) (96 + 32 + length p.static_input) (omega arith),
      read_handler p h,
      read_salt p h,
      read_input p h,
    )

-- Data of 128 bytes or more, with an offset below 2 ^ 64, makes the code panic just when the
-- length word at the offset is not inside the data, or is below 2 ^ 64 and the input of that
-- length is not inside it.
pub transform_data_to_struct-eq-none_iff :
    (bytes : Bytes)
    → 128 ≤ length bytes
    → u256 bytes 64 < 2 ^ 64
    → (transform_data_to_struct bytes ≡ none) ↔ (
        (length bytes < u256 bytes 64 + 32)
        ⊎ ((u256 bytes (u256 bytes 64) < 2 ^ 64)
            × (length bytes < u256 bytes 64 + 32 + u256 bytes (u256 bytes 64))))
unfolding transform_data_to_struct
transform_data_to_struct-eq-none_iff bytes long offset = ground arith

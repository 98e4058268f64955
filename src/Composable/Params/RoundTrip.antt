-- ===== src/Composable/Params/RoundTrip.antt =====
-- The parameters of a conditional order are read back from their encoding.
use mathlib.Core.List.{append-nil}
use cow_rs.Base.{
  ◌+◌, ◌-◌, ◌^◌, ◌<◌, ◌≤◌, ◌≡◌, refl, ◌∙◌, [], length, concat, All, ok, arith, le→ltb, lt→leb,
  length-append, drop-append, All-append,
}
use cow_rs.Base.Bytes.{Bytes}
use cow_rs.Base.Words.{pad_into, pad_address, u256_be, IsWord, IsAddress, addr, u256, b256, slice}
use cow_rs.Base.Hex.{IsByte, HexCodec, trim_start_0x-prefix_0x}
use cow_rs.Base.Hex.Words.{pad_address-IsByte, u256_be-IsByte, pad_into-IsByte}
use cow_rs.Base.Words.Rows.{
  pad_address-IsWord, u256_be-IsWord, length-concat, take-pad_into, length-pad_into, pad32_len-le,
}
use cow_rs.Base.Words.Read.{addr_at, b256_at, u64_at, addr-append, b256-append, u256-append}
use cow_rs.Composable.Types.{ConditionalOrderParams}
use cow_rs.Composable.Params.{
  head_words, params_bytes, decode_params_bytes, encode_params, decode_params,
}

-- The fields have the widths of their types, and the input fits the address space.
pub record IsParams (p : ConditionalOrderParams) : Type 0 where
  pub handler_width : IsAddress p.handler
  pub salt_width : IsWord p.salt
  pub input_fits : length p.static_input + 128 < 2 ^ 64

pub head_words-IsWord : (p : ConditionalOrderParams) → IsParams p → All IsWord (head_words p)
head_words-IsWord p h = (
  pad_address-IsWord p.handler h.handler_width,
  (h.salt_width, (u256_be-IsWord 96, (u256_be-IsWord (length p.static_input), tt))),
)

params_bytes-IsByte :
    (p : ConditionalOrderParams)
    → All IsByte p.handler
    → All IsByte p.salt
    → All IsByte p.static_input
    → All IsByte (params_bytes p)
unfolding params_bytes
params_bytes-IsByte p b₁ b₂ b₃ =
    All-append IsByte (concat (head_words p)) (pad_into p.static_input)
      (All-append IsByte (pad_address p.handler) _ (pad_address-IsByte p.handler b₁) (
        All-append IsByte p.salt _ b₂ (
          All-append IsByte (u256_be 96) _ (u256_be-IsByte 96) (
            All-append IsByte (u256_be (length p.static_input)) []
              (u256_be-IsByte (length p.static_input)) tt))))
      (pad_into-IsByte p.static_input b₃)

module _ (p : ConditionalOrderParams) (h : IsParams p) where
  abbrev head : Bytes
  head = concat (head_words p)

  words : All IsWord (head_words p)
  words = head_words-IsWord p h

  length-head : length head ≡ 128
  length-head = length-concat (head_words p) words

  pub params_bytes-ge : 128 + length p.static_input ≤ length (params_bytes p)
  unfolding params_bytes
  params_bytes-ge = omega (
    arith,
    length-head,
    length-append head (pad_into p.static_input),
    length-pad_into p.static_input,
    pad32_len-le (length p.static_input),
  )

  pub read_handler : addr (params_bytes p) 0 ≡ p.handler
  unfolding params_bytes
  read_handler =
      addr-append head (pad_into p.static_input) 0 (omega (arith, length-head))
      ∙ addr_at (head_words p) 0 words (omega arith) p.handler refl h.handler_width

  pub read_salt : b256 (params_bytes p) 32 ≡ p.salt
  unfolding params_bytes
  read_salt =
      b256-append head (pad_into p.static_input) 32 (omega (arith, length-head))
      ∙ b256_at (head_words p) 1 words (omega arith) p.salt refl

  pub read_offset : u256 (params_bytes p) 64 ≡ 96
  unfolding params_bytes
  read_offset =
      u256-append head (pad_into p.static_input) 64 (omega (arith, length-head))
      ∙ u64_at (head_words p) 2 words (omega arith) 96 refl (omega arith)

  pub read_length : u256 (params_bytes p) 96 ≡ length p.static_input
  unfolding params_bytes
  read_length =
      let fits = h.input_fits in
      u256-append head (pad_into p.static_input) 96 (omega (arith, length-head))
      ∙ u64_at (head_words p) 3 words (omega arith) (length p.static_input) refl (omega arith)

  pub read_input : slice 128 (128 + length p.static_input) (params_bytes p) ≡ p.static_input
  unfolding params_bytes
  read_input =
      let size : 128 + length p.static_input - 128 ≡ length p.static_input = omega arith in
      rw
        (
          size,
          drop-append 128 head (pad_into p.static_input) length-head,
          ← append-nil (pad_into p.static_input),
        )
        (take-pad_into p.static_input [])

  -- Decoding the encoded bytes gives the parameters back.
  pub decode_params_bytes-params_bytes : decode_params_bytes (params_bytes p) ≡ ok p
  unfolding decode_params_bytes
  decode_params_bytes-params_bytes =
      let fits = h.input_fits in
      let size = params_bytes-ge in
      rw (
        read_length,
        le→ltb (length (params_bytes p)) 128 (omega arith),
        lt→leb (2 ^ 64) (length p.static_input) (omega arith),
        lt→leb (2 ^ 64) (128 + length p.static_input) (omega arith),
        le→ltb (length (params_bytes p)) (128 + length p.static_input) size,
        read_handler,
        read_salt,
        read_input,
      )

  -- Where handler and salt have 20 and 32 bytes, all values are bytes and the input with 128 bytes
  -- more is shorter than 2 ^ 64, decoding the encoded text gives the parameters back.
  pub decode_params-encode_params :
      (hex : HexCodec)
      → All IsByte p.handler
      → All IsByte p.salt
      → All IsByte p.static_input
      → decode_params hex (encode_params hex p) ≡ ok p
  unfolding decode_params encode_params
  decode_params-encode_params hex b₁ b₂ b₃ =
      let bytes = params_bytes-IsByte p b₁ b₂ b₃ in
      rw
        (
          trim_start_0x-prefix_0x (hex.encode (params_bytes p))
              (hex.no_marker (params_bytes p) bytes),
          hex.decode_encode (params_bytes p) bytes,
        )
        decode_params_bytes-params_bytes

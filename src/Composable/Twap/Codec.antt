-- ===== src/Composable/Twap/Codec.antt =====
-- The ABI encoding of a TWAP struct is read back.
use cow_rs.Base.{◌^◌, ◌<◌, ◌≡◌, refl, length, concat, All, ok, arith, le→ltb}
use cow_rs.Base.Words.{IsWord, IsAddress}
use cow_rs.Base.Words.Rows.{pad_address-IsWord, u256_bytes-IsWord, u256_be-IsWord, length-concat}
use cow_rs.Base.Words.Read.{addr_at, u32v_at, u256_at, b256_at}
use cow_rs.Composable.Types.{TwapStruct}
use cow_rs.Composable.Twap.{twap_words, encode_twap_struct, decode_twap_struct}

-- The fields have the widths of their types.
pub record IsTwapStruct (s : TwapStruct) : Type 0 where
  pub sell_token_width : IsAddress s.sell_token
  pub buy_token_width : IsAddress s.buy_token
  pub receiver_width : IsAddress s.receiver
  pub part_sell_fits : s.part_sell_amount < 2 ^ 256
  pub min_part_fits : s.min_part_limit < 2 ^ 256
  pub t0_fits : s.t0 < 2 ^ 32
  pub n_fits : s.n < 2 ^ 32
  pub t_fits : s.t < 2 ^ 32
  pub span_fits : s.span < 2 ^ 32
  pub app_data_width : IsWord s.app_data

twap_words-IsWord : (s : TwapStruct) → IsTwapStruct s → All IsWord (twap_words s)
twap_words-IsWord s h = (
  pad_address-IsWord s.sell_token h.sell_token_width,
  (
    pad_address-IsWord s.buy_token h.buy_token_width,
    (
      pad_address-IsWord s.receiver h.receiver_width,
      (
        u256_bytes-IsWord s.part_sell_amount,
        (
          u256_bytes-IsWord s.min_part_limit,
          (
            u256_be-IsWord s.t0,
            (
              u256_be-IsWord s.n,
              (u256_be-IsWord s.t, (u256_be-IsWord s.span, (h.app_data_width, tt))),
            ),
          ),
        ),
      ),
    ),
  ),
)

-- Decoding an encoded struct gives it back, where addresses have 20 bytes, the app data 32,
-- amounts are below 2 ^ 256 and the other numbers below 2 ^ 32.
decode_twap_struct-encode_twap_struct :
    (s : TwapStruct) → IsTwapStruct s → decode_twap_struct (encode_twap_struct s) ≡ ok s
unfolding decode_twap_struct encode_twap_struct
decode_twap_struct-encode_twap_struct s h =
    let ws = twap_words s in
    let words = twap_words-IsWord s h in
    rw (
      le→ltb (length (concat ws)) 320 (omega (arith, length-concat ws words)),
      addr_at ws 0 words (omega arith) s.sell_token refl h.sell_token_width,
      addr_at ws 1 words (omega arith) s.buy_token refl h.buy_token_width,
      addr_at ws 2 words (omega arith) s.receiver refl h.receiver_width,
      u256_at ws 3 words (omega arith) s.part_sell_amount refl h.part_sell_fits,
      u256_at ws 4 words (omega arith) s.min_part_limit refl h.min_part_fits,
      u32v_at ws 5 words (omega arith) s.t0 refl h.t0_fits,
      u32v_at ws 6 words (omega arith) s.n refl h.n_fits,
      u32v_at ws 7 words (omega arith) s.t refl h.t_fits,
      u32v_at ws 8 words (omega arith) s.span refl h.span_fits,
      b256_at ws 9 words (omega arith) s.app_data refl,
    )

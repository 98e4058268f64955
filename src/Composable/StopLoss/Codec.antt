-- ===== src/Composable/StopLoss/Codec.antt =====
-- The ABI encoding of a stop-loss order is read back.
use cow_rs.Base.{◌^◌, ◌<◌, ◌≡◌, refl, length, concat, All, ok, ◌>>=◌, arith, le→ltb}
use cow_rs.Base.Words.{IsWord, IsAddress}
use cow_rs.Base.Words.Rows.{
  pad_address-IsWord, u256_bytes-IsWord, u256_be-IsWord, bool_word-IsWord, length-concat,
}
use cow_rs.Base.Words.Read.{addr_at, u32v_at, u256_at, b256_at, bool_at}
use cow_rs.Composable.StopLoss.{
  StopLossData, StopLossOrder, stop_loss_words, encode_stop_loss_struct, stop_loss_at,
  decode_stop_loss_static_input, to_params,
}

-- The fields have the widths of their types.
pub record IsStopLossData (d : StopLossData) : Type 0 where
  pub sell_token_width : IsAddress d.sell_token
  pub buy_token_width : IsAddress d.buy_token
  pub sell_amount_fits : d.sell_amount < 2 ^ 256
  pub buy_amount_fits : d.buy_amount < 2 ^ 256
  pub app_data_width : IsWord d.app_data
  pub receiver_width : IsAddress d.receiver
  pub valid_to_fits : d.valid_to < 2 ^ 32
  pub strike_price_fits : d.strike_price < 2 ^ 256
  pub sell_token_price_oracle_width : IsAddress d.sell_token_price_oracle
  pub buy_token_price_oracle_width : IsAddress d.buy_token_price_oracle

stop_loss_words-IsWord : (d : StopLossData) → IsStopLossData d → All IsWord (stop_loss_words d)
stop_loss_words-IsWord d h = (
  pad_address-IsWord d.sell_token h.sell_token_width,
  (
    pad_address-IsWord d.buy_token h.buy_token_width,
    (
      u256_bytes-IsWord d.sell_amount,
      (
        u256_bytes-IsWord d.buy_amount,
        (
          h.app_data_width,
          (
            pad_address-IsWord d.receiver h.receiver_width,
            (
              bool_word-IsWord d.is_sell_order,
              (
                bool_word-IsWord d.is_partially_fillable,
                (
                  u256_be-IsWord d.valid_to,
                  (
                    u256_bytes-IsWord d.strike_price,
                    (
                      pad_address-IsWord d.sell_token_price_oracle h.sell_token_price_oracle_width,
                      (
                        pad_address-IsWord d.buy_token_price_oracle h.buy_token_price_oracle_width,
                        (bool_word-IsWord d.token_amount_in_eth, tt),
                      ),
                    ),
                  ),
                ),
              ),
            ),
          ),
        ),
      ),
    ),
  ),
)

stop_loss_at-stop_loss_words :
    (d : StopLossData) → IsStopLossData d → stop_loss_at (concat (stop_loss_words d)) ≡ d
stop_loss_at-stop_loss_words d h =
    let ws = stop_loss_words d in
    let words = stop_loss_words-IsWord d h in
    rw (
      addr_at ws 0 words (omega arith) d.sell_token refl h.sell_token_width,
      addr_at ws 1 words (omega arith) d.buy_token refl h.buy_token_width,
      u256_at ws 2 words (omega arith) d.sell_amount refl h.sell_amount_fits,
      u256_at ws 3 words (omega arith) d.buy_amount refl h.buy_amount_fits,
      b256_at ws 4 words (omega arith) d.app_data refl,
      addr_at ws 5 words (omega arith) d.receiver refl h.receiver_width,
      bool_at ws 6 words (omega arith) d.is_sell_order refl,
      bool_at ws 7 words (omega arith) d.is_partially_fillable refl,
      u32v_at ws 8 words (omega arith) d.valid_to refl h.valid_to_fits,
      u256_at ws 9 words (omega arith) d.strike_price refl h.strike_price_fits,
      addr_at ws 10 words (omega arith) d.sell_token_price_oracle refl
          h.sell_token_price_oracle_width,
      addr_at ws 11 words (omega arith) d.buy_token_price_oracle refl
          h.buy_token_price_oracle_width,
      bool_at ws 12 words (omega arith) d.token_amount_in_eth refl,
    )

-- The static input that an order is submitted with decodes to its data, where the fields have the
-- widths of their types.
decode_stop_loss-to_params :
    (order : StopLossOrder)
    → IsStopLossData order.terms
    → (to_params order >>= λ params. decode_stop_loss_static_input params.static_input)
      ≡ ok order.terms
unfolding decode_stop_loss_static_input encode_stop_loss_struct to_params
decode_stop_loss-to_params order h =
    let ws = stop_loss_words order.terms in
    let words = stop_loss_words-IsWord order.terms h in
    rw (
      le→ltb (length (concat ws)) 416 (omega (arith, length-concat ws words)),
      stop_loss_at-stop_loss_words order.terms h,
    )

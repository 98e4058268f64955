-- ===== src/Composable/Gat/Codec.antt =====
-- The ABI encoding of a good-after-time order is read back.
use cow_rs.Base.{◌^◌, ◌<◌, ◌≡◌, refl, length, concat, All, ok, ◌>>=◌, arith, le→ltb}
use cow_rs.Base.Words.{IsWord, IsAddress}
use cow_rs.Base.Words.Rows.{
  pad_address-IsWord, u256_bytes-IsWord, u256_be-IsWord, bool_word-IsWord, length-concat,
}
use cow_rs.Base.Words.Read.{addr_at, u32v_at, u256_at, b256_at, bool_at}
use cow_rs.Composable.Types.{GpV2OrderStruct}
use cow_rs.Composable.Gat.{
  GatData, GatOrder, gat_words, encode_gat_struct, order_at, decode_gat_static_input, to_params,
}

-- The fields have the widths of their types.
pub record IsOrderStruct (o : GpV2OrderStruct) : Type 0 where
  pub sell_token_width : IsAddress o.sell_token
  pub buy_token_width : IsAddress o.buy_token
  pub receiver_width : IsAddress o.receiver
  pub sell_amount_fits : o.sell_amount < 2 ^ 256
  pub buy_amount_fits : o.buy_amount < 2 ^ 256
  pub valid_to_fits : o.valid_to < 2 ^ 32
  pub app_data_width : IsWord o.app_data
  pub fee_amount_fits : o.fee_amount < 2 ^ 256
  pub kind_width : IsWord o.kind
  pub sell_token_balance_width : IsWord o.sell_token_balance
  pub buy_token_balance_width : IsWord o.buy_token_balance

pub record IsGatData (d : GatData) : Type 0 where
  pub order_widths : IsOrderStruct d.order
  pub start_time_fits : d.start_time < 2 ^ 32
  pub tx_deadline_fits : d.tx_deadline < 2 ^ 32

gat_words-IsWord : (d : GatData) → IsGatData d → All IsWord (gat_words d)
gat_words-IsWord d h =
    let o = d.order in
    let w = h.order_widths in
    (
      pad_address-IsWord o.sell_token w.sell_token_width,
      (
        pad_address-IsWord o.buy_token w.buy_token_width,
        (
          pad_address-IsWord o.receiver w.receiver_width,
          (
            u256_bytes-IsWord o.sell_amount,
            (
              u256_bytes-IsWord o.buy_amount,
              (
                u256_be-IsWord o.valid_to,
                (
                  w.app_data_width,
                  (
                    u256_bytes-IsWord o.fee_amount,
                    (
                      w.kind_width,
                      (
                        bool_word-IsWord o.partially_fillable,
                        (
                          w.sell_token_balance_width,
                          (
                            w.buy_token_balance_width,
                            (u256_be-IsWord d.start_time, (u256_be-IsWord d.tx_deadline, tt)),
                          ),
                        ),
                      ),
                    ),
                  ),
                ),
              ),
            ),
          ),
        ),
      ),
    )

order_at-gat_words : (d : GatData) → IsGatData d → order_at (concat (gat_words d)) ≡ d.order
order_at-gat_words d h =
    let o = d.order in
    let w = h.order_widths in
    let ws = gat_words d in
    let words = gat_words-IsWord d h in
    rw (
      addr_at ws 0 words (omega arith) o.sell_token refl w.sell_token_width,
      addr_at ws 1 words (omega arith) o.buy_token refl w.buy_token_width,
      addr_at ws 2 words (omega arith) o.receiver refl w.receiver_width,
      u256_at ws 3 words (omega arith) o.sell_amount refl w.sell_amount_fits,
      u256_at ws 4 words (omega arith) o.buy_amount refl w.buy_amount_fits,
      u32v_at ws 5 words (omega arith) o.valid_to refl w.valid_to_fits,
      b256_at ws 6 words (omega arith) o.app_data refl,
      u256_at ws 7 words (omega arith) o.fee_amount refl w.fee_amount_fits,
      b256_at ws 8 words (omega arith) o.kind refl,
      bool_at ws 9 words (omega arith) o.partially_fillable refl,
      b256_at ws 10 words (omega arith) o.sell_token_balance refl,
      b256_at ws 11 words (omega arith) o.buy_token_balance refl,
    )

-- The static input that an order is submitted with decodes to its data, where the fields have the
-- widths of their types.
decode_gat-to_params :
    (order : GatOrder)
    → IsGatData order.terms
    → (to_params order >>= λ params. decode_gat_static_input params.static_input) ≡ ok order.terms
unfolding decode_gat_static_input encode_gat_struct to_params
decode_gat-to_params order h =
    let d = order.terms in
    let ws = gat_words d in
    let words = gat_words-IsWord d h in
    rw (
      le→ltb (length (concat ws)) 448 (omega (arith, length-concat ws words)),
      order_at-gat_words d h,
      u32v_at ws 12 words (omega arith) d.start_time refl h.start_time_fits,
      u32v_at ws 13 words (omega arith) d.tx_deadline refl h.tx_deadline_fits,
    )

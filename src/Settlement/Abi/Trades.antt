-- ===== src/Settlement/Abi/Trades.antt =====
-- The encoding of a trade is read back.
use mathlib.Core.List.{append_assoc}
use cow_rs.Base.{
  ℕ, ◌+◌, ◌-◌, ◌*◌, ◌%◌, ◌^◌, ◌<◌, ◌≡◌, refl, ◌∙◌, [], ◌++◌, length, take, drop, concat, replicate,
  All, arith, get_or, take-append, drop-append,
}
use cow_rs.Base.Bytes.{Bytes}
use cow_rs.Base.Words.{IsWord, IsAddress, u256_bytes, addr, u256, b256}
use cow_rs.Base.Words.Rows.{u256_bytes-IsWord, pad_address-IsWord, length-concat}
use cow_rs.Base.Words.Read.{addr_at, u256_at, b256_at, addr-append, u256-append, b256-append}
use cow_rs.Types.Trade.{EncodedTrade}
use cow_rs.Settlement.Abi.{padded, trade_words, abi_encode_trade}

-- The reader of a trade at the start of a buffer: the signature is where its offset says, behind its
-- length.
abbrev pub trade_at : Bytes → EncodedTrade
trade_at b = record {
  sell_token_index = u256 b 0;
  buy_token_index = u256 b 32;
  receiver = addr b 64;
  sell_amount = u256 b 96;
  buy_amount = u256 b 128;
  valid_to = u256 b 160;
  app_data = b256 b 192;
  fee_amount = u256 b 224;
  flags = u256 b 256;
  executed_amount = u256 b 288;
  signature = take (u256 b (u256 b 320)) (drop (u256 b 320 + 32) b);
}

-- The fields have the widths of their types.
pub record IsTradeData (t : EncodedTrade) : Type 0 where
  pub sell_token_index_fits : t.sell_token_index < 2 ^ 256
  pub buy_token_index_fits : t.buy_token_index < 2 ^ 256
  pub receiver_width : IsAddress t.receiver
  pub sell_amount_fits : t.sell_amount < 2 ^ 256
  pub buy_amount_fits : t.buy_amount < 2 ^ 256
  pub valid_to_fits : t.valid_to < 2 ^ 256
  pub app_data_width : IsWord t.app_data
  pub fee_amount_fits : t.fee_amount < 2 ^ 256
  pub flags_fit : t.flags < 2 ^ 256
  pub executed_amount_fits : t.executed_amount < 2 ^ 256
  pub signature_fits : length t.signature < 2 ^ 256

trade_words-IsWord : (t : EncodedTrade) → IsTradeData t → All IsWord (trade_words t)
trade_words-IsWord t h = (
  u256_bytes-IsWord t.sell_token_index,
  (
    u256_bytes-IsWord t.buy_token_index,
    (
      pad_address-IsWord t.receiver h.receiver_width,
      (
        u256_bytes-IsWord t.sell_amount,
        (
          u256_bytes-IsWord t.buy_amount,
          (
            u256_bytes-IsWord t.valid_to,
            (
              h.app_data_width,
              (
                u256_bytes-IsWord t.fee_amount,
                (
                  u256_bytes-IsWord t.flags,
                  (
                    u256_bytes-IsWord t.executed_amount,
                    (u256_bytes-IsWord (11 * 32), (u256_bytes-IsWord (length t.signature), tt)),
                  ),
                ),
              ),
            ),
          ),
        ),
      ),
    ),
  ),
)

module _ (t : EncodedTrade) (h : IsTradeData t) (rest : Bytes) where
  abbrev head : Bytes
  head = concat (trade_words t)

  words : All IsWord (trade_words t)
  words = trade_words-IsWord t h

  length-head : length head ≡ 384
  length-head = length-concat (trade_words t) words

  number :
      (i v : ℕ)
      → i < 12
      → get_or (trade_words t) i [] ≡ u256_bytes v
      → v < 2 ^ 256
      → u256 (head ++ rest) (32 * i) ≡ v
  number i v bound e fits =
      u256-append head rest (32 * i) (omega (arith, length-head))
      ∙ u256_at (trade_words t) i words bound v e fits

  read_receiver : addr (head ++ rest) 64 ≡ t.receiver
  read_receiver =
      addr-append head rest 64 (omega (arith, length-head))
      ∙ addr_at (trade_words t) 2 words (omega arith) t.receiver refl h.receiver_width

  read_app_data : b256 (head ++ rest) 192 ≡ t.app_data
  read_app_data =
      b256-append head rest 192 (omega (arith, length-head))
      ∙ b256_at (trade_words t) 6 words (omega arith) t.app_data refl

  trade_at-head : (take (length t.signature) rest ≡ t.signature) → trade_at (head ++ rest) ≡ t
  trade_at-head signed = rw (
    number 0 t.sell_token_index (omega arith) refl h.sell_token_index_fits,
    number 1 t.buy_token_index (omega arith) refl h.buy_token_index_fits,
    read_receiver,
    number 3 t.sell_amount (omega arith) refl h.sell_amount_fits,
    number 4 t.buy_amount (omega arith) refl h.buy_amount_fits,
    number 5 t.valid_to (omega arith) refl h.valid_to_fits,
    read_app_data,
    number 7 t.fee_amount (omega arith) refl h.fee_amount_fits,
    number 8 t.flags (omega arith) refl h.flags_fit,
    number 9 t.executed_amount (omega arith) refl h.executed_amount_fits,
    number 10 352 (omega arith) refl (omega arith),
    number 11 (length t.signature) (omega arith) refl h.signature_fits,
    drop-append 384 head rest length-head,
    signed,
  )

-- Whatever stands behind it, an encoded trade is read back.
pub trade_at-abi_encode_trade :
    (t : EncodedTrade) (rest : Bytes) → IsTradeData t → trade_at (abi_encode_trade t ++ rest) ≡ t
unfolding abi_encode_trade
trade_at-abi_encode_trade t rest h =
    let zeros : Bytes = replicate ((32 - length t.signature % 32) % 32) 0 in
    rw (append_assoc (concat (trade_words t)) (padded t.signature) rest) (
      trade_at-head t h (padded t.signature ++ rest) (
        rw (append_assoc t.signature zeros rest)
          (take-append (length t.signature) t.signature (zeros ++ rest) refl)))

-- ===== src/Bridging/Events/Logs.antt =====
-- What is read from the logs that the contracts emit.
use cow_rs.Base.{
  false, ℕ, ◌+◌, ◌-◌, ◌*◌, ◌^◌, ◌<◌, ◌≤◌, ◌≡◌, refl, ◌∙◌, ltb, some, List, [], ◌∷◌, ◌++◌, length,
  get_or, concat, take, All, arith, length-append, drop-append, take-append, take-all,
}
use cow_rs.Base.Bytes.{Bytes, be_bytes, from_be, from_be-be_bytes, length-be_bytes}
use cow_rs.Base.Hex.{HexCodec, prefix_0x}
use cow_rs.Base.Words.{IsWord, IsAddress, pad_address, u256_bytes, u256_be, pad_into, slice, b256}
use cow_rs.Base.Words.Rows.{
  pad_address-IsWord, u256_bytes-IsWord, u256_be-IsWord, pad_into-append, length-concat,
  length-pad_into, pad32_len-le,
}
use cow_rs.Base.Words.Read.{b256_at, b256-append}
use cow_rs.Bridging.Events.{
  EvmLogEntry, AcrossDepositEvent, CowTradeEvent, bytes32_to_address, bytes32_to_u256,
  bytes32_to_u32, to_u64, parse_across_deposit_event, parse_cow_trade_event, trade_event,
}

-- A word at its place in front of any bytes.
row_word :
    (ws : List Bytes) (rest : Bytes) (i : ℕ) (words : All IsWord ws)
    → i < length ws
    → b256 (concat ws ++ rest) (32 * i) ≡ get_or ws i []
row_word ws rest i words bound =
    b256-append (concat ws) rest (32 * i) (omega (arith, length-concat ws words))
    ∙ b256_at ws i words bound (get_or ws i []) refl

address_word : (a : Bytes) → IsAddress a → bytes32_to_address (pad_address a) ≡ a
unfolding bytes32_to_address pad_address
address_word a h = rw h (take-all 20 a (omega arith))

u256_word : (v : ℕ) → v < 2 ^ 256 → bytes32_to_u256 (u256_bytes v) ≡ v
unfolding bytes32_to_u256 u256_bytes
u256_word v h = rw (length-be_bytes 32 v) (from_be-be_bytes 32 v h)

u64_word : (v : ℕ) → v < 2 ^ 64 → bytes32_to_u256 (u256_be v) ≡ v
unfolding bytes32_to_u256 u256_be from_be
u64_word v h = rw (length-be_bytes 8 v) (from_be-be_bytes 8 v h)

u32_word : (v : ℕ) → v < 2 ^ 32 → bytes32_to_u32 (u256_be v) ≡ v
unfolding bytes32_to_u32 u256_be be_bytes
u32_word v h = from_be-be_bytes 4 v h

to_u64_small : (n : ℕ) → n < 2 ^ 64 → to_u64 n ≡ some n
unfolding to_u64
to_u64_small n h = ground arith

-- The widths of the fields' types.
pub record IsDeposit (e : AcrossDepositEvent) : Type 0 where
  pub input_token : IsAddress e.input_token
  pub output_token : IsAddress e.output_token
  pub input_amount : e.input_amount < 2 ^ 256
  pub output_amount : e.output_amount < 2 ^ 256
  pub destination_chain_id : e.destination_chain_id < 2 ^ 64
  pub deposit_id : e.deposit_id < 2 ^ 256
  pub quote_timestamp : e.quote_timestamp < 2 ^ 32
  pub fill_deadline : e.fill_deadline < 2 ^ 32
  pub exclusivity_deadline : e.exclusivity_deadline < 2 ^ 32
  pub depositor : IsAddress e.depositor
  pub recipient : IsAddress e.recipient
  pub exclusive_relayer : IsAddress e.exclusive_relayer

abbrev deposit_words : AcrossDepositEvent → List Bytes
deposit_words e =
    pad_address e.input_token
    ∷ pad_address e.output_token
    ∷ u256_bytes e.input_amount
    ∷ u256_bytes e.output_amount
    ∷ u256_be e.quote_timestamp
    ∷ u256_be e.fill_deadline
    ∷ u256_be e.exclusivity_deadline
    ∷ pad_address e.recipient
    ∷ pad_address e.exclusive_relayer
    ∷ []

-- The log of a deposit, whose message is encoded behind the nine words.
abbrev pub deposit_log : Bytes → Bytes → AcrossDepositEvent → Bytes → EvmLogEntry
deposit_log spoke_pool topic0 e message = record {
  address = spoke_pool;
  topics =
      topic0
      ∷ u256_be e.destination_chain_id
      ∷ u256_bytes e.deposit_id
      ∷ pad_address e.depositor
      ∷ [];
  log_data = concat (deposit_words e) ++ message;
}

deposit_words-IsWord : (e : AcrossDepositEvent) → IsDeposit e → All IsWord (deposit_words e)
deposit_words-IsWord e h = (
  pad_address-IsWord e.input_token h.input_token,
  (
    pad_address-IsWord e.output_token h.output_token,
    (
      u256_bytes-IsWord e.input_amount,
      (
        u256_bytes-IsWord e.output_amount,
        (
          u256_be-IsWord e.quote_timestamp,
          (
            u256_be-IsWord e.fill_deadline,
            (
              u256_be-IsWord e.exclusivity_deadline,
              (
                pad_address-IsWord e.recipient h.recipient,
                (pad_address-IsWord e.exclusive_relayer h.exclusive_relayer, tt),
              ),
            ),
          ),
        ),
      ),
    ),
  ),
)

-- A log of the Across contract is read as the deposit that it was emitted for.
pub parse_across-deposit_log :
    (spoke_pool topic0 : Bytes) (e : AcrossDepositEvent) (message : Bytes)
    → IsDeposit e
    → parse_across_deposit_event (deposit_log spoke_pool topic0 e message) ≡ some (some e)
unfolding parse_across_deposit_event
parse_across-deposit_log spoke_pool topic0 e message h =
    let ws : List Bytes = deposit_words e in
    let words = deposit_words-IsWord e h in
    let row : (i : ℕ) → i < 9 → b256 (concat ws ++ message) (32 * i) ≡ get_or ws i [] =
      λ i b. row_word ws message i words b in
    let enough : ltb (length (concat ws ++ message)) 288 ≡ false =
      ground (arith, length-append (concat ws) message, length-concat ws words) in
    let target : bytes32_to_u256 (u256_be e.destination_chain_id) ≡ e.destination_chain_id =
      u64_word e.destination_chain_id h.destination_chain_id in
    rw
      (
        target,
        to_u64_small e.destination_chain_id h.destination_chain_id,
        enough,
        row 0 (omega arith),
        row 1 (omega arith),
        row 2 (omega arith),
        row 3 (omega arith),
        row 4 (omega arith),
        row 5 (omega arith),
        row 6 (omega arith),
        row 7 (omega arith),
        row 8 (omega arith),
        address_word e.input_token h.input_token,
        address_word e.output_token h.output_token,
        u256_word e.input_amount h.input_amount,
        u256_word e.output_amount h.output_amount,
        u256_word e.deposit_id h.deposit_id,
        u32_word e.quote_timestamp h.quote_timestamp,
        u32_word e.fill_deadline h.fill_deadline,
        u32_word e.exclusivity_deadline h.exclusivity_deadline,
        address_word e.depositor h.depositor,
        address_word e.recipient h.recipient,
        address_word e.exclusive_relayer h.exclusive_relayer,
      )
      refl

take-padded : (bs : Bytes) → take (length bs) (pad_into bs) ≡ bs
take-padded bs = let (zs, e) = pad_into-append bs in rw e (take-append (length bs) bs zs refl)

pub record IsTrade (e : CowTradeEvent) : Type 0 where
  pub owner : IsAddress e.owner
  pub sell_token : IsAddress e.sell_token
  pub buy_token : IsAddress e.buy_token
  pub sell_amount : e.sell_amount < 2 ^ 256
  pub buy_amount : e.buy_amount < 2 ^ 256
  pub fee_amount : e.fee_amount < 2 ^ 256

-- Five words, the offset of the UID and its length.
abbrev trade_words : CowTradeEvent → Bytes → List Bytes
trade_words e uid =
    pad_address e.sell_token
    ∷ pad_address e.buy_token
    ∷ u256_bytes e.sell_amount
    ∷ u256_bytes e.buy_amount
    ∷ u256_bytes e.fee_amount
    ∷ u256_be 192
    ∷ u256_be (length uid)
    ∷ []

-- The log of a trade of the order with the UID.
abbrev pub trade_log : Bytes → Bytes → CowTradeEvent → Bytes → EvmLogEntry
trade_log settlement topic0 e uid = record {
  address = settlement;
  topics = topic0 ∷ pad_address e.owner ∷ [];
  log_data = concat (trade_words e uid) ++ pad_into uid;
}

trade_words-IsWord : (e : CowTradeEvent) (uid : Bytes) → IsTrade e → All IsWord (trade_words e uid)
trade_words-IsWord e uid h = (
  pad_address-IsWord e.sell_token h.sell_token,
  (
    pad_address-IsWord e.buy_token h.buy_token,
    (
      u256_bytes-IsWord e.sell_amount,
      (
        u256_bytes-IsWord e.buy_amount,
        (u256_bytes-IsWord e.fee_amount, (u256_be-IsWord 192, (u256_be-IsWord (length uid), tt))),
      ),
    ),
  ),
)

module _ (hex : HexCodec) (settlement topic0 : Bytes) (e : CowTradeEvent) (uid : Bytes)
    (h : IsTrade e) (fits : length uid < 2 ^ 64) where
  abbrev data_of : Bytes
  data_of = concat (trade_words e uid) ++ pad_into uid

  trade_row : (i : ℕ) → i < 7 → b256 data_of (32 * i) ≡ get_or (trade_words e uid) i []
  trade_row i b = row_word (trade_words e uid) (pad_into uid) i (trade_words-IsWord e uid h) b

  length-data_of : 224 + length uid ≤ length data_of
  length-data_of = omega (
    arith,
    length-append (concat (trade_words e uid)) (pad_into uid),
    length-concat (trade_words e uid) (trade_words-IsWord e uid h),
    length-pad_into uid,
    pad32_len-le (length uid),
  )

  uid_in : slice 224 (224 + length uid) data_of ≡ uid
  uid_in =
      let front : length (concat (trade_words e uid)) ≡ 224 =
        length-concat (trade_words e uid) (trade_words-IsWord e uid h) in
      let size : 224 + length uid - 224 ≡ length uid = omega arith in
      rw (size, drop-append 224 (concat (trade_words e uid)) (pad_into uid) front) (take-padded uid)

  trade_event_eq :
      trade_event hex (trade_log settlement topic0 e uid) uid
      ≡ record e { order_uid = prefix_0x (hex.encode uid) }
  trade_event_eq =
      rw
        (
          trade_row 0 (omega arith),
          trade_row 1 (omega arith),
          trade_row 2 (omega arith),
          trade_row 3 (omega arith),
          trade_row 4 (omega arith),
          address_word e.owner h.owner,
          address_word e.sell_token h.sell_token,
          address_word e.buy_token h.buy_token,
          u256_word e.sell_amount h.sell_amount,
          u256_word e.buy_amount h.buy_amount,
          u256_word e.fee_amount h.fee_amount,
        )
        refl

  -- A log of the settlement contract is read as the trade that it was emitted for, with the text of
  -- the UID.
  pub parse_cow_trade-trade_log :
      parse_cow_trade_event hex (trade_log settlement topic0 e uid)
      ≡ some (some (record e { order_uid = prefix_0x (hex.encode uid) }))
  unfolding parse_cow_trade_event
  parse_cow_trade-trade_log =
      let long : ltb (length data_of) 224 ≡ false = ground (arith, length-data_of) in
      let longer : ltb (length data_of) (192 + 32) ≡ false = long in
      let longest : ltb (length data_of) (192 + 32 + length uid) ≡ false =
        ground (arith, length-data_of) in
      rw
        (
          long,
          trade_row 5 (omega arith),
          u64_word 192 (omega arith),
          to_u64_small 192 (omega arith),
          long,
          trade_row 6 (omega arith),
          u64_word (length uid) fits,
          to_u64_small (length uid) fits,
          longest,
          uid_in,
          trade_event_eq,
        )
        refl

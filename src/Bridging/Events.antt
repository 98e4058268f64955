-- ===== src/Bridging/Events.antt =====
-- crates/bridging/src/across.rs: the events of the Across bridge and of the settlement contract in the
-- logs of a transaction, and the deposit of an order among them.
pub mod Logs
pub mod Deposits
use cow_rs.Base.{
  ℕ, suc, ◌+◌, ◌-◌, ◌*◌, ◌^◌, ltb, ◌==◌, ◌&&◌, ◌||◌, Bool, true, false, String, if◌then◌else◌,
  Option, none, some, List, [], ◌∷◌, length, get_or, get_elem?, replicate,
}
use cow_rs.Base.Bytes.{Bytes, from_be, as_bytes, bytes_eq}
use cow_rs.Base.Hex.{Text, HexCodec, prefix_0x}
use cow_rs.Base.Panics.{◌>>=◌}
use cow_rs.Base.Words.{slice, b256}
use cow_rs.Signing.Eip712.{settlement_contract}
use cow_rs.Bridging.Registry.{by_chain, across_spoke_pool_addresses}

pub record EvmLogEntry : Type 0 where
  pub address : Bytes
  pub topics : List Bytes
  pub log_data : Bytes

pub record AcrossDepositEvent : Type 0 where
  pub input_token : Bytes
  pub output_token : Bytes
  pub input_amount : ℕ
  pub output_amount : ℕ
  pub destination_chain_id : ℕ
  pub deposit_id : ℕ
  pub quote_timestamp : ℕ
  pub fill_deadline : ℕ
  pub exclusivity_deadline : ℕ
  pub depositor : Bytes
  pub recipient : Bytes
  pub exclusive_relayer : Bytes

pub record CowTradeEvent : Type 0 where
  pub owner : Bytes
  pub sell_token : Bytes
  pub buy_token : Bytes
  pub sell_amount : ℕ
  pub buy_amount : ℕ
  pub fee_amount : ℕ
  pub order_uid : Text

-- `bridging_id` is the number whose decimal text the code keeps.
pub record BridgingDepositParams : Type 0 where
  pub input_token_address : Bytes
  pub output_token_address : Bytes
  pub input_amount : ℕ
  pub output_amount : Option ℕ
  pub owner : Bytes
  pub quote_timestamp : Option ℕ
  pub fill_deadline : Option ℕ
  pub recipient : Bytes
  pub source_chain_id : ℕ
  pub destination_chain_id : ℕ
  pub bridging_id : ℕ

unfoldable pub bytes32_to_address : Bytes → Bytes
bytes32_to_address word = if ltb (length word) 32 then replicate 20 0 else slice 12 32 word

unfoldable pub bytes32_to_u256 : Bytes → ℕ
bytes32_to_u256 word = if ltb (length word) 32 then 0 else from_be word

unfoldable pub bytes32_to_u32 : Bytes → ℕ
bytes32_to_u32 word = if ltb (length word) 32 then 0 else from_be (slice 28 32 word)

-- `to::<u64>` and `to::<usize>` of a `U256`, which panic on a larger number.
unfoldable pub to_u64 : ℕ → Option ℕ
to_u64 n = if ltb n (2 ^ 64) then some n else none

abbrev pub topic : EvmLogEntry → ℕ → Bytes
topic log i = get_or log.topics i []

abbrev pub deposit_event : EvmLogEntry → ℕ → AcrossDepositEvent
deposit_event log destination_chain_id = record {
  input_token = bytes32_to_address (b256 log.log_data 0);
  output_token = bytes32_to_address (b256 log.log_data 32);
  input_amount = bytes32_to_u256 (b256 log.log_data 64);
  output_amount = bytes32_to_u256 (b256 log.log_data 96);
  destination_chain_id = destination_chain_id;
  deposit_id = bytes32_to_u256 (topic log 2);
  quote_timestamp = bytes32_to_u32 (b256 log.log_data 128);
  fill_deadline = bytes32_to_u32 (b256 log.log_data 160);
  exclusivity_deadline = bytes32_to_u32 (b256 log.log_data 192);
  depositor = bytes32_to_address (topic log 3);
  recipient = bytes32_to_address (b256 log.log_data 224);
  exclusive_relayer = bytes32_to_address (b256 log.log_data 256);
}

-- The outer `none` is a panic, the inner one a log that is passed over.
unfoldable pub parse_across_deposit_event : EvmLogEntry → Option (Option AcrossDepositEvent)
parse_across_deposit_event log =
    if ltb (length log.topics) 4
    then some none
    else to_u64 (bytes32_to_u256 (topic log 1)) >>= λ destination_chain_id.
        if ltb (length log.log_data) 288
        then some none
        else some (some (deposit_event log destination_chain_id))

-- `filter` and `filter_map`.
abbrev pub keep {ℓ} : {A : Type ℓ} → Option A → List A → List A
keep none rest = rest
keep (some a) rest = a ∷ rest

unfoldable pub collect {ℓ} :
    {A : Type ℓ}
    → (EvmLogEntry → Bool)
    → (EvmLogEntry → Option (Option A))
    → List EvmLogEntry
    → Option (List A)
collect test parse [] = some []
collect test parse (log ∷ logs) =
    let others = collect test parse logs in
    if test log then (parse log >>= λ event. others >>= λ rest. some (keep event rest)) else others

abbrev pub starts_with : Bytes → List Bytes → Bool
starts_with topic0 [] = false
starts_with topic0 (t ∷ topics) = bytes_eq t topic0

-- `SupportedChainId::try_from_u64(chain_id).is_some()`.
abbrev pub is_supported : ℕ → Bool
is_supported chain_id =
    chain_id == 1
    || chain_id == 100
    || chain_id == 42_161
    || chain_id == 8_453
    || chain_id == 11_155_111
    || chain_id == 137
    || chain_id == 43_114
    || chain_id == 56
    || chain_id == 59_144
    || chain_id == 9_745
    || chain_id == 57_073

abbrev pub settlement_contract_staging : Bytes
settlement_contract_staging =
    0xf5 ∷ 0x53 ∷ 0xd0 ∷ 0x92 ∷ 0xb5 ∷ 0x0b ∷ 0xdc ∷ 0xbd ∷ 0xde ∷ 0xd1 ∷ 0xa9 ∷ 0x9a ∷ 0xf2 ∷ 0xca
    ∷ 0x29 ∷ 0xfb ∷ 0xe5 ∷ 0xe2 ∷ 0xcb ∷ 0x13 ∷ []

abbrev pub is_override : Option Bytes → Bytes → Bool
is_override none a = false
is_override (some contract) a = bytes_eq contract a

abbrev pub is_settlement : ℕ → Option Bytes → Bytes → Bool
is_settlement chain_id settlement_override a =
    (is_supported chain_id && bytes_eq settlement_contract a)
    || (is_supported chain_id && bytes_eq settlement_contract_staging a)
    || is_override settlement_override a

abbrev pub deposit_params : ℕ → AcrossDepositEvent → BridgingDepositParams
deposit_params chain_id e = record {
  input_token_address = e.input_token;
  output_token_address = e.output_token;
  input_amount = e.input_amount;
  output_amount = some e.output_amount;
  owner = e.depositor;
  quote_timestamp = some e.quote_timestamp;
  fill_deadline = some e.fill_deadline;
  recipient = e.recipient;
  source_chain_id = chain_id;
  destination_chain_id = e.destination_chain_id;
  bridging_id = e.deposit_id;
}

-- `position` of the order's first trade.
abbrev pub position : Text → List CowTradeEvent → Option ℕ
position order_id [] = none
position order_id (e ∷ events) =
    let later = position order_id events in
    if bytes_eq e.order_uid order_id
    then some 0
    else elim later [ none ↦ none | some i ↦ some (suc i) ]

-- The deposit with the index of the order's trade.
abbrev pub deposit_at : ℕ → List AcrossDepositEvent → Option ℕ → Option BridgingDepositParams
deposit_at chain_id deposits none = none
deposit_at chain_id deposits (some i) =
    get_elem? deposits i >>= λ e. some (deposit_params chain_id e)

-- Without a deposit the trades are not looked at.
abbrev pub deposit_of :
    ℕ
    → Text
    → List AcrossDepositEvent
    → Option (List CowTradeEvent)
    → Option (Option BridgingDepositParams)
deposit_of chain_id order_id [] trades = some none
deposit_of chain_id order_id (e ∷ events) trades =
    trades >>= λ found. some (deposit_at chain_id (e ∷ events) (position order_id found))

module _ (hex : HexCodec) where
  abbrev pub trade_event : EvmLogEntry → Bytes → CowTradeEvent
  trade_event log uid = record {
    owner = bytes32_to_address (topic log 1);
    sell_token = bytes32_to_address (b256 log.log_data 0);
    buy_token = bytes32_to_address (b256 log.log_data 32);
    sell_amount = bytes32_to_u256 (b256 log.log_data 64);
    buy_amount = bytes32_to_u256 (b256 log.log_data 96);
    fee_amount = bytes32_to_u256 (b256 log.log_data 128);
    order_uid = prefix_0x (hex.encode uid);
  }

  -- What stands at the offset of the UID. The sums are exact, where those of `usize` wrap near 2 ^ 64.
  abbrev pub uid_at : EvmLogEntry → ℕ → Option (Option CowTradeEvent)
  uid_at log offset =
      if ltb (length log.log_data) (offset + 32)
      then some none
      else to_u64 (bytes32_to_u256 (b256 log.log_data offset)) >>= λ uid_len.
          if ltb (length log.log_data) (offset + 32 + uid_len)
          then some none
          else some
              (some (trade_event log (slice (offset + 32) (offset + 32 + uid_len) log.log_data)))

  unfoldable pub parse_cow_trade_event : EvmLogEntry → Option (Option CowTradeEvent)
  parse_cow_trade_event log =
      if ltb (length log.topics) 2
      then some none
      else if ltb (length log.log_data) 224
      then some none
      else to_u64 (bytes32_to_u256 (b256 log.log_data 160)) >>= λ offset. uid_at log offset

module _ (keccak256 : String → Bytes) where
  unfoldable pub across_funds_deposited_topic0 : Bytes
  across_funds_deposited_topic0 =
      keccak256
        "FundsDeposited(bytes32,bytes32,uint256,uint256,uint256,uint256,uint32,uint32,uint32,bytes32,bytes32,bytes32,bytes)"

  unfoldable pub cow_trade_event_topic0 : Bytes
  cow_trade_event_topic0 = keccak256 "Trade(address,address,address,uint256,uint256,uint256,bytes)"

  abbrev pub is_deposit : Bytes → EvmLogEntry → Bool
  is_deposit spoke_pool log =
      bytes_eq log.address spoke_pool && starts_with across_funds_deposited_topic0 log.topics

  abbrev pub deposits_of : Option Bytes → List EvmLogEntry → Option (List AcrossDepositEvent)
  deposits_of none logs = some []
  deposits_of (some spoke_pool) logs =
      collect (is_deposit spoke_pool) parse_across_deposit_event logs

  unfoldable pub get_across_deposit_events : ℕ → List EvmLogEntry → Option (List AcrossDepositEvent)
  get_across_deposit_events chain_id logs =
      deposits_of (by_chain chain_id across_spoke_pool_addresses) logs

  abbrev pub is_trade : ℕ → Option Bytes → EvmLogEntry → Bool
  is_trade chain_id settlement_override log =
      is_settlement chain_id settlement_override log.address
      && starts_with cow_trade_event_topic0 log.topics

  module _ (hex : HexCodec) where
    unfoldable pub get_cow_trade_events :
        ℕ → List EvmLogEntry → Option Bytes → Option (List CowTradeEvent)
    get_cow_trade_events chain_id logs settlement_override =
        collect (is_trade chain_id settlement_override) (parse_cow_trade_event hex) logs

    unfoldable pub get_deposit_params :
        ℕ → Text → List EvmLogEntry → Option Bytes → Option (Option BridgingDepositParams)
    get_deposit_params chain_id order_id logs settlement_override =
        get_across_deposit_events chain_id logs >>= λ deposits.
        deposit_of chain_id order_id deposits
          (get_cow_trade_events chain_id logs settlement_override)

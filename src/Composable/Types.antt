-- ===== src/Composable/Types.antt =====
-- crates/composable/src/types.rs: the data of conditional orders.
use cow_rs.Base.{
  ℕ, ◌+◌, ◌*◌, ◌%◌, ◌^◌, String, Bool, true, false, leb, ◌==◌, if◌then◌else◌, Option, none, some,
  Result, ok, err, parse, replicate,
}
use cow_rs.Base.Bytes.{Bytes}
use cow_rs.Types.{OrderKind, sell, UnsignedOrder}
use text.Mathlib.Text.{◌==◌ as str_eq}

pub record ConditionalOrderParams : Type 0 where
  pub handler : Bytes
  pub salt : Bytes
  pub static_input : Bytes

pub data TwapStartTime : Type 0 where
  at_mining_time : TwapStartTime
  starts_at : ℕ → TwapStartTime

unfoldable pub start_timestamp : TwapStartTime → Option ℕ
start_timestamp (starts_at ts) = some ts
start_timestamp at_mining_time = none

-- `From<u32>` and the conversion back.
unfoldable pub start_of_u32 : ℕ → TwapStartTime
start_of_u32 ts = if ts == 0 then at_mining_time else starts_at ts

unfoldable pub start_to_u32 : TwapStartTime → ℕ
start_to_u32 at_mining_time = 0
start_to_u32 (starts_at ts) = ts

pub data DurationOfPart : Type 0 where
  auto : DurationOfPart
  limit_duration : ℕ → DurationOfPart

unfoldable pub duration : DurationOfPart → Option ℕ
duration (limit_duration d) = some d
duration auto = none

pub record TwapData : Type 0 where
  pub sell_token : Bytes
  pub buy_token : Bytes
  pub receiver : Bytes
  pub sell_amount : ℕ
  pub buy_amount : ℕ
  pub start_time : TwapStartTime
  pub part_duration : ℕ
  pub num_parts : ℕ
  pub app_data : Bytes
  pub partially_fillable : Bool
  pub kind : OrderKind
  pub duration_of_part : DurationOfPart

-- The products and sums are `u64`.
unfoldable pub total_duration_secs : TwapData → ℕ
total_duration_secs d = d.num_parts * d.part_duration % 2 ^ 64

abbrev pub end_of : TwapStartTime → ℕ → Option ℕ
end_of (starts_at ts) total = some ((ts + total) % 2 ^ 64)
end_of at_mining_time total = none

unfoldable pub end_time : TwapData → Option ℕ
unfolding total_duration_secs
end_time d = end_of d.start_time (total_duration_secs d)

abbrev pub reached : Option ℕ → ℕ → Bool
reached (some end) timestamp = leb end timestamp
reached none timestamp = false

unfoldable pub is_expired : TwapData → ℕ → Bool
unfolding end_time
is_expired d timestamp = reached (end_time d) timestamp

abbrev zero_address : Bytes
zero_address = replicate 20 0

abbrev zero_hash : Bytes
zero_hash = replicate 32 0

-- `TwapData::sell` and `TwapData::buy`.
unfoldable pub twap_sell : Bytes → Bytes → ℕ → ℕ → ℕ → TwapData
twap_sell sell_token buy_token sell_amount num_parts part_duration = record {
  sell_token = sell_token;
  buy_token = buy_token;
  receiver = zero_address;
  sell_amount = sell_amount;
  buy_amount = 0;
  start_time = at_mining_time;
  part_duration = part_duration;
  num_parts = num_parts;
  app_data = zero_hash;
  partially_fillable = false;
  kind = sell;
  duration_of_part = auto;
}

pub record TwapStruct : Type 0 where
  pub sell_token : Bytes
  pub buy_token : Bytes
  pub receiver : Bytes
  pub part_sell_amount : ℕ
  pub min_part_limit : ℕ
  pub t0 : ℕ
  pub n : ℕ
  pub t : ℕ
  pub span : ℕ
  pub app_data : Bytes

pub record GpV2OrderStruct : Type 0 where
  pub sell_token : Bytes
  pub buy_token : Bytes
  pub receiver : Bytes
  pub sell_amount : ℕ
  pub buy_amount : ℕ
  pub valid_to : ℕ
  pub app_data : Bytes
  pub fee_amount : ℕ
  pub kind : Bytes
  pub partially_fillable : Bool
  pub sell_token_balance : Bytes
  pub buy_token_balance : Bytes

pub data PollResult : Type 0 where
  success : Option UnsignedOrder → Option String → PollResult
  try_next_block : PollResult
  try_on_block : ℕ → PollResult
  try_at_epoch : ℕ → PollResult
  unexpected_error : String → PollResult
  dont_try_again : String → PollResult

unfoldable pub is_success : PollResult → Bool
is_success (success order signature) = true
is_success _ = false

unfoldable pub is_retryable : PollResult → Bool
is_retryable try_next_block = true
is_retryable (try_on_block n) = true
is_retryable (try_at_epoch n) = true
is_retryable _ = false

unfoldable pub is_terminal : PollResult → Bool
is_terminal (dont_try_again reason) = true
is_terminal _ = false

pub data ProofLocation : Type 0 where
  private emitted swarm waku reserved ipfs : ProofLocation

unfoldable pub location_as_str : ProofLocation → String
location_as_str private = "private"
location_as_str emitted = "emitted"
location_as_str swarm = "swarm"
location_as_str waku = "waku"
location_as_str reserved = "reserved"
location_as_str ipfs = "ipfs"

-- The discriminant, and `TryFrom<u8>`.
unfoldable pub location_to_u8 : ProofLocation → ℕ
location_to_u8 private = 0
location_to_u8 emitted = 1
location_to_u8 swarm = 2
location_to_u8 waku = 3
location_to_u8 reserved = 4
location_to_u8 ipfs = 5

unfoldable pub location_of_u8 : ℕ → Result ProofLocation
location_of_u8 n =
    if n == 0
    then ok private
    else if n == 1
    then ok emitted
    else if n == 2
    then ok swarm
    else if n == 3
    then ok waku
    else if n == 4
    then ok reserved
    else if n == 5
    then ok ipfs
    else err (parse "ProofLocation" "unknown discriminant")

unfoldable pub location_of_str : String → Result ProofLocation
location_of_str s =
    if str_eq s "private"
    then ok private
    else if str_eq s "emitted"
    then ok emitted
    else if str_eq s "swarm"
    then ok swarm
    else if str_eq s "waku"
    then ok waku
    else if str_eq s "reserved"
    then ok reserved
    else if str_eq s "ipfs"
    then ok ipfs
    else err (parse "ProofLocation" "unknown value")

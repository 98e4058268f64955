-- ===== src/Composable/Twap.antt =====
-- crates/composable/src/twap.rs: TWAP orders, their on-chain struct and its ABI encoding.
pub mod Codec
pub mod Parts
pub mod Poll
mod Tests
use cow_rs.Base.{
  ℕ, ◌+◌, ◌*◌, ◌/◌, ◌%◌, ◌^◌, String, Bool, true, false, ◌||◌, ltb, leb, ◌==◌, not, if◌then◌else◌,
  Option, none, some, List, [], ◌∷◌, ◌++◌, length, concat, Result, ok, err, ◌>>=◌, ◌>>◌, fail_if,
  app_data,
}
use cow_rs.Base.Bytes.{Bytes, bytes_eq, all_zero, be_bytes}
use cow_rs.Base.U256.{U256Ops}
use cow_rs.Base.Words.{pad_address, u256_bytes, u256_be, addr, u256, u32v, b256}
use cow_rs.Types.{OrderKind, sell}
use cow_rs.Composable.Types.{
  TwapData, TwapStruct, TwapStartTime, at_mining_time, starts_at, DurationOfPart, auto,
  limit_duration, ConditionalOrderParams, PollResult, success, try_at_epoch, dont_try_again,
}

pub record TwapOrder : Type 0 where
  pub terms : TwapData
  pub salt : Bytes

-- 365 days in seconds.
abbrev pub max_frequency : ℕ
max_frequency = 31_536_000

abbrev pub too_long : DurationOfPart → ℕ → Bool
too_long auto part_duration = false
too_long (limit_duration d) part_duration = ltb part_duration d

unfoldable pub is_valid : TwapOrder → Bool
is_valid order =
    let d = order.terms in
    if bytes_eq d.sell_token d.buy_token
    then false
    else if all_zero d.sell_token || all_zero d.buy_token
    then false
    else if d.sell_amount == 0 || d.buy_amount == 0
    then false
    else if ltb d.num_parts 2
    then false
    else if d.part_duration == 0 || ltb max_frequency d.part_duration
    then false
    else if not (d.sell_amount % d.num_parts == 0)
    then false
    else if too_long d.duration_of_part d.part_duration
    then false
    else true

unfoldable pub per_part_amounts : TwapOrder → Result (ℕ × ℕ)
per_part_amounts order =
    let n = order.terms.num_parts in
    if n == 0
    then err (app_data "num_parts must be > 0")
    else ok (order.terms.sell_amount / n, order.terms.buy_amount / n)

-- The `u64` arithmetic is written out.
abbrev pub poll_from : TwapStartTime → ℕ → ℕ → ℕ → PollResult
poll_from at_mining_time num_parts part_duration block_timestamp = success none none
poll_from (starts_at start) num_parts part_duration block_timestamp =
    let end = (start + num_parts * part_duration % 2 ^ 64) % 2 ^ 64 in
    if ltb block_timestamp start
    then try_at_epoch start
    else if leb end block_timestamp
    then dont_try_again "TWAP order has fully expired"
    else success none none

unfoldable pub poll_validate : TwapOrder → ℕ → PollResult
poll_validate order block_timestamp =
    poll_from order.terms.start_time order.terms.num_parts order.terms.part_duration block_timestamp

abbrev pub t0_of : TwapStartTime → ℕ
t0_of at_mining_time = 0
t0_of (starts_at ts) = ts

abbrev pub span_of : DurationOfPart → ℕ
span_of auto = 0
span_of (limit_duration d) = d

abbrev pub struct_of : TwapData → TwapStruct
struct_of d = record {
  sell_token = d.sell_token;
  buy_token = d.buy_token;
  receiver = d.receiver;
  part_sell_amount = d.sell_amount / d.num_parts;
  min_part_limit = d.buy_amount / d.num_parts;
  t0 = t0_of d.start_time;
  n = d.num_parts;
  t = d.part_duration;
  span = span_of d.duration_of_part;
  app_data = d.app_data;
}

unfoldable pub data_to_struct : TwapData → Result TwapStruct
data_to_struct d = do
  fail_if (d.num_parts == 0) (app_data "num_parts must be > 0")
  ok (struct_of d)

unfoldable pub struct_to_data : U256Ops → TwapStruct → TwapData
struct_to_data u s = record {
  sell_token = s.sell_token;
  buy_token = s.buy_token;
  receiver = s.receiver;
  sell_amount = u.mul s.part_sell_amount s.n;
  buy_amount = u.mul s.min_part_limit s.n;
  start_time = if s.t0 == 0 then at_mining_time else starts_at s.t0;
  part_duration = s.t;
  num_parts = s.n;
  app_data = s.app_data;
  partially_fillable = false;
  kind = sell;
  duration_of_part = if s.span == 0 then auto else limit_duration s.span;
}

abbrev pub twap_words : TwapStruct → List Bytes
twap_words s =
    pad_address s.sell_token
    ∷ pad_address s.buy_token
    ∷ pad_address s.receiver
    ∷ u256_bytes s.part_sell_amount
    ∷ u256_bytes s.min_part_limit
    ∷ u256_be s.t0
    ∷ u256_be s.n
    ∷ u256_be s.t
    ∷ u256_be s.span
    ∷ s.app_data
    ∷ []

unfoldable pub encode_twap_struct : TwapStruct → Bytes
encode_twap_struct s = concat (twap_words s)

unfoldable pub decode_twap_struct : Bytes → Result TwapStruct
decode_twap_struct bytes = do
  fail_if (ltb (length bytes) 320) (app_data "TWAP static input too short")
  ok (record {
    sell_token = addr bytes 0;
    buy_token = addr bytes 32;
    receiver = addr bytes 64;
    part_sell_amount = u256 bytes 96;
    min_part_limit = u256 bytes 128;
    t0 = u32v bytes 160;
    n = u32v bytes 192;
    t = u32v bytes 224;
    span = u32v bytes 256;
    app_data = b256 bytes 288;
  })

unfoldable pub decode_twap_static_input : U256Ops → Bytes → Result TwapData
decode_twap_static_input u bytes = do s ← decode_twap_struct bytes; ok (struct_to_data u s)

unfoldable pub encode_twap_static_input : TwapData → Result Bytes
encode_twap_static_input d = do s ← data_to_struct d; ok (encode_twap_struct s)

unfoldable pub salt_preimage : TwapData → Bytes
salt_preimage d =
    concat (d.sell_token ∷ d.buy_token ∷ u256_bytes d.sell_amount ∷ be_bytes 4 d.num_parts ∷ [])

-- `keccak256` is `alloy_primitives`'.
unfoldable pub deterministic_salt : (Bytes → Bytes) → TwapData → Bytes
deterministic_salt keccak256 d = keccak256 (salt_preimage d)

abbrev pub twap_handler_address : Bytes
twap_handler_address =
    0x6c ∷ 0xf1 ∷ 0xe9 ∷ 0xca ∷ 0x41 ∷ 0xf7 ∷ 0x61 ∷ 0x1d ∷ 0xef ∷ 0x40 ∷ 0x81 ∷ 0x22 ∷ 0x79 ∷ 0x3c
    ∷ 0x35 ∷ 0x8a ∷ 0x3d ∷ 0x11 ∷ 0xe5 ∷ 0xa5 ∷ []

unfoldable pub to_params : TwapOrder → Result ConditionalOrderParams
to_params order = do
  input ← encode_twap_static_input order.terms
  ok (record { handler = twap_handler_address; salt = order.salt; static_input = input })

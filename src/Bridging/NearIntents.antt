-- ===== src/Bridging/NearIntents.antt =====
-- crates/bridging/src/near_intents/util.rs: tokens, attestations and timestamps of NEAR intents.
pub mod Calendar
pub mod Timestamp
use cow_rs.Base.{
  ℕ, ◌+◌, ◌-◌, ◌*◌, ◌/◌, ◌%◌, ◌^◌, ltb, leb, ◌==◌, ◌&&◌, ◌||◌, Bool, if◌then◌else◌, String, Option,
  none, some, List, [], ◌∷◌, ◌++◌, length, min, not,
}
use cow_rs.Base.Bytes.{Bytes, as_bytes, bytes_eq}
use cow_rs.Base.Hex.{Text, trim_start_0x}
use cow_rs.Bridging.{invalid_api_response, Checked, ok, err, ◌>>=◌, TokenAddress, evm, raw}
use cow_rs.Bridging.Tokens.{native_currency_address}

pub record DefuseToken : Type 0 where
  pub decimals : ℕ
  pub blockchain : Text
  pub symbol : Text
  pub contract_address : Option Text

pub record IntermediateTokenInfo : Type 0 where
  pub chain_id : ℕ
  pub address : TokenAddress
  pub decimals : ℕ
  pub symbol : Text
  pub name : Text
  pub logo_url : Option Text

unfoldable pub is_non_evm_chain_id : ℕ → Bool
is_non_evm_chain_id chain_id = chain_id == 1_000_000_000 || chain_id == 1_000_000_001

-- The arms of the `match` on the key, in order.
abbrev pub key_in : Text → List (String × ℕ) → Option ℕ
key_in key [] = none
key_in key ((name, id) ∷ arms) = if bytes_eq key (as_bytes name) then some id else key_in key arms

unfoldable pub blockchain_key_to_chain_id : Text → Option ℕ
blockchain_key_to_chain_id key = key_in key (
    ("eth", 1)
    ∷ ("arb", 42_161)
    ∷ ("avax", 43_114)
    ∷ ("base", 8_453)
    ∷ ("bsc", 56)
    ∷ ("gnosis", 100)
    ∷ ("op", 10)
    ∷ ("pol", 137)
    ∷ ("plasma", 9_745)
    ∷ ("btc", 1_000_000_000)
    ∷ ("sol", 1_000_000_001)
    ∷ [])

abbrev pub text_or_default : Option Text → Text
text_or_default none = []
text_or_default (some text) = text

abbrev pub info_of : DefuseToken → ℕ → TokenAddress → IntermediateTokenInfo
info_of token chain_id address = record {
  chain_id = chain_id;
  address = address;
  decimals = token.decimals;
  symbol = token.symbol;
  name = token.symbol;
  logo_url = none;
}

-- `parse::<Address>` is that of `alloy_primitives`.
module _ (parse_address : Text → Option Bytes) where
  abbrev pub evm_address : Option Text → Option TokenAddress
  evm_address none = some (evm native_currency_address)
  evm_address (some text) = elim (parse_address text) [ none ↦ none | some a ↦ some (evm a) ]

  abbrev pub address_on : ℕ → Option Text → Option TokenAddress
  address_on chain_id contract_address =
      if is_non_evm_chain_id chain_id
      then some (raw (text_or_default contract_address))
      else evm_address contract_address

  unfoldable pub adapt_token : DefuseToken → Option IntermediateTokenInfo
  adapt_token token = elim (blockchain_key_to_chain_id token.blockchain) [
    | none ↦ none
    | some chain_id ↦ elim (address_on chain_id token.contract_address) [
      | none ↦ none
      | some address ↦ some (info_of token chain_id address)
    ]
  ]

  unfoldable pub adapt_tokens : List DefuseToken → List IntermediateTokenInfo
  adapt_tokens [] = []
  adapt_tokens (token ∷ tokens) =
      let rest = adapt_tokens tokens in
      elim (adapt_token token) [ none ↦ rest | some info ↦ info ∷ rest ]

-- Hexadecimal text, whatever the case of its letters.

unfoldable pub hex_nibble : ℕ → Checked ℕ
hex_nibble b =
    if leb b'0' b && leb b b'9'
    then ok (b - b'0')
    else if leb b'a' b && leb b b'f'
    then ok (10 + (b - b'a'))
    else if leb b'A' b && leb b b'F'
    then ok (10 + (b - b'A'))
    else err (invalid_api_response "non-hex byte")

-- The pairs of an even number of characters.
unfoldable pub nibble_pairs : Text → Checked Bytes
nibble_pairs [] = ok []
nibble_pairs (a ∷ []) = ok []
nibble_pairs (a ∷ b ∷ rest) = do
  hi ← hex_nibble a
  lo ← hex_nibble b
  bytes ← nibble_pairs rest
  ok ((hi * 16 + lo) ∷ bytes)

unfoldable pub parse_hex_bytes : Text → Checked Bytes
parse_hex_bytes hex =
    let trimmed = trim_start_0x hex in
    if length trimmed % 2 == 0
    then nibble_pairs trimmed
    else err (invalid_api_response "hex string has odd length")

-- Attestations.

abbrev pub attestation_prefix_bytes : Bytes
attestation_prefix_bytes = 0x0a ∷ 0x77 ∷ 0x35 ∷ 0x70 ∷ []

abbrev pub attestation_version_bytes : Bytes
attestation_version_bytes = 0x00 ∷ []

abbrev pub attestation_sig_len : ℕ
attestation_sig_len = 65

unfoldable pub attestation_message : Bytes → Bytes → Bytes
attestation_message deposit_address quote_hash =
    attestation_prefix_bytes ++ (attestation_version_bytes ++ (deposit_address ++ quote_hash))

-- `recover` is the reading of a signature and the recovery of the signer from it.
unfoldable pub recover_attestation :
    (Bytes → Bytes) → (Bytes → Bytes → Checked Bytes) → Bytes → Bytes → Text → Checked Bytes
recover_attestation keccak256 recover deposit_address quote_hash signature =
    parse_hex_bytes signature >>= λ sig_bytes.
    if length sig_bytes == attestation_sig_len
    then recover sig_bytes (keccak256 (attestation_message deposit_address quote_hash))
    else err (invalid_api_response "attestation signature must be 65 bytes")

-- What the text of a timestamp shows, in its order; the digits of the numbers are left to `format!`.
pub record IsoTimestamp : Type 0 where
  pub year : ℕ
  pub month : ℕ
  pub day : ℕ
  pub hour : ℕ
  pub minute : ℕ
  pub second : ℕ

-- The day within an era of 400 years, and the year, day of the year and month, each from March on.
abbrev pub year_of_era : ℕ → ℕ
year_of_era doe = (doe - doe / 1_460 + doe / 36_524 - doe / 146_096) / 365

abbrev pub day_of_year : ℕ → ℕ
day_of_year doe = let yoe = year_of_era doe in doe - (365 * yoe + yoe / 4 - yoe / 100)

abbrev pub month_from_march : ℕ → ℕ
month_from_march doy = (5 * doy + 2) / 153

abbrev pub month_of : ℕ → ℕ
month_of mp = if ltb mp 10 then mp + 3 else mp - 9

abbrev pub year_of : ℕ → ℕ → ℕ
year_of y_base month = if leb month 2 then y_base + 1 else y_base

-- The days of a `u64` of seconds fit an `i64` and are not negative.
unfoldable pub format_iso8601_utc : ℕ → IsoTimestamp
format_iso8601_utc unix_secs =
    let secs_of_day = unix_secs % 86_400 in
    let z = unix_secs / 86_400 + 719_468 in
    let era = z / 146_097 in
    let doe = z - era * 146_097 in
    let doy = day_of_year doe in
    let mp = month_from_march doy in
    record {
      year = year_of (year_of_era doe + era * 400) (month_of mp);
      month = month_of mp;
      day = doy - (153 * mp + 2) / 5 + 1;
      hour = secs_of_day / 3_600;
      minute = secs_of_day / 60 % 60;
      second = secs_of_day % 60;
    }

-- `now` is the clock's time in seconds.
unfoldable pub calculate_deadline : ℕ → ℕ → IsoTimestamp
calculate_deadline now seconds_from_now =
    format_iso8601_utc (min (now + seconds_from_now) (2 ^ 64 - 1))

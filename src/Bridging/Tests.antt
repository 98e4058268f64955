-- ===== src/Bridging/Tests.antt =====
-- Quotes of three providers, and tokens of concrete chains.
use mathlib.Core.List.{Perm}
use cow_rs.Base.{ℕ, ◌≡◌, refl, true, false, none, some, List, [], ◌∷◌, length, replicate, All}
use cow_rs.Base.Bytes.{Bytes, as_bytes}
use cow_rs.Base.Bytes.{be_bytes, length-be_bytes}
use cow_rs.Base.{◌^◌, String, Option, arith, some_inj}
use cow_rs.Base.Decimal.{parse_uint}
use cow_rs.Base.Hex.{Text, prefix_0x}
use cow_rs.Base.Hex.Digits.{lower_hex}
use cow_rs.Base.U256.{wrapping}
use cow_rs.Signing.Eip712.{settlement_contract}
use cow_rs.Types.{sell}
use cow_rs.Bridging.{BridgeQuoteAmountsAndCosts}
use cow_rs.Bridging.Fees.{AcrossPctFee, AcrossSuggestedFeesResponse, to_amounts_and_costs}
use cow_rs.Bridging.Fees.Accounts.{IsAccount, to_amounts_and_costs-IsAccount}
use cow_rs.Bridging.Events.{
  EvmLogEntry, AcrossDepositEvent, CowTradeEvent, across_funds_deposited_topic0,
  cow_trade_event_topic0, get_across_deposit_events, get_cow_trade_events, get_deposit_params,
  deposit_params,
}
use cow_rs.Bridging.Events.Logs.{deposit_log, trade_log}
use cow_rs.Bridging.Events.Deposits.{
  Contracts, IsDeployed, Emitted, nothing, deposit, trade, with_uid, get_deposit_params-Emitted,
}
use cow_rs.Bridging.Deposit.{
  AcrossDepositCallParams, EvmCall, deposit_selector, create_across_deposit_call,
}
use cow_rs.Bridging.Deposit.Call.{
  IsAddressParser, IsDepositCall, create_across_deposit_call-IsDepositCall,
}
use cow_rs.Bridging.NearIntents.{format_iso8601_utc}
use cow_rs.Bridging.NearIntents.Timestamp.{Shows, format_iso8601_utc-Shows}
use cow_rs.Bridging.{
  Checked, ok, err, no_routes, evm, QuoteBridgeRequest, QuoteBridgeResponse, net_buy_amount,
  MultiQuoteResult,
}
use cow_rs.Bridging.Quotes.{
  Provider, BridgingSdk, get_best_quote, fetch_multi_quote, execute_provider_quotes, lacks_result,
  ranked_amount,
}
use cow_rs.Bridging.Quotes.Best.{IsBest, get_best_quote-IsBest}
use cow_rs.Bridging.Quotes.Multi.{
  Descending, fetch_multi_quote_lem, fetch_multi_quote-get_best_quote,
}
use cow_rs.Bridging.Registry.{
  address, adapt_token, across_token_mapping, across_spoke_pool_addresses,
}
use cow_rs.Bridging.Registry.Adapt.{adapt_token-adapt_token}

abbrev request : QuoteBridgeRequest
request = record {
  sell_chain_id = 1;
  buy_chain_id = 8453;
  sell_token = replicate 20 1;
  sell_token_decimals = 18;
  buy_token = evm (replicate 20 2);
  buy_token_decimals = 18;
  sell_amount = 1_000;
  account = replicate 20 3;
  owner = none;
  receiver = none;
  bridge_recipient = none;
  slippage_bps = 50;
  bridge_slippage_bps = none;
  kind = sell;
}

abbrev quote_netting : ℕ → ℕ → QuoteBridgeResponse
quote_netting bought fee = record {
  provider = as_bytes "bridge";
  sell_amount = 1_000;
  buy_amount = bought;
  fee_amount = fee;
  estimated_secs = 60;
  bridge_hook = none;
}

abbrev provider : Checked QuoteBridgeResponse → Provider
provider answer = record {
  name = as_bytes "bridge";
  supports_route = λ source target. true;
  get_quote = λ req. answer;
}

abbrev sdk : BridgingSdk
sdk = record {
  providers =
      provider (ok (quote_netting 990 20))
      ∷ provider (err no_routes)
      ∷ provider (ok (quote_netting 985 5))
      ∷ [];
}

get_best_quote-IsBest_example : IsBest request sdk.providers (get_best_quote sdk request)
get_best_quote-IsBest_example = get_best_quote-IsBest sdk request

fetch_multi_quote_example :
    Perm (fetch_multi_quote false sdk request) (execute_provider_quotes false sdk request)
    × Descending (fetch_multi_quote false sdk request)
    × All (λ (r : MultiQuoteResult). lacks_result r ≡ false) (fetch_multi_quote false sdk request)
    × (length (execute_provider_quotes false sdk request) ≡ length sdk.providers)
fetch_multi_quote_example = fetch_multi_quote_lem false sdk request

fetch_multi_quote-get_best_quote_example :
    (r : MultiQuoteResult) × (rest : List MultiQuoteResult) × (fetch_multi_quote false sdk request
      ≡ r ∷ rest)
    × (ranked_amount r ≡ net_buy_amount (quote_netting 985 5))
unfolding get_best_quote
fetch_multi_quote-get_best_quote_example =
    fetch_multi_quote-get_best_quote sdk request (quote_netting 985 5) (refl, (refl, (refl, tt)))
      refl

abbrev usdc : Bytes
usdc = address 0xa0b86991c6218b36c1d19d4a2e9eb0ce3606eb48

abbrev usdc_on_base : Bytes
usdc_on_base = address 0x833589fcd6edb6e08f4c7c32d4f71b54bda02913

adapt_token-adapt_token_example : adapt_token usdc_on_base 8453 1 ≡ some usdc
unfolding adapt_token across_token_mapping address
adapt_token-adapt_token_example = adapt_token-adapt_token usdc usdc_on_base 1 8453 refl

abbrev sold : Bytes
sold = replicate 20 1

abbrev candidates : List Bytes
candidates = replicate 20 5 ∷ usdc ∷ sold ∷ []

abbrev no_fee : AcrossPctFee
no_fee = record { pct = as_bytes "0"; total = as_bytes "0" }

-- A relay fee of 1 %.
abbrev suggested_fees : AcrossSuggestedFeesResponse
suggested_fees = record {
  total_relay_fee = record { pct = as_bytes "10000000000000000"; total = as_bytes "10" };
  relayer_capital_fee = no_fee;
  relayer_gas_fee = no_fee;
  lp_fee = no_fee;
  timestamp = as_bytes "1700000000";
  is_amount_too_low = false;
  quote_block = as_bytes "1";
  spoke_pool_address = as_bytes "0x";
  exclusive_relayer = as_bytes "0x";
  exclusivity_deadline = as_bytes "0";
  estimated_fill_time_sec = as_bytes "60";
  fill_deadline = as_bytes "1700003600";
  limits = record {
    min_deposit = as_bytes "1";
    max_deposit = as_bytes "1000000";
    max_deposit_instant = as_bytes "1000";
    max_deposit_short_delay = as_bytes "1000";
    recommended_deposit_instant = as_bytes "1000";
  };
}

abbrev pow : ℕ → ℕ → ℕ
pow a b = a ^ b

to_amounts_and_costs-IsAccount_example :
    (r : BridgeQuoteAmountsAndCosts) × (to_amounts_and_costs wrapping pow request 50 suggested_fees
      ≡ ok r)
    × IsAccount request 50 (10 ^ 16) r
unfolding parse_uint
to_amounts_and_costs-IsAccount_example =
    to_amounts_and_costs-IsAccount wrapping pow request 50 (10 ^ 16) suggested_fees (λ a b h. refl)
      refl (omega arith) (omega arith) (omega arith) (omega arith) (omega arith) (omega arith)

-- Every address is read as one.
abbrev parse_address : Text → Option Bytes
parse_address text = some (replicate 20 9)

parse_address-IsAddressParser : IsAddressParser parse_address
parse_address-IsAddressParser text a e = rw (← some_inj e) refl

abbrev named_hash : String → Bytes
named_hash s = be_bytes 32 (length (as_bytes s))

abbrev deposit_call : AcrossDepositCallParams
deposit_call = record {
  request = request;
  suggested_fees = suggested_fees;
  cow_shed_account = replicate 20 4;
}

abbrev spoke_pool : Bytes
spoke_pool = address 0x5c7bcd6e7de5423a257d81b442095a1a6ced35c5

create_across_deposit_call-IsDepositCall_example :
    (call : EvmCall) × (create_across_deposit_call parse_address wrapping named_hash deposit_call
      ≡ ok call)
    × IsDepositCall parse_address deposit_call
        (10 ^ 16)
        (deposit_selector named_hash)
        spoke_pool
        (replicate 20 2)
        call
unfolding parse_uint across_spoke_pool_addresses address
create_across_deposit_call-IsDepositCall_example =
    create_across_deposit_call-IsDepositCall parse_address wrapping named_hash deposit_call
      spoke_pool (replicate 20 2) (10 ^ 16) parse_address-IsAddressParser
      (λ s. length-be_bytes 32 (length (as_bytes s))) refl refl
      (record {
        account = refl;
        sell_token = refl;
        buy_token = refl;
        cow_shed_account = refl;
        sell_amount = omega arith;
        buy_chain_id = omega arith;
      })
      refl (omega arith)

abbrev mainnet : Contracts
mainnet = record {
  chain_id = 1;
  spoke_pool = spoke_pool;
  settlement = settlement_contract;
  settlement_override = none;
}

abbrev bridged : AcrossDepositEvent
bridged = record {
  input_token = replicate 20 1;
  output_token = replicate 20 2;
  input_amount = 1_000;
  output_amount = 990;
  destination_chain_id = 8453;
  deposit_id = 7;
  quote_timestamp = 1_700_000_000;
  fill_deadline = 1_700_003_600;
  exclusivity_deadline = 0;
  depositor = replicate 20 3;
  recipient = replicate 20 3;
  exclusive_relayer = replicate 20 0;
}

abbrev settled : CowTradeEvent
settled = record {
  owner = replicate 20 3;
  sell_token = replicate 20 6;
  buy_token = replicate 20 1;
  sell_amount = 500;
  buy_amount = 1_000;
  fee_amount = 0;
  order_uid = [];
}

abbrev uid : Bytes
uid = replicate 56 8

abbrev logs : List EvmLogEntry
logs =
    trade_log settlement_contract (cow_trade_event_topic0 named_hash) settled uid
    ∷ deposit_log spoke_pool (across_funds_deposited_topic0 named_hash) bridged []
    ∷ []

logs-Emitted :
    Emitted lower_hex named_hash mainnet logs
      (bridged ∷ [])
      (with_uid lower_hex named_hash mainnet settled uid ∷ [])
logs-Emitted =
    trade settled uid
      (record {
        owner = refl;
        sell_token = refl;
        buy_token = refl;
        sell_amount = omega arith;
        buy_amount = omega arith;
        fee_amount = omega arith;
      })
      (omega arith)
      (deposit bridged []
        (record {
          input_token = refl;
          output_token = refl;
          input_amount = omega arith;
          output_amount = omega arith;
          destination_chain_id = omega arith;
          deposit_id = omega arith;
          quote_timestamp = omega arith;
          fill_deadline = omega arith;
          exclusivity_deadline = omega arith;
          depositor = refl;
          recipient = refl;
          exclusive_relayer = refl;
        })
        nothing)

mainnet-IsDeployed : IsDeployed lower_hex named_hash mainnet
unfolding across_spoke_pool_addresses across_funds_deposited_topic0 cow_trade_event_topic0 be_bytes
    address
mainnet-IsDeployed = record {
  spoke_pool = refl;
  settlement = refl;
  deposit_is_no_trade = refl;
  trade_is_no_deposit = refl;
}

get_deposit_params-Emitted_example :
    (get_across_deposit_events named_hash 1 logs ≡ some (bridged ∷ []))
    × (get_cow_trade_events named_hash lower_hex 1 logs none
        ≡ some (with_uid lower_hex named_hash mainnet settled uid ∷ []))
    × (get_deposit_params named_hash lower_hex 1 (prefix_0x (lower_hex.encode uid)) logs none
        ≡ some (some (deposit_params 1 bridged)))
get_deposit_params-Emitted_example =
    get_deposit_params-Emitted lower_hex named_hash mainnet mainnet-IsDeployed logs (bridged ∷ [])
      [] [] (with_uid lower_hex named_hash mainnet settled uid) bridged logs-Emitted tt refl

format_iso8601_utc-Shows_example : Shows (format_iso8601_utc 951_782_400) 951_782_400
format_iso8601_utc-Shows_example = format_iso8601_utc-Shows 951_782_400

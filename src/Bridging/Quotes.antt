-- ===== src/Bridging/Quotes.antt =====
-- crates/bridging/src/sdk.rs and utils.rs: the providers' quotes, the best of them, and all in order.
-- A provider answers a request at once: what it answers is a function of the request, and whether the
-- global timeout passes first is an argument.
pub mod Best
pub mod Multi
use cow_rs.Base.{
  ℕ, suc, ◌-◌, ltb, leb, ◌==◌, ◌&&◌, ◌||◌, not, Bool, true, false, if◌then◌else◌, Option, none,
  some, List, [], ◌∷◌, ◌++◌, length, get_elem?, set, map,
}
use cow_rs.Base.Bytes.{bytes_eq}
use cow_rs.Base.Hex.{Text}
use cow_rs.Bridging.{
  BridgeError, no_providers, no_quote, same_chain, timeout, api_error, provider_not_found,
  bridge_error_priority, Checked, ok, err, ◌>>=◌, QuoteBridgeRequest, QuoteBridgeResponse,
  net_buy_amount, BridgeAmounts, BridgingFee, BridgeQuoteAmountsAndCosts, MultiQuoteResult,
}

pub record Provider : Type 0 where
  pub name : Text
  pub supports_route : ℕ → ℕ → Bool
  pub get_quote : QuoteBridgeRequest → Checked QuoteBridgeResponse

pub record BridgingSdk : Type 0 where
  pub providers : List Provider

unfoldable pub new_sdk : BridgingSdk
new_sdk = record { providers = [] }

unfoldable pub add_provider : BridgingSdk → Provider → BridgingSdk
add_provider sdk p = record { providers = sdk.providers ++ p ∷ [] }

unfoldable pub provider_count : BridgingSdk → ℕ
provider_count sdk = length sdk.providers

-- `filter` of the providers by the request's route.
abbrev pub eligible : QuoteBridgeRequest → List Provider → List Provider
eligible req [] = []
eligible req (p ∷ ps) =
    let rest = eligible req ps in
    if p.supports_route req.sell_chain_id req.buy_chain_id then p ∷ rest else rest

-- `filter_map(|r| r.ok())` of the answers.
abbrev pub answers : QuoteBridgeRequest → List Provider → List QuoteBridgeResponse
answers req [] = []
answers req (p ∷ ps) = elim (p.get_quote req) [ ok q ↦ q ∷ answers req ps | err e ↦ answers req ps ]

-- `max_by_key(net_buy_amount)`: of equal keys the last.
abbrev pub max_by_net :
    Option QuoteBridgeResponse → List QuoteBridgeResponse → Option QuoteBridgeResponse
max_by_net best [] = best
max_by_net none (q ∷ qs) = max_by_net (some q) qs
max_by_net (some b) (q ∷ qs) =
    max_by_net (some (if leb (net_buy_amount b) (net_buy_amount q) then q else b)) qs

abbrev pub is_empty {ℓ} : {A : Type ℓ} → List A → Bool
is_empty [] = true
is_empty (x ∷ xs) = false

abbrev pub ok_or : Option QuoteBridgeResponse → BridgeError → Checked QuoteBridgeResponse
ok_or (some q) e = ok q
ok_or none e = err e

unfoldable pub get_best_quote : BridgingSdk → QuoteBridgeRequest → Checked QuoteBridgeResponse
get_best_quote sdk req =
    if is_empty (eligible req sdk.providers)
    then err no_providers
    else ok_or (max_by_net none (answers req (eligible req sdk.providers))) no_quote

unfoldable pub get_all_quotes :
    BridgingSdk → QuoteBridgeRequest → List (Checked QuoteBridgeResponse)
get_all_quotes sdk req = map (λ (p : Provider). p.get_quote req) (eligible req sdk.providers)

-- The entry of one provider.
abbrev pub quote_of : QuoteBridgeRequest → QuoteBridgeResponse → BridgeQuoteAmountsAndCosts
quote_of req q = record {
  before_fee = record { sell_amount = q.sell_amount; buy_amount = q.buy_amount };
  after_fee = record { sell_amount = q.sell_amount; buy_amount = q.buy_amount - q.fee_amount };
  after_slippage = record { sell_amount = q.sell_amount; buy_amount = q.buy_amount - q.fee_amount };
  bridging_fee = record {
    fee_bps = 0;
    amount_in_sell_currency = q.fee_amount;
    amount_in_buy_currency = q.fee_amount;
  };
  slippage_bps = req.slippage_bps;
}

abbrev pub failed : Text → BridgeError → MultiQuoteResult
failed name e = record { provider_dapp_id = name; quote = none; error = some e }

abbrev pub entry_of : QuoteBridgeRequest → Text → Checked QuoteBridgeResponse → MultiQuoteResult
entry_of req name (ok q) = record {
  provider_dapp_id = name;
  quote = some (quote_of req q);
  error = none;
}
entry_of req name (err e) = failed name e

abbrev pub entry : QuoteBridgeRequest → Provider → MultiQuoteResult
entry req p = entry_of req p.name (p.get_quote req)

unfoldable pub execute_provider_quotes :
    Bool → BridgingSdk → QuoteBridgeRequest → List MultiQuoteResult
execute_provider_quotes timed_out sdk req =
    if timed_out
    then map (λ (p : Provider). failed p.name (api_error "Multi-quote timeout")) sdk.providers
    else map (entry req) sdk.providers

abbrev pub is_some {ℓ} : {A : Type ℓ} → Option A → Bool
is_some (some a) = true
is_some none = false

abbrev pub lacks_result : MultiQuoteResult → Bool
lacks_result r = not (is_some r.quote) && not (is_some r.error)

-- The loop over the identifiers from index `i` on: an entry without a result, and one that is
-- missing, becomes a timeout.
abbrev pub fill_at : List MultiQuoteResult → ℕ → Text → List MultiQuoteResult
fill_at results i dapp_id = elim (get_elem? results i) [
  | none ↦ results ++ failed dapp_id timeout ∷ []
  | some r ↦ if lacks_result r then set results i (failed dapp_id timeout) else results
]

unfoldable pub fill_from : ℕ → List MultiQuoteResult → List Text → List MultiQuoteResult
fill_from i results [] = results
fill_from i results (dapp_id ∷ ids) = fill_from (suc i) (fill_at results i dapp_id) ids

abbrev pub fill_timeout_results : List MultiQuoteResult → List Text → List MultiQuoteResult
fill_timeout_results results ids = fill_from 0 results ids

abbrev pub ranked_amount : MultiQuoteResult → ℕ
ranked_amount r = elim r.quote [ none ↦ 0 | some q ↦ q.after_slippage.buy_amount ]

-- `sort_by` with the larger amount first, which is stable: an entry goes in front of the first one
-- that is not larger.
abbrev pub insert_ranked : MultiQuoteResult → List MultiQuoteResult → List MultiQuoteResult
insert_ranked r [] = r ∷ []
insert_ranked r (s ∷ rest) =
    let behind = insert_ranked r rest in
    if leb (ranked_amount s) (ranked_amount r) then r ∷ s ∷ rest else s ∷ behind

unfoldable pub sort_ranked : List MultiQuoteResult → List MultiQuoteResult
sort_ranked [] = []
sort_ranked (r ∷ rs) = insert_ranked r (sort_ranked rs)

unfoldable pub fetch_multi_quote : Bool → BridgingSdk → QuoteBridgeRequest → List MultiQuoteResult
fetch_multi_quote timed_out sdk req = sort_ranked (
    fill_timeout_results (execute_provider_quotes timed_out sdk req)
      (map (λ (p : Provider). p.name) sdk.providers))

-- Comparison of two results.

unfoldable pub is_better_quote : MultiQuoteResult → Option MultiQuoteResult → Bool
is_better_quote candidate none = is_some candidate.quote
is_better_quote candidate (some best) = elim candidate.quote [
  | none ↦ false
  | some c ↦ elim best.quote [
    | none ↦ true
    | some b ↦ ltb b.after_slippage.buy_amount c.after_slippage.buy_amount
  ]
]

unfoldable pub is_better_error : Option BridgeError → Option BridgeError → Bool
is_better_error none best = false
is_better_error (some c) none = true
is_better_error (some c) (some b) = ltb (bridge_error_priority b) (bridge_error_priority c)

unfoldable pub validate_cross_chain_request : ℕ → ℕ → Checked (Unit {0})
validate_cross_chain_request sell_chain_id buy_chain_id =
    if sell_chain_id == buy_chain_id then err same_chain else ok tt

-- `find` of an identifier among those that are available.
abbrev pub contains : Text → List Text → Bool
contains id [] = false
contains id (a ∷ others) = bytes_eq a id || contains id others

unfoldable pub resolve_each : List Text → List Text → Checked (List Text)
resolve_each available [] = ok []
resolve_each available (id ∷ ids) =
    if contains id available
    then (do rest ← resolve_each available ids; ok (id ∷ rest))
    else err (provider_not_found id)

unfoldable pub resolve_providers_to_query : Option (List Text) → List Text → Checked (List Text)
resolve_providers_to_query none available = ok available
resolve_providers_to_query (some requested) available = resolve_each available requested

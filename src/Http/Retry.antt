-- ===== src/Http/Retry.antt =====
-- crates/http/src/rate_limit.rs, the retry policy, and `send_with_policy` of
-- crates/orderbook/src/api.rs. A `Duration` is its number of nanoseconds.
pub mod Sends
use cow_rs.Base.{
  ℕ, zero, suc, ◌+◌, ◌-◌, ◌*◌, ◌^◌, min, max, Bool, true, false, not, ◌||◌, ◌==◌, leb,
  if◌then◌else◌, Option, none, some, List, [], ◌∷◌, ◌++◌,
}

pub record RetryPolicy : Type 0 where
  pub max_attempts : ℕ
  pub initial_delay : ℕ
  pub max_delay : ℕ
  pub retry_status_codes : List ℕ

abbrev pub default_retry_status_codes : List ℕ
default_retry_status_codes = 408 ∷ 425 ∷ 429 ∷ 500 ∷ 502 ∷ 503 ∷ 504 ∷ []

abbrev pub default_orderbook : RetryPolicy
default_orderbook = record {
  max_attempts = 10;
  initial_delay = 100_000_000;
  max_delay = 30_000_000_000;
  retry_status_codes = default_retry_status_codes;
}

abbrev pub no_retry : RetryPolicy
no_retry = record { max_attempts = 1; initial_delay = 0; max_delay = 0; retry_status_codes = [] }

-- The power saturates at `u64`, the product at `u128`.
unfoldable pub delay_for_attempt : RetryPolicy → ℕ → ℕ
delay_for_attempt p attempt =
    let factor = min (2 ^ attempt) (2 ^ 64 - 1) in
    let nanos = min (p.initial_delay * factor) (2 ^ 128 - 1) in
    let capped = min nanos p.max_delay in if leb (2 ^ 64) capped then p.max_delay else capped

abbrev pub contains : List ℕ → ℕ → Bool
contains [] n = false
contains (m ∷ ms) n = m == n || contains ms n

unfoldable pub should_retry_status : RetryPolicy → ℕ → Bool
should_retry_status p status = contains p.retry_status_codes status

-- What `send` of `reqwest` comes back with: a response, or an error that is one of decoding or not.
pub data Outcome : Type 0 where
  response : ℕ → Outcome
  failure : Bool → Outcome

unfoldable pub should_retry_error : Bool → Bool
should_retry_error is_decode = not is_decode

abbrev pub retryable : RetryPolicy → Outcome → Bool
retryable p (response status) = should_retry_status p status
retryable p (failure is_decode) = should_retry_error is_decode

-- What the caller gets, and the delays that were waited for.
pub record Sent : Type 0 where
  pub outcome : Outcome
  pub waits : List ℕ

-- The loop, on fuel: `server` answers each attempt.
unfoldable pub send_loop : RetryPolicy → (ℕ → Outcome) → ℕ → ℕ → List ℕ → Option Sent
send_loop p server zero attempt waits = none
send_loop p server (suc fuel) attempt waits =
    let rest = send_loop p server fuel (attempt + 1) (waits ++ delay_for_attempt p attempt ∷ []) in
    if not (retryable p (server attempt)) || leb (max p.max_attempts 1) (attempt + 1)
    then some (record { outcome = server attempt; waits = waits })
    else rest

unfoldable pub send_with_policy : RetryPolicy → (ℕ → Outcome) → Option Sent
send_with_policy p server = send_loop p server (max p.max_attempts 1) 0 []

-- ===== src/Http/Tests.antt =====
-- The retry policy of the orderbook client at work.
use cow_rs.Base.{ℕ, ◌≡◌, refl, some, [], ◌∷◌, ltb, if◌then◌else◌}
use cow_rs.Http.Retry.{
  default_orderbook, delay_for_attempt, Outcome, response, send_with_policy, send_loop,
  should_retry_status,
}
use cow_rs.Http.Retry.Sends.{delays, Retried, Stops, send_with_policy_lem}

-- Two responses `503` and then `200`.
abbrev server : ℕ → Outcome
server n = if ltb n 2 then response 503 else response 200

third_attempt :
    send_with_policy default_orderbook server
    ≡ some (record { outcome = response 200; waits = 100_000_000 ∷ 200_000_000 ∷ [] })
unfolding send_with_policy send_loop delay_for_attempt should_retry_status
third_attempt = refl

send_with_policy_example :
    (n : ℕ) × Retried default_orderbook server 0 n
    × Stops default_orderbook server n
    × (send_with_policy default_orderbook server
        ≡ some (record { outcome = server n; waits = delays default_orderbook 0 n }))
send_with_policy_example = send_with_policy_lem default_orderbook server

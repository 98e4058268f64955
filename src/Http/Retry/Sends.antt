-- ===== src/Http/Retry/Sends.antt =====
-- The delays of the policy, and what the request loop returns.
use mathlib.Core.List.{append_assoc, append-nil}
use mathlib.Core.Path.{subst}
use cow_rs.Base.{
  ℕ, zero, suc, ◌+◌, ◌-◌, ◌*◌, ◌^◌, ◌≤◌, ◌<◌, ◌≡◌, ap, ◌∙◌, ◌⊎◌, inl, inr, min, max, true, false,
  not, ◌||◌, leb, if◌then◌else◌, some, List, [], ◌∷◌, ◌++◌, arith, Bool-cases, lt_or_le, lt→leb,
}
use cow_rs.Base.{sym, Option}
use cow_rs.Http.Retry.{Sent}
use cow_rs.Http.Retry.{
  RetryPolicy, delay_for_attempt, Outcome, retryable, send_loop, send_with_policy,
}

product_cases :
    (i x m : ℕ)
    → m < 2 ^ 64
    → (i * min x (2 ^ 64 - 1) ≡ i * x) ⊎ ((m ≤ i * min x (2 ^ 64 - 1)) × (m ≤ i * x))
product_cases zero x m h = inl (omega arith)
product_cases (suc i) x m h = elim (lt_or_le x (2 ^ 64)) [
  | inl small ↦ let same : min x (2 ^ 64 - 1) ≡ x = omega arith in inl (rw same)
  | inr large ↦
      let same : min x (2 ^ 64 - 1) ≡ 2 ^ 64 - 1 = omega arith in
      inr (rw same (omega arith), grind arith)
]

capped :
    (product exact m : ℕ)
    → m < 2 ^ 64
    → (product ≡ exact) ⊎ ((m ≤ product) × (m ≤ exact))
    → (if leb (2 ^ 64) (min (min product (2 ^ 128 - 1)) m)
        then m
        else min (min product (2 ^ 128 - 1)) m)
      ≡ min exact m
capped product exact m h c =
    let below : min (min product (2 ^ 128 - 1)) m < 2 ^ 64 = omega arith in
    rw (lt→leb (2 ^ 64) (min (min product (2 ^ 128 - 1)) m) below)
      (elim c [ inl e ↦ omega arith | inr (l, r) ↦ omega arith ])

-- Where the cap is below 2 ^ 64 nanoseconds, the delay is the initial delay times 2 to the
-- attempt, or the cap where that is smaller.
delay_for_attempt_lem :
    (p : RetryPolicy) (attempt : ℕ)
    → p.max_delay < 2 ^ 64
    → delay_for_attempt p attempt ≡ min (p.initial_delay * 2 ^ attempt) p.max_delay
unfolding delay_for_attempt
delay_for_attempt_lem p attempt h =
    capped (p.initial_delay * min (2 ^ attempt) (2 ^ 64 - 1)) (p.initial_delay * 2 ^ attempt)
      p.max_delay h (product_cases p.initial_delay (2 ^ attempt) p.max_delay h)

-- The delays before each of the first `n` retries from `attempt` on.
abbrev pub delays : RetryPolicy → ℕ → ℕ → List ℕ
delays p attempt zero = []
delays p attempt (suc n) = delay_for_attempt p attempt ∷ delays p (attempt + 1) n

-- `n` attempts from one on were worth a retry.
abbrev pub Retried : RetryPolicy → (ℕ → Outcome) → ℕ → ℕ → Type 0
Retried p server attempt zero = Unit
Retried p server attempt (suc n) =
    (retryable p (server attempt) ≡ true) × Retried p server (attempt + 1) n

-- The loop stops at an attempt, and why.
abbrev pub Stops : RetryPolicy → (ℕ → Outcome) → ℕ → Type 0
Stops p server attempt =
    (attempt < max p.max_attempts 1)
    × ((retryable p (server attempt) ≡ false) ⊎ (attempt + 1 ≡ max p.max_attempts 1))

abbrev sent : (ℕ → Outcome) → ℕ → List ℕ → Option Sent
sent server attempt waits = some (record { outcome = server attempt; waits = waits })

-- The run of the loop from an attempt on.
abbrev Runs : RetryPolicy → (ℕ → Outcome) → ℕ → ℕ → List ℕ → Type 0
Runs p server fuel attempt waits =
    (n : ℕ) × Retried p server attempt n
    × Stops p server (attempt + n)
    × (send_loop p server fuel attempt waits
        ≡ sent server (attempt + n) (waits ++ delays p attempt n))

ends_here :
    (p : RetryPolicy) (server : ℕ → Outcome) (fuel attempt : ℕ) (waits : List ℕ)
    → Stops p server attempt
    → Runs p server (suc fuel) attempt waits
unfolding send_loop
ends_here p server fuel attempt waits (in_range, why) =
    let here : attempt + 0 ≡ attempt = omega arith in
    (0, tt, subst (Stops p server) (sym here) (in_range, why), rw (here, append-nil, test))
  where
    test : (not (retryable p (server attempt)) || leb (max p.max_attempts 1) (attempt + 1)) ≡ true
    test = elim why [ inl final ↦ rw final | inr last ↦ ground arith ]

send_loop_lem :
    (p : RetryPolicy) (server : ℕ → Outcome) (fuel attempt : ℕ) (waits : List ℕ)
    → attempt + suc fuel ≡ max p.max_attempts 1
    → Runs p server (suc fuel) attempt waits
unfolding send_loop
send_loop_lem p server zero attempt waits h =
    ends_here p server zero attempt waits (omega arith, inr h)
send_loop_lem p server (suc fuel) attempt waits h =
    elim (Bool-cases (retryable p (server attempt))) [
      | inl again ↦
          let (n, retried, stops, e) =
            send_loop_lem p server fuel (attempt + 1) (waits ++ delay_for_attempt p attempt ∷ [])
              (omega arith) in
          let later : attempt + 1 + n ≡ attempt + suc n = omega arith in
          let more : leb (max p.max_attempts 1) (attempt + 1) ≡ false =
            lt→leb (max p.max_attempts 1) (attempt + 1) (omega arith) in
          (
            suc n,
            (again, retried),
            subst (Stops p server) later stops,
            rw (again, more, ← later)
                (e
                  ∙ ap (sent server (attempt + 1 + n)) (
                      append_assoc waits (delay_for_attempt p attempt ∷ [])
                        (delays p (attempt + 1) n))),
          )
      | inr final ↦ ends_here p server (suc fuel) attempt waits (omega arith, inl final)
    ]

-- Whatever the server answers, the loop returns after one attempt at least and `max_attempts` at
-- most: all attempts before the last were worth a retry, the last was not or was the last allowed,
-- its outcome is what the caller gets, and before each retry its delay was waited for.
pub send_with_policy_lem :
    (p : RetryPolicy) (server : ℕ → Outcome)
    → (n : ℕ) × Retried p server 0 n
      × Stops p server n
      × (send_with_policy p server ≡ some (record { outcome = server n; waits = delays p 0 n }))
unfolding send_with_policy
send_with_policy_lem p server =
    let most = max p.max_attempts 1 in
    let size : most ≡ suc (most - 1) = omega arith in
    let (n, retried, stops, e) = send_loop_lem p server (most - 1) 0 [] (omega arith) in
    let here : 0 + n ≡ n = omega arith in
    (
      n,
      retried,
      subst (Stops p server) here stops,
      ap (λ fuel. send_loop p server fuel 0 []) size
          ∙ e
          ∙ ap (λ k. sent server k (delays p 0 n)) here,
    )

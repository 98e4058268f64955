-- ===== src/Composable/Twap/Poll.antt =====
-- The phases of a TWAP order with a fixed start.
use native.Mathlib.Nat.{mul-le-mul}
use cow_rs.Base.{
  ℕ, ◌+◌, ◌*◌, ◌%◌, ◌^◌, ◌<◌, ◌≤◌, ◌≡◌, ◌-◌, leb, none, arith, lt→ltb, le→ltb, lt→leb, le→leb,
  lt_or_le, ◌⊎◌, inl, inr,
}
use cow_rs.Composable.Types.{
  starts_at, success, try_at_epoch, dont_try_again, is_expired, is_terminal,
}
use cow_rs.Composable.Twap.{TwapOrder, poll_validate}

product_fits : (n t : ℕ) → n < 2 ^ 32 → t < 2 ^ 32 → n * t ≤ (2 ^ 32 - 1) * (2 ^ 32 - 1)
product_fits n t p q = mul-le-mul {n₂ = 2 ^ 32 - 1} {m₂ = 2 ^ 32 - 1} (omega arith) (omega arith)

module _ (order : TwapOrder) (start : ℕ) (fixed : order.terms.start_time ≡ starts_at start)
    (h₁ : start < 2 ^ 32) (h₂ : order.terms.num_parts < 2 ^ 32)
    (h₃ : order.terms.part_duration < 2 ^ 32) where
  abbrev total : ℕ
  total = order.terms.num_parts * order.terms.part_duration

  exact_end : (start + total % 2 ^ 64) % 2 ^ 64 ≡ start + total
  exact_end = omega (arith, product_fits order.terms.num_parts order.terms.part_duration h₂ h₃)

  poll_before : (now : ℕ) → now < start → poll_validate order now ≡ try_at_epoch start
  unfolding poll_validate
  poll_before now h = rw (fixed, lt→ltb now start h)

  poll_during :
      (now : ℕ) → start ≤ now → now < start + total → poll_validate order now ≡ success none none
  unfolding poll_validate
  poll_during now h k = rw (fixed, le→ltb now start h, exact_end, lt→leb _ now k)

  poll_after :
      (now : ℕ)
      → start + total ≤ now
      → poll_validate order now ≡ dont_try_again "TWAP order has fully expired"
  unfolding poll_validate
  poll_after now h = rw (fixed, le→ltb now start (omega arith), exact_end, le→leb _ now h)

  is_expired_lem : (now : ℕ) → is_expired order.terms now ≡ leb (start + total) now
  unfolding is_expired
  is_expired_lem now = rw (fixed, exact_end)

  -- With start, number of parts and part duration below 2 ^ 32, an order with a fixed start is at
  -- any time in one of three phases: before the start it asks to be tried again at the start, for
  -- the duration of all its parts it is live, and from then on it is refused for good; and it is
  -- refused for good just when it counts as expired.
  poll_validate_phases :
      (now : ℕ)
      → (((now < start) × (poll_validate order now ≡ try_at_epoch start))
          ⊎ ((start ≤ now) × (now < start + total) × (poll_validate order now ≡ success none none))
          ⊎ ((start + total ≤ now)
              × (poll_validate order now ≡ dont_try_again "TWAP order has fully expired")))
        × (is_terminal (poll_validate order now) ≡ is_expired order.terms now)
  unfolding is_terminal
  poll_validate_phases now = elim (lt_or_le now start) [
    | inl h ↦ (
      inl (h, poll_before now h),
      rw (poll_before now h, is_expired_lem now, lt→leb (start + total) now (omega arith)),
    )
    | inr h ↦ elim (lt_or_le now (start + total)) [
      | inl k ↦ (
        inr (inl (h, k, poll_during now h k)),
        rw (poll_during now h k, is_expired_lem now, lt→leb (start + total) now k),
      )
      | inr k ↦ (
        inr (inr (k, poll_after now k)),
        rw (poll_after now k, is_expired_lem now, le→leb (start + total) now k),
      )
    ]
  ]

-- ===== src/Bridging/NearIntents/Calendar.antt =====
-- The Gregorian calendar, by the lengths of its years and months.
use cow_rs.Base.{
  ℕ, zero, suc, ◌+◌, ◌-◌, ◌*◌, ◌/◌, ◌%◌, ◌≡◌, refl, ◌==◌, ◌&&◌, ◌||◌, not, Bool, List, [], ◌∷◌,
  get_or, if◌then◌else◌, arith,
}

abbrev pub is_leap : ℕ → Bool
is_leap y = y % 4 == 0 && not (y % 100 == 0) || y % 400 == 0

abbrev pub leap_day : ℕ → ℕ
leap_day y = if is_leap y then 1 else 0

abbrev pub month_lengths : ℕ → List ℕ
month_lengths y = 31 ∷ (28 + leap_day y) ∷ 31 ∷ 30 ∷ 31 ∷ 30 ∷ 31 ∷ 31 ∷ 30 ∷ 31 ∷ 30 ∷ 31 ∷ []

abbrev pub days_in_month : ℕ → ℕ → ℕ
days_in_month y zero = 0
days_in_month y (suc m) = get_or (month_lengths y) m 0

abbrev pub days_before_month : ℕ → ℕ → ℕ
days_before_month y zero = 0
days_before_month y (suc m) = days_before_month y m + days_in_month y m

-- Since the first day of the year zero.
abbrev pub days_before_year : ℕ → ℕ
days_before_year zero = 0
days_before_year (suc y) = days_before_year y + (365 + leap_day y)

pub days_before_year_closed :
    (y : ℕ) → days_before_year y ≡ 365 * y + (y + 3) / 4 - (y + 99) / 100 + (y + 399) / 400
days_before_year_closed zero = refl
days_before_year_closed (suc y) =
    let before = days_before_year_closed y in
    let step : leap_day y + (y + 3) / 4 + (y + 399) / 400 + (y + 100) / 100
        ≡ (y + 4) / 4 + (y + 400) / 400 + (y + 99) / 100 =
      ground arith in
    omega arith

-- Whether a leap day falls in a year, by the counts of the years up to it.
pub leap_day_lem :
    (y : ℕ)
    → leap_day (suc y) + y / 4 + (y + 1) / 100 + y / 400 ≡ (y + 1) / 4 + (y + 1) / 400 + y / 100
leap_day_lem y = ground arith

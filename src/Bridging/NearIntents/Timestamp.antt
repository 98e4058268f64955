-- ===== src/Bridging/NearIntents/Timestamp.antt =====
-- The timestamp shows the instant in the Gregorian calendar.
use cow_rs.Base.{
  ℕ, zero, suc, ◌+◌, ◌-◌, ◌*◌, ◌/◌, ◌%◌, ◌<◌, ◌≤◌, ◌≡◌, refl, ltb, leb, false, Bool-cases, inl, inr,
  arith,
}
use cow_rs.Bridging.NearIntents.{
  IsoTimestamp, year_of_era, day_of_year, month_from_march, month_of, year_of, format_iso8601_utc,
}
use cow_rs.Bridging.NearIntents.Calendar.{
  leap_day, days_in_month, days_before_month, days_before_year, days_before_year_closed,
  leap_day_lem,
}

-- The days before the year that a day of the era falls in, counted from March.
abbrev before_year : ℕ → ℕ
before_year yoe = 365 * yoe + yoe / 4 - yoe / 100

year_small : (doe : ℕ) → doe < 146_097 → year_of_era doe ≤ 399
year_small doe h = omega arith

year_low : (doe : ℕ) → doe < 146_097 → before_year (year_of_era doe) ≤ doe
year_low doe h = omega arith

day_next :
    (doe : ℕ)
    → doe < 146_097
    → doe + (year_of_era doe + 1) / 100
      < 365 * (year_of_era doe + 1) + (year_of_era doe + 1) / 4 + (year_of_era doe + 1) / 400
day_next doe h = omega arith

-- A year from March on ends with the leap day of the next.
day_bound : (doe : ℕ) → doe < 146_097 → day_of_year doe < 365 + leap_day (suc (year_of_era doe))
day_bound doe h =
    omega (arith, year_small doe h, year_low doe h, day_next doe h, leap_day_lem (year_of_era doe))

-- The months from March to December, by their positions.
month_length :
    (y mp : ℕ) → mp < 10 → days_in_month y (mp + 3) + (153 * mp + 2) / 5 ≡ (153 * (mp + 1) + 2) / 5
month_length y zero h = refl
month_length y (suc zero) h = refl
month_length y (suc (suc zero)) h = refl
month_length y (suc (suc (suc zero))) h = refl
month_length y (suc (suc (suc (suc zero)))) h = refl
month_length y (suc (suc (suc (suc (suc zero))))) h = refl
month_length y (suc (suc (suc (suc (suc (suc zero)))))) h = refl
month_length y (suc (suc (suc (suc (suc (suc (suc zero))))))) h = refl
month_length y (suc (suc (suc (suc (suc (suc (suc (suc zero)))))))) h = refl
month_length y (suc (suc (suc (suc (suc (suc (suc (suc (suc zero))))))))) h = refl
month_length y (suc (suc (suc (suc (suc (suc (suc (suc (suc (suc n)))))))))) h =
    absurd (omega arith)

month_start :
    (y mp : ℕ) → mp ≤ 10 → days_before_month y (mp + 3) ≡ 59 + leap_day y + (153 * mp + 2) / 5
month_start y zero h = omega arith
month_start y (suc mp) h =
    let shift : suc mp + 3 ≡ suc (mp + 3) = omega arith in
    let next : days_before_month y (suc mp + 3)
        ≡ days_before_month y (mp + 3) + days_in_month y (mp + 3) =
      rw shift refl in
    omega (arith, next, month_start y mp (omega arith), month_length y mp (omega arith))

-- The number of a day, from the first of the year zero.
abbrev pub day_number : ℕ → ℕ → ℕ → ℕ
day_number year month day = days_before_year year + days_before_month year month + (day - 1)

-- A date that exists, with the number of the day.
pub record IsDate (year month day number : ℕ) : Type 0 where
  pub month_low : 1 ≤ month
  pub month_high : month ≤ 12
  pub day_low : 1 ≤ day
  pub day_high : day ≤ days_in_month year month
  pub counted : day_number year month day ≡ number

leap_day_le : (y : ℕ) → leap_day y ≤ 1
leap_day_le y = ground arith

-- The month and the year of a month from March.
shown-IsDate :
    (y mp day number : ℕ)
    → mp ≤ 11
    → (mp < 10 → IsDate y (mp + 3) day number)
    → (mp ≡ 10 → IsDate (suc y) 1 day number)
    → (mp ≡ 11 → IsDate (suc y) 2 day number)
    → IsDate (year_of y (month_of mp)) (month_of mp) day number
shown-IsDate y mp day number h early january february = elim (Bool-cases (ltb mp 10)) [
  | inl before ↦
      let small : mp < 10 = ground arith in
      let same_year : leb (mp + 3) 2 ≡ false = ground arith in rw (before, same_year) (early small)
  | inr behind ↦ elim (Bool-cases (leb mp 10)) [
    | inl first ↦
        let at : mp ≡ 10 = ground arith in
        let one : mp - 9 ≡ 1 = omega arith in
        let next : y + 1 ≡ suc y = omega arith in rw (behind, one, next) (january at)
    | inr second ↦
        let at : mp ≡ 11 = ground arith in
        let two : mp - 9 ≡ 2 = omega arith in
        let next : y + 1 ≡ suc y = omega arith in rw (behind, two, next) (february at)
  ]
]

module _ (era doe : ℕ) (h : doe < 146_097) where
  abbrev yoe : ℕ
  yoe = year_of_era doe

  abbrev doy : ℕ
  doy = day_of_year doe

  abbrev mp : ℕ
  mp = month_from_march doy

  -- The years before March of the year `yoe` of the era, and its days.
  year_start :
      (y : ℕ) → y ≡ yoe + era * 400 → days_before_year (suc y) + doy ≡ era * 146_097 + doe + 366
  year_start y e =
      omega (arith, e, days_before_year_closed (suc y), year_small doe h, year_low doe h)

  leap_same : (y : ℕ) → y ≡ yoe + era * 400 → leap_day (suc y) ≡ leap_day (suc yoe)
  leap_same y e = omega (arith, e, leap_day_lem y, leap_day_lem yoe)

  abbrev day : ℕ
  day = doy - (153 * mp + 2) / 5 + 1

  -- From March to December.
  early : (y : ℕ) → y ≡ yoe + era * 400 → mp < 10 → IsDate y (mp + 3) day (era * 146_097 + doe + 60)
  early y e small =
      let start = month_start y mp (omega arith) in
      let length = month_length y mp small in
      let year = year_start y e in
      record {
        month_low = omega arith;
        month_high = omega arith;
        day_low = omega arith;
        day_high = omega (arith, length);
        counted = omega (arith, start, year);
      }

  -- January and February, of the next year.
  january :
      (y : ℕ) → y ≡ yoe + era * 400 → mp ≡ 10 → IsDate (suc y) 1 day (era * 146_097 + doe + 60)
  january y e at =
      let year = year_start y e in
      record {
        month_low = omega arith;
        month_high = omega arith;
        day_low = omega arith;
        day_high = omega (arith, at);
        counted = omega (arith, at, year);
      }

  february :
      (y : ℕ) → y ≡ yoe + era * 400 → mp ≡ 11 → IsDate (suc y) 2 day (era * 146_097 + doe + 60)
  february y e at =
      let year = year_start y e in
      let last = day_bound doe h in
      record {
        month_low = omega arith;
        month_high = omega arith;
        day_low = omega arith;
        day_high = omega (arith, at, last, leap_same y e);
        counted = omega (arith, at, year);
      }

  last_month : mp ≤ 11
  last_month = omega (arith, day_bound doe h, leap_day_le (suc yoe))

  day-IsDate :
      IsDate (year_of (yoe + era * 400) (month_of mp)) (month_of mp) day (era * 146_097 + doe + 60)
  day-IsDate =
      shown-IsDate (yoe + era * 400) mp day (era * 146_097 + doe + 60) last_month
        (early (yoe + era * 400) refl) (january (yoe + era * 400) refl)
        (february (yoe + era * 400) refl)

-- A timestamp that shows an instant: a date that exists and a time of the day, whose seconds since the
-- first day of 1970 are those of the instant.
pub record Shows (t : IsoTimestamp) (unix_secs : ℕ) : Type 0 where
  pub date : IsDate t.year t.month t.day (day_number 1_970 1 1 + unix_secs / 86_400)
  pub hour : t.hour < 24
  pub minute : t.minute < 60
  pub second : t.second < 60
  pub seconds : t.hour * 3_600 + t.minute * 60 + t.second ≡ unix_secs % 86_400

-- The timestamp of every instant shows it in the Gregorian calendar.
pub format_iso8601_utc-Shows : (unix_secs : ℕ) → Shows (format_iso8601_utc unix_secs) unix_secs
unfolding format_iso8601_utc
format_iso8601_utc-Shows unix_secs =
    let z : ℕ = unix_secs / 86_400 + 719_468 in
    let era : ℕ = z / 146_097 in
    let doe : ℕ = z - era * 146_097 in
    let small : doe < 146_097 = omega arith in
    let epoch : day_number 1_970 1 1 ≡ 719_528 = omega (arith, days_before_year_closed 1_970) in
    let number : era * 146_097 + doe + 60 ≡ day_number 1_970 1 1 + unix_secs / 86_400 =
      omega (arith, epoch) in
    record {
      date = rw (← number) (day-IsDate era doe small);
      hour = omega arith;
      minute = omega arith;
      second = omega arith;
      seconds = omega arith;
    }

-- ===== src/Bundler/Calendar/Laws.antt =====
-- crates/bundler/src/lib.rs: `days_to_ymd` against the calendar.
use hwwctl.Prelude.{
  ℕ, zero, suc, ◌+◌, ◌-◌, ◌*◌, ◌/◌, ◌%◌, ◌<◌, ◌≡◌, refl, ap, ◌∙◌, arith, ltb, Bool-cases, inl, inr,
}
use hwwctl.Bundler.Calendar.{days_to_ymd, day_of_era, year_of_era, day_of_year, civil_date}
use hwwctl.Bundler.Calendar.Civil.{next_day, date_after}
use hwwctl.Bundler.Calendar.Eras.{
  IsIn, IsIn-year_of_era, year_of_era-IsIn, IsIn-last, IsIn-inside, IsIn-zero, size, size_era,
  start, next_day-civil_date,
}

-- What `days_to_ymd` answers for the day `doe` of an era, in year `y` of it.
days_to_ymd-IsIn :
    (n era y doe : ℕ)
    → n + 719468 ≡ era * 146097 + doe
    → IsIn y doe
    → days_to_ymd n ≡ civil_date (y + era * 400) (doe - start y)
unfolding days_to_ymd day_of_era day_of_year
days_to_ymd-IsIn n era y doe e h =
    let (bound, same) = IsIn-year_of_era y doe h in
    let quotient : (n + 719468) / 146097 ≡ era = omega arith in
    let rest : (n + 719468) - era * 146097 ≡ doe = omega arith in rw (quotient, rest, same) refl

-- The day after a day inside its year, and after the last day of its year.
days_to_ymd-inside :
    (n era y doe : ℕ)
    → n + 719468 ≡ era * 146097 + doe
    → IsIn y doe
    → doe + 1 < start y + size y
    → days_to_ymd (suc n) ≡ next_day (days_to_ymd n)
days_to_ymd-inside n era y doe e h more =
    rw
      (
        days_to_ymd-IsIn (suc n) era y (doe + 1) (omega arith) (IsIn-inside y doe h more),
        days_to_ymd-IsIn n era y doe e h,
      )
      (ground (arith, next_day-civil_date (y + era * 400) (doe - start y), size_era y era))

days_to_ymd-last :
    (n era y doe : ℕ)
    → n + 719468 ≡ era * 146097 + doe
    → IsIn y doe
    → doe + 1 ≡ start y + size y
    → days_to_ymd (suc n) ≡ next_day (days_to_ymd n)
days_to_ymd-last n era y doe e h last =
    rw (days_to_ymd-IsIn n era y doe e h) (elim (IsIn-last y doe h last) [
      | inl (ey, ed) ↦
          rw (days_to_ymd-IsIn (suc n) (era + 1) 0 0 (omega arith) IsIn-zero)
            (ground (arith, next_day-civil_date (y + era * 400) (doe - start y), size_era y era))
      | inr (next, first) ↦
          rw (days_to_ymd-IsIn (suc n) era (y + 1) (doe + 1) (omega arith) next)
            (ground (arith, next_day-civil_date (y + era * 400) (doe - start y), size_era y era))
    ])

-- Each day's date is the date behind that of the day before.
pub days_to_ymd-suc : (n : ℕ) → days_to_ymd (suc n) ≡ next_day (days_to_ymd n)
days_to_ymd-suc n =
    let era = (n + 719468) / 146097 in
    let doe = (n + 719468) % 146097 in
    let h = year_of_era-IsIn doe (omega arith) in
    elim (Bool-cases (ltb (doe + 1) (start (year_of_era doe) + size (year_of_era doe)))) [
      | inl more ↦ days_to_ymd-inside n era (year_of_era doe) doe (omega arith) h (ground arith)
      | inr last ↦ days_to_ymd-last n era (year_of_era doe) doe (omega arith) h (ground arith)
    ]

-- The date that is computed for a day is the one that the calendar reaches day by day from 1970-01-01.
pub days_to_ymd-date_after : (n : ℕ) → days_to_ymd n ≡ date_after n
unfolding date_after days_to_ymd civil_date day_of_era day_of_year year_of_era
days_to_ymd-date_after zero = refl
days_to_ymd-date_after (suc n) = days_to_ymd-suc n ∙ ap next_day (days_to_ymd-date_after n)

-- ===== src/Bundler/Calendar/Eras.antt =====
-- The years of 400 that `days_to_ymd` of crates/bundler/src/lib.rs counts from March: where each starts,
-- and the day behind each.
use hwwctl.Prelude.{ℕ, ◌+◌, ◌-◌, ◌*◌, ◌/◌, ◌≤◌, ◌<◌, ◌≡◌, ◌⊎◌, arith, if◌then◌else◌, ltb}
use hwwctl.Bundler.Calendar.{year_of_era, civil_date, Date}
use hwwctl.Bundler.Calendar.Civil.{is_leap, february, is_short, days_in_month, next_month, next_day}

-- The days of an era before year `y` of it.
abbrev pub start : ℕ → ℕ
start y = 365 * y + y / 4 - y / 100

-- The days of year `y`, whose last month is the February of year `y + 1`.
abbrev pub size : ℕ → ℕ
size y = if is_leap (y + 1) then 366 else 365

pub year_of_era_lower : (doe : ℕ) → doe < 146097 → start (year_of_era doe) ≤ doe
unfolding year_of_era
year_of_era_lower doe h = omega arith

pub year_of_era_upper :
    (doe : ℕ)
    → doe < 146097
    → (year_of_era doe < 400) × (doe < start (year_of_era doe) + size (year_of_era doe))
unfolding year_of_era is_leap
year_of_era_upper doe h = ground arith

-- The days of such a year before month `mp` of it.
abbrev pub month_start : ℕ → ℕ
month_start mp = (153 * mp + 2) / 5

abbrev month_date : ℕ → ℕ → ℕ → Date
month_date y mp k = (if ltb mp 10 then y else y + 1, if ltb mp 10 then mp + 3 else mp - 9, k + 1)

civil_date-month_start :
    (y mp k : ℕ)
    → mp < 12
    → month_start mp + k < month_start (mp + 1)
    → civil_date y (month_start mp + k) ≡ month_date y mp k
unfolding civil_date
civil_date-month_start y mp k h hk =
    let same : (5 * (month_start mp + k) + 2) / 153 ≡ mp = omega arith in rw same (ground arith)

-- Each month but the last has the days up to the start of the next.
days_in_month-month_start :
    (y mp : ℕ)
    → mp < 11
    → month_start mp + days_in_month (month_date y mp 0).0 (month_date y mp 0).1
      ≡ month_start (mp + 1)
unfolding days_in_month february is_short
days_in_month-month_start y mp h = ground arith

days_in_month-size : (y : ℕ) → month_start 11 + days_in_month (y + 1) 2 ≡ size y
unfolding days_in_month february is_short
days_in_month-size y = ground arith

next_day-month_date :
    (y mp k : ℕ)
    → mp < 11
    → month_start mp + k < month_start (mp + 1)
    → next_day (month_date y mp k) ≡ (
        if ltb (month_start mp + (k + 1)) (month_start (mp + 1))
        then month_date y mp (k + 1)
        else month_date y (mp + 1) 0)
unfolding next_day next_month
next_day-month_date y mp k h hk = ground (arith, days_in_month-month_start y mp h)

next_day-february :
    (y k : ℕ)
    → month_start 11 + k < size y
    → next_day (month_date y 11 k) ≡ (
        if ltb (month_start 11 + (k + 1)) (size y)
        then month_date y 11 (k + 1)
        else month_date (y + 1) 0 0)
unfolding next_day next_month
next_day-february y k hk = ground (arith, days_in_month-size y)

-- A day that is not the last of its year, by its month `mp` and its place `k` there.
civil_date-next_day :
    (y mp k : ℕ)
    → mp < 12
    → month_start mp + k < month_start (mp + 1)
    → month_start mp + k + 1 < size y
    → next_day (civil_date y (month_start mp + k)) ≡ civil_date y (month_start mp + k + 1)
civil_date-next_day y mp k h hk more = ground (
  arith,
  civil_date-month_start y mp k h hk,
  civil_date-month_start y mp (k + 1) h,
  civil_date-month_start y (mp + 1) 0,
  next_day-month_date y mp k,
  next_day-february y k,
)

civil_date-new_year :
    (y k : ℕ)
    → month_start 11 + k + 1 ≡ size y
    → next_day (civil_date y (month_start 11 + k)) ≡ civil_date (y + 1) 0
civil_date-new_year y k e = ground (
  arith,
  civil_date-month_start y 11 k,
  civil_date-month_start (y + 1) 0 0,
  next_day-february y k,
)

-- Each day of the year has its month and its place there.
month_of :
    (doy : ℕ)
    → doy < 366
    → (mp : ℕ) × (k : ℕ) × (mp < 12)
      × (doy ≡ month_start mp + k)
      × (month_start mp + k < month_start (mp + 1))
month_of doy h = (
  (5 * doy + 2) / 153,
  doy - month_start ((5 * doy + 2) / 153),
  omega arith,
  omega arith,
  omega arith,
)

-- The day after a day of a year that starts in March.
pub next_day-civil_date :
    (y doy : ℕ)
    → doy < size y
    → next_day (civil_date y doy)
      ≡ (if ltb (doy + 1) (size y) then civil_date y (doy + 1) else civil_date (y + 1) 0)
next_day-civil_date y doy h =
    let (mp, k, h_mp, e, h_k) = month_of doy (ground arith) in
    ground (arith, e, civil_date-next_day y mp k h_mp h_k, civil_date-new_year y k)

-- A day of an era is in one year of it.
abbrev pub IsIn : ℕ → ℕ → Type 0
IsIn y doe = (y < 400) × (start y ≤ doe) × (doe < start y + size y)

IsIn-lt : (a b doe : ℕ) → IsIn a doe → IsIn b doe → ¬ (a < b)
unfolding is_leap
IsIn-lt a b doe ha hb lt = ground arith

pub year_of_era-IsIn : (doe : ℕ) → doe < 146097 → IsIn (year_of_era doe) doe
year_of_era-IsIn doe h =
    ((year_of_era_upper doe h).0, year_of_era_lower doe h, (year_of_era_upper doe h).1)

pub IsIn-year_of_era : (y doe : ℕ) → IsIn y doe → (doe < 146097) × (year_of_era doe ≡ y)
IsIn-year_of_era y doe h =
    let bound : doe < 146097 = ground arith in
    (
      bound,
      omega (
        arith,
        IsIn-lt y (year_of_era doe) doe h (year_of_era-IsIn doe bound),
        IsIn-lt (year_of_era doe) y doe (year_of_era-IsIn doe bound) h,
      ),
    )

-- The day behind the last of a year is the first of the next, or of the next era.
pub IsIn-last :
    (y doe : ℕ)
    → IsIn y doe
    → doe + 1 ≡ start y + size y
    → ((y ≡ 399) × (doe ≡ 146096)) ⊎ (IsIn (y + 1) (doe + 1) × (doe + 1 ≡ start (y + 1)))
unfolding is_leap
IsIn-last y doe h e = ground arith

pub IsIn-inside : (y doe : ℕ) → IsIn y doe → doe + 1 < start y + size y → IsIn y (doe + 1)
IsIn-inside y doe h more = (h.0, omega arith, more)

pub IsIn-zero : IsIn 0 0
unfolding is_leap
IsIn-zero = ground arith

-- The leap years come back after 400 years.
pub size_era : (y era : ℕ) → size (y + era * 400) ≡ size y
unfolding is_leap
size_era y era = ground arith

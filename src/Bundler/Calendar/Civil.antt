-- ===== src/Bundler/Calendar/Civil.antt =====
-- The Gregorian calendar by its rules alone, to compare `days_to_ymd` of crates/bundler/src/lib.rs with:
-- no code of the repository is modelled here.
use hwwctl.Prelude.{ℕ, zero, suc, ◌+◌, ◌%◌, Bool, true, false, not, ◌&&◌, ◌||◌, ◌==◌, if◌then◌else◌}
use hwwctl.Bundler.Calendar.{Date}

-- Each fourth year, but of the centuries only each fourth.
unfoldable pub is_leap : ℕ → Bool
is_leap year = (year % 4 == 0) && (not (year % 100 == 0) || (year % 400 == 0))

unfoldable pub february : Bool → ℕ
february true = 29
february false = 28

unfoldable pub is_short : ℕ → Bool
is_short month = (month == 4) || (month == 6) || (month == 9) || (month == 11)

unfoldable pub days_in_month : ℕ → ℕ → ℕ
days_in_month year month =
    if month == 2 then february (is_leap year) else if is_short month then 30 else 31

-- The day after the last of a month, and after the last of a year.
unfoldable pub next_month : ℕ → ℕ → Date
next_month year month = if month == 12 then (year + 1, 1, 1) else (year, month + 1, 1)

unfoldable pub next_day : Date → Date
next_day (year, month, day) =
    if day == days_in_month year month then next_month year month else (year, month, day + 1)

-- The date so many days after 1970-01-01.
unfoldable pub date_after : ℕ → Date
date_after zero = (1970, 1, 1)
date_after (suc n) = next_day (date_after n)

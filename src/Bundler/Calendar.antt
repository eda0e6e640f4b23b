-- ===== src/Bundler/Calendar.antt =====
-- crates/bundler/src/lib.rs: `days_to_ymd` and `current_timestamp`. A clock's seconds are below 2 ^ 64,
-- so the largest sum, `days + 719468`, does not overflow.
pub mod Civil
pub mod Eras
pub mod Laws
use hwwctl.Prelude.{
  ℕ, ◌+◌, ◌-◌, ◌*◌, ◌/◌, ◌%◌, Text, codes, ◌++◌, List, [], ◌∷◌, if◌then◌else◌, ltb, leb, arith,
  length, replicate,
}
use hwwctl.Format.{decimal}

-- Year, month and day.
abbrev pub Date : Type 0
Date = ℕ × ℕ × ℕ

-- The day of its 400 years that a day counted from 0000-03-01 is.
unfoldable pub day_of_era : ℕ → ℕ
day_of_era z = z - z / 146097 * 146097

unfoldable pub year_of_era : ℕ → ℕ
year_of_era doe = (doe - doe / 1460 + doe / 36524 - doe / 146096) / 365

unfoldable pub day_of_year : ℕ → ℕ → ℕ
day_of_year doe yoe = doe - (365 * yoe + yoe / 4 - yoe / 100)

-- The end of `days_to_ymd`: from a year that starts in March and a day in it, both from 0.
unfoldable pub civil_date : ℕ → ℕ → Date
civil_date y doy =
    let mp = (5 * doy + 2) / 153 in
    let d = doy - (153 * mp + 2) / 5 + 1 in
    let m = if ltb mp 10 then mp + 3 else mp - 9 in (if leb m 2 then y + 1 else y, m, d)

unfoldable pub days_to_ymd : ℕ → Date
days_to_ymd days =
    let z = days + 719468 in
    let doe = day_of_era z in
    let yoe = year_of_era doe in civil_date (yoe + z / 146097 * 400) (day_of_year doe yoe)

-- `{n:0w$}` for a width `w`
unfoldable pub padded : ℕ → ℕ → Text
padded w n = replicate (w - length (decimal n)) b'0' ++ decimal n

-- `current_timestamp`, given the clock's seconds since the epoch
unfoldable pub current_timestamp : ℕ → Text
current_timestamp s =
    let (year, month, day) = days_to_ymd (s / 86400) in
    padded 4 year
    ++ codes "-"
    ++ padded 2 month
    ++ codes "-"
    ++ padded 2 day
    ++ codes "T"
    ++ padded 2 (s / 3600 % 24)
    ++ codes ":"
    ++ padded 2 (s / 60 % 60)
    ++ codes ":"
    ++ padded 2 (s % 60)
    ++ codes "Z"

-- ===== src/Allowance/Calendar/Defs.antt =====
-- The proleptic Gregorian calendar of crates/ket-core/src/allowance.rs: days since 1970-01-01 to
-- a date and back. The numbers are those of `u64`; every value stays far below 2 ^ 64 for days that
-- come from a time in seconds.
use ket.Common.{ℕ, ◌+◌, ◌-◌, ◌*◌, ◌/◌, ◌%◌, ltb, leb, if◌then◌else◌}

pub record Date : Type 0 where
  pub year : ℕ
  pub month : ℕ
  pub day : ℕ

-- `year_of_era`, from the day of a 400-year era.
unfoldable pub year_of_era : ℕ → ℕ
year_of_era day_of_era =
    (day_of_era - day_of_era / 1460 + day_of_era / 36524 - day_of_era / 146096) / 365

-- `day_of_year`, counted from 1 March.
unfoldable pub day_of_year : ℕ → ℕ
unfolding year_of_era
day_of_year day_of_era = let y = year_of_era day_of_era in day_of_era - (365 * y + y / 4 - y / 100)

unfoldable pub civil_from_days : ℕ → Date
unfolding day_of_year
civil_from_days days =
    let z = days + 719468 in
    let era = z / 146097 in
    let day_of_era = z % 146097 in
    let doy = day_of_year day_of_era in
    let shifted_month = (5 * doy + 2) / 153 in
    let m = if ltb shifted_month 10 then shifted_month + 3 else shifted_month - 9 in
    record {
      year = year_of_era day_of_era + era * 400 + (if leb m 2 then 1 else 0);
      month = m;
      day = doy - (153 * shifted_month + 2) / 5 + 1;
    }

unfoldable pub days_from_civil : ℕ → ℕ → ℕ → ℕ
days_from_civil year month day =
    let y = if leb month 2 then year - 1 else year in
    let era = y / 400 in
    let yoe = y % 400 in
    let shifted_month = if ltb 2 month then month - 3 else month + 9 in
    let doy = (153 * shifted_month + 2) / 5 + day - 1 in
    let day_of_era = yoe * 365 + yoe / 4 - yoe / 100 + doy in era * 146097 + day_of_era - 719468

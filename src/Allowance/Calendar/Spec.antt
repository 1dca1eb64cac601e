-- ===== src/Allowance/Calendar/Spec.antt =====
-- The Gregorian calendar by its rule book, with no arithmetic in common with
-- crates/ket-core/src/allowance.rs: month lengths, leap years, and the day after a date.
use ket.Common.{ℕ, ◌+◌, ◌%◌, Bool, not, ◌&&◌, ◌||◌, ltb, ◌==◌, if◌then◌else◌}
use ket.Allowance.Calendar.Defs.{Date}

unfoldable pub is_leap : ℕ → Bool
is_leap y = y % 4 == 0 && (not (y % 100 == 0) || y % 400 == 0)

unfoldable pub days_in_month : ℕ → ℕ → ℕ
days_in_month y m =
    if m == 2
    then (if is_leap y then 29 else 28)
    else (if m == 4 || m == 6 || m == 9 || m == 11 then 30 else 31)

unfoldable pub next_date : Date → Date
unfolding days_in_month
next_date d =
    if ltb d.day (days_in_month d.year d.month)
    then record d { day = d.day + 1 }
    else (if d.month == 12
        then record { year = d.year + 1; month = 1; day = 1 }
        else record { year = d.year; month = d.month + 1; day = 1 })

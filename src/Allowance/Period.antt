-- ===== src/Allowance/Period.antt =====
-- `AllowancePeriod`, `DataAllowance` and `AllowanceStatus` of crates/ket-core/src/allowance.rs.
-- Times are Unix seconds; a `u64` time never reaches 2 ^ 64 here: `end_lt` in Period.Tiling.
pub mod Tiling
use ket.Common.{ℕ, ◌+◌, ◌-◌, ◌*◌, ◌/◌, ◌%◌, ◌^◌, Bool, ◌&&◌, leb, ◌==◌, if◌then◌else◌}
use ket.Allowance.Calendar.Defs.{Date, civil_from_days, days_from_civil}

-- `MIN_ALLOWANCE_BYTES` and `MAX_ALLOWANCE_BYTES`
abbrev pub min_allowance_bytes : ℕ
min_allowance_bytes = 2 ^ 20

abbrev pub max_allowance_bytes : ℕ
max_allowance_bytes = 2 ^ 50

abbrev pub seconds_per_day : ℕ
seconds_per_day = 86400

pub data AllowancePeriod : Type 0 where
  day week month : AllowancePeriod

pub record DataAllowance : Type 0 where
  pub bytes : ℕ
  pub period : AllowancePeriod

-- `DataAllowance::is_valid`
unfoldable pub is_valid : DataAllowance → Bool
is_valid a = leb min_allowance_bytes a.bytes && leb a.bytes max_allowance_bytes

pub record AllowanceStatus : Type 0 where
  pub allowance : DataAllowance
  pub used_bytes : ℕ
  pub resets_at_epoch_seconds : ℕ

-- `AllowanceStatus::is_used_up`
unfoldable pub is_used_up : AllowanceStatus → Bool
is_used_up s = leb s.allowance.bytes s.used_bytes

-- The first day of the period that holds the given day.
unfoldable pub first_day : AllowancePeriod → ℕ → ℕ
first_day day d = d
first_day week d = d - (d + 3) % 7
first_day month d = let c = civil_from_days d in days_from_civil c.year c.month 1

-- `AllowancePeriod::start`
unfoldable pub start : AllowancePeriod → ℕ → ℕ
unfolding first_day
start p now = first_day p (now / seconds_per_day) * seconds_per_day

-- `AllowancePeriod::end`
unfoldable pub end : AllowancePeriod → ℕ → ℕ
unfolding start
end day now = start day now + seconds_per_day
end week now = start week now + 7 * seconds_per_day
end month now =
    let c = civil_from_days (now / seconds_per_day) in
    let next =
      if c.month == 12
      then record c { year = c.year + 1; month = 1 }
      else record c { month = c.month + 1 } in
    days_from_civil next.year next.month 1 * seconds_per_day

-- ===== src/Server/Usage.antt =====
-- crates/ket-server/src/allowance.rs: a grant's running total for the current period.
pub mod Totals
use ket.Common.{
  ℕ, ◌+◌, ◌-◌, ◌^◌, Bool, true, false, Option, none, some, ltb, ◌==◌, if◌then◌else◌, saturating_add,
}
use ket.Allowance.Period.{AllowancePeriod, DataAllowance, AllowanceStatus, is_used_up, start, end}
use ket.Server.Model.{AccessGrantRecord, PeriodUsage}

used_with : Option DataAllowance → Option PeriodUsage → ℕ → ℕ
used_with (some allowance) (some usage) now =
    if usage.period_start_epoch_seconds == start allowance.period now then usage.used_bytes else 0
used_with _ _ now = 0

-- `used`: what the grant's devices have moved this period.
unfoldable pub used : AccessGrantRecord → ℕ → ℕ
unfolding used_with
used grant now = used_with grant.allowance grant.usage now

status_with : Option DataAllowance → ℕ → ℕ → Option AllowanceStatus
status_with none total now = none
status_with (some allowance) total now = some (record {
  allowance = allowance;
  used_bytes = total;
  resets_at_epoch_seconds = end allowance.period now;
})

unfoldable pub status : AccessGrantRecord → ℕ → Option AllowanceStatus
unfolding status_with
status grant now = status_with grant.allowance (used grant now) now

used_up_with : Option AllowanceStatus → Option ℕ
unfolding is_used_up
used_up_with none = none
used_up_with (some s) = if is_used_up s then some s.resets_at_epoch_seconds else none

-- When the grant has used up this period's allowance, the time it resets.
unfoldable pub used_up_until : AccessGrantRecord → ℕ → Option ℕ
unfolding used_up_with status
used_up_until grant now = used_up_with (status grant now)

add_with : AccessGrantRecord → Option DataAllowance → ℕ → ℕ → AccessGrantRecord
add_with grant none bytes now = grant
add_with grant (some allowance) bytes now = if bytes == 0 then grant else record grant {
  usage = some (record {
    period_start_epoch_seconds = start allowance.period now;
    used_bytes = saturating_add (used grant now) bytes;
  });
}

-- `add`: counts `bytes` in this period's total.
unfoldable pub add : AccessGrantRecord → ℕ → ℕ → AccessGrantRecord
unfolding add_with
add grant bytes now = add_with grant grant.allowance bytes now

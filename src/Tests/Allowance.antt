-- ===== src/Tests/Allowance.antt =====
-- Dates, periods and totals at concrete times, and a change of a grant with one device.
use ket.Common.{
  ℕ, ◌≤◌, ◌<◌, ◌≡◌, ◌↔◌, refl, true, false, List, [], ◌∷◌, none, some, Text-discrete, arith, find,
  same_text, saturating_add, ok,
}
use ket.Allowance.Calendar.Defs.{civil_from_days, days_from_civil}
use ket.Allowance.Calendar.Spec.{next_date}
use ket.Allowance.Calendar.Days.{civil_from_days-suc, days_from_civil-civil_from_days}
use ket.Allowance.Period.{day, week, DataAllowance, start, end}
use ket.Allowance.Period.Tiling.{start-end}
use ket.Server.Model.{SessionRecord, PersistedState}
use ket.Server.Usage.{used, add, used_up_until}
use ket.Server.Usage.Totals.{used-add, used_up_until_iff}
use ket.Server.Errors.{SessionAllocation}
use ket.Server.Admin.{UpdateAccessGrantRequest, apply, changed_grant}
use ket.Server.Service.Grants.{live_of_grant}
use ket.Server.Effects.Limits.{apply-limit}
use ket.Tests.Data.{repeat, grant_id, grant, phone}

-- 2000-02-28 was day 11015, and the year was a leap year.
civil_11015 : civil_from_days 11015 ≡ record { year = 2000; month = 2; day = 28 }
unfolding civil_from_days
civil_11015 = refl

civil_from_days-suc_example : civil_from_days 11016 ≡ next_date (civil_from_days 11015)
civil_from_days-suc_example = civil_from_days-suc 11015

days_from_civil-civil_from_days_example :
    days_from_civil
      (civil_from_days 11016).year
      (civil_from_days 11016).month
      (civil_from_days 11016).day
    ≡ 11016
days_from_civil-civil_from_days_example = days_from_civil-civil_from_days 11016

start-end_example : start week (end week 350000) ≡ end week 350000
start-end_example = start-end week 350000 (omega arith)

abbrev two_megabytes : DataAllowance
two_megabytes = record { bytes = 2000000; period = day }

used-add_example : used (add grant 500 1000) 2000 ≡ saturating_add (used grant 1000) 500
unfolding used start end
used-add_example =
    used-add grant two_megabytes 500 1000 2000 refl (omega arith) tt (omega arith) (omega arith)

used_up_until_iff_example : (used_up_until grant 1000 ≡ some 86400) ↔ (
    (a : DataAllowance) × (grant.allowance ≡ some a)
    × (a.bytes ≤ used grant 1000)
    × (86400 ≡ end a.period 1000)
    × (1000 < 86400))
used_up_until_iff_example = used_up_until_iff grant 1000 86400

abbrev lease : ℕ → ℕ → SessionRecord
lease name slot = record {
  id = repeat name 12;
  grant_id = grant_id;
  secret_hash = none;
  control_secret_hash = some (repeat 100 32);
  data_plane_secret_hash = some (repeat 101 32);
  resource_slot = some slot;
  client_name = phone;
  issued_at_epoch_seconds = name;
  expires_at_epoch_seconds = 1600;
}

abbrev two_devices : PersistedState
two_devices = record {
  schema_version = 2;
  grants = grant ∷ [];
  sessions = lease 100 0 ∷ lease 99 1 ∷ [];
}

abbrev changes_nothing : UpdateAccessGrantRequest
changes_nothing = record {
  label = none;
  max_connections = none;
  expires_at_epoch_seconds = none;
  paused = none;
  protocols = none;
  allowance = none;
  reset_usage = false;
}

abbrev one_device : UpdateAccessGrantRequest
one_device = record changes_nothing {
  max_connections = some 1;
  expires_at_epoch_seconds = some 1200;
}

abbrev pause : UpdateAccessGrantRequest
pause = record changes_nothing { paused = some true }

-- The device that connected first stays, with its lease cut.
abbrev one_left : PersistedState
one_left = record {
  schema_version = 2;
  grants = record grant { max_connections = 1; expires_at_epoch_seconds = some 1200 } ∷ [];
  sessions = record (lease 99 1) { expires_at_epoch_seconds = 1200 } ∷ [];
}

abbrev ended : List SessionAllocation
ended = record { id = repeat 100 12; resource_slot = 0 } ∷ []

limits : apply two_devices grant_id one_device 1000 ≡ ok (one_left, ended)
unfolding apply Text-discrete used_up_until used
limits = refl

abbrev all_ended : List SessionAllocation
all_ended =
    record { id = repeat 100 12; resource_slot = 0 }
    ∷ record { id = repeat 99 12; resource_slot = 1 }
    ∷ []

abbrev none_left : PersistedState
none_left = record {
  schema_version = 2;
  grants = record grant { paused = true } ∷ [];
  sessions = [];
}

pauses_all : apply two_devices grant_id pause 1000 ≡ ok (none_left, all_ended)
unfolding apply Text-discrete
pauses_all = refl

found : find (λ g. same_text g.id grant_id) two_devices.grants ≡ some grant
unfolding Text-discrete
found = refl

apply-limit_example :
    live_of_grant grant_id 1000 one_left.sessions
    ≤ (changed_grant one_device 1000 grant).max_connections
apply-limit_example =
    apply-limit two_devices one_left grant_id one_device 1000 ended grant found limits

-- ===== src/Tests/Counting.antt =====
-- What the meter reports for a device, the sums of a count, and an activity log.
use ket.Common.{ℕ, ◌+◌, ◌≡◌, refl, List, [], ◌∷◌, none, some, Text, Text-discrete, arith}
use ket.Server.Model.{SessionRecord}
use ket.Server.Activity.{Activity, session, checked_in, left, record_activity}
use ket.Server.Activity.Bounded.{AllTidy, record_activity-AllTidy}
use ket.Server.Service.Upkeep.{Moved}
use ket.Server.Meter.{UsageReading, MeteredSession, UsageMeter, last_reading, take}
use ket.Server.Meter.Counting.{climb_over, moved_over, moved_over-climb}
use ket.Tests.Data.{repeat, grant_id, phone}

abbrev phone_id : Text
phone_id = repeat 99 12

abbrev phone_session : MeteredSession
phone_session = record {
  allocation = record { id = phone_id; resource_slot = 0 };
  issued_at_epoch_seconds = 50;
  counted_since_epoch_seconds = 10;
}

abbrev reading : ℕ → UsageReading
reading n = record { session_id = phone_id; engine = 0; since = 0; bytes = n }

-- Ket started again at 100, and has read the device's counter once.
abbrev meter : UsageMeter
meter = record {
  started_at = 100;
  last = record { engine = 0; session_id = phone_id; since = 0; bytes = 5000 } ∷ [];
}

abbrev calls : List (List MeteredSession × List UsageReading)
calls =
    (phone_session ∷ [], reading 5600 ∷ [])
    ∷ (phone_session ∷ [], [])
    ∷ (phone_session ∷ [], reading 5700 ∷ reading 5700 ∷ [])
    ∷ []

read_before : last_reading meter.last 0 phone_id ≡ some (0, 5000)
unfolding last_reading Text-discrete
read_before = refl

climbs : climb_over 0 phone_id 0 5000 calls ≡ some 5700
unfolding climb_over Text-discrete
climbs = refl

moved_over-climb_example : moved_over meter calls phone_id + 5000 ≡ 5700
moved_over-climb_example =
    moved_over-climb meter calls 0 phone_id 0 5000 5700 read_before climbs (omega arith)

-- A counter that began before Ket started only sets the starting point.
first_reading :
    (take (record meter { last = [] }) (phone_session ∷ []) (reading 5000 ∷ [])).1
    ≡ (phone_id, 0) ∷ []
unfolding take Text-discrete
first_reading = refl

abbrev device : ℕ → SessionRecord
device name = record {
  id = repeat name 12;
  grant_id = grant_id;
  secret_hash = none;
  control_secret_hash = some (repeat 100 32);
  data_plane_secret_hash = none;
  resource_slot = some name;
  client_name = phone;
  issued_at_epoch_seconds = 1000;
  expires_at_epoch_seconds = 1600;
}

abbrev two_moved : Moved
two_moved = (repeat 99 12, 300) ∷ (repeat 100 12, 50) ∷ []

abbrev check_in : Activity
check_in = session checked_in phone_id phone

abbrev leaves : Activity
leaves = session left phone_id phone

record_activity-AllTidy_example :
    AllTidy (record_activity (record_activity [] grant_id check_in 1) grant_id leaves 2)
record_activity-AllTidy_example =
    record_activity-AllTidy (record_activity [] grant_id check_in 1) grant_id leaves 2
      (record_activity-AllTidy [] grant_id check_in 1 tt)

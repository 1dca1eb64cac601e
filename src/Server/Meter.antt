-- ===== src/Server/Meter.antt =====
-- crates/ket-server/src/meter.rs: what each session moved since the last reading of the engines'
-- running counters.
pub mod Counting
use ket.Common.{
  ℕ, ◌+◌, ◌-◌, ◌≡◌, max, Bool, true, false, not, ◌&&◌, List, [], ◌∷◌, Option, none, some, Text, ltb,
  leb, ◌==◌, if◌then◌else◌, retain, same_text,
}
use ket.Server.Validate.{is_some}
use ket.Server.Errors.{SessionAllocation}
use ket.Server.Service.Upkeep.{Moved, count_bytes}

-- `UsageReading` of crates/ket-server/src/data_plane.rs
pub record UsageReading : Type 0 where
  pub session_id : Text
  pub engine : ℕ
  pub since : ℕ
  pub bytes : ℕ

pub record MeteredSession : Type 0 where
  pub allocation : SessionAllocation
  pub issued_at_epoch_seconds : ℕ
  pub counted_since_epoch_seconds : ℕ

-- A counter of an engine for a session, and its last reading.
pub record Counter : Type 0 where
  pub engine : ℕ
  pub session_id : Text
  pub since : ℕ
  pub bytes : ℕ

-- `last` is a map from (engine, session) to (since, bytes).
pub record UsageMeter : Type 0 where
  pub started_at : ℕ
  pub last : List Counter

-- `UsageMeter::new`
abbrev pub new : ℕ → UsageMeter
new started_at = record { started_at = started_at; last = [] }

-- The map `sessions_by_id`: of two sessions with one ID the later one stays.
unfoldable pub session_by_id : List MeteredSession → Text → Option MeteredSession
session_by_id [] id = none
session_by_id (s ∷ ss) id = elim (session_by_id ss id) [
  | some t ↦ some t
  | none ↦ if same_text s.allocation.id id then some s else none
]

abbrev pub counts : ℕ → Text → Counter → Bool
counts engine id k = k.engine == engine && same_text k.session_id id

-- `last.get(&key)`
unfoldable pub last_reading : List Counter → ℕ → Text → Option (ℕ × ℕ)
last_reading [] engine id = none
last_reading (k ∷ ks) engine id =
    if counts engine id k then some (k.since, k.bytes) else last_reading ks engine id

-- `last.insert(key, (reading.since, reading.bytes))`
abbrev pub counter_of : UsageReading → Counter
counter_of r = record {
  engine = r.engine;
  session_id = r.session_id;
  since = r.since;
  bytes = r.bytes;
}

unfoldable pub insert_reading : List Counter → UsageReading → List Counter
insert_reading [] r = counter_of r ∷ []
insert_reading (k ∷ ks) r =
    if counts r.engine r.session_id k then counter_of r ∷ ks else k ∷ insert_reading ks r

-- What a reading adds, by the last reading of its counter.
unfoldable pub delta : ℕ → MeteredSession → Option (ℕ × ℕ) → UsageReading → ℕ
delta started_at s (some (since, bytes)) r =
    if since == r.since && leb bytes r.bytes then r.bytes - bytes else r.bytes
delta started_at s none r =
    let began = max s.issued_at_epoch_seconds r.since in
    if leb (max started_at s.counted_since_epoch_seconds) began then r.bytes else 0

-- The loop over the readings.
unfoldable pub take_readings :
    ℕ → List MeteredSession → List Counter → Moved → List UsageReading → List Counter × Moved
unfolding session_by_id last_reading insert_reading delta count_bytes
take_readings started_at ss last moved [] = (last, moved)
take_readings started_at ss last moved (r ∷ rs) = elim (session_by_id ss r.session_id) [
  | none ↦ take_readings started_at ss last moved rs
  | some s ↦
      take_readings started_at ss (insert_reading last r)
        (count_bytes moved r.session_id
          (delta started_at s (last_reading last r.engine r.session_id) r))
        rs
]

-- `take`
unfoldable pub take : UsageMeter → List MeteredSession → List UsageReading → UsageMeter × Moved
unfolding session_by_id take_readings
take m ss readings =
    let known = retain (λ (k : Counter). is_some (session_by_id ss k.session_id)) m.last in
    let (last, moved) = take_readings m.started_at ss known [] readings in
    (record m { last = last }, moved)

-- ===== src/Server/Service/Upkeep.antt =====
-- What the server does on its own: loading, expiry, and the data that devices moved, in
-- crates/ket-server/src/service.rs.
use ket.Common.{
  ℕ, ◌-◌, saturating_add, not, ◌&&◌, ◌||◌, List, [], ◌∷◌, Option, none, some, Text, ltb, leb,
  if◌then◌else◌, any, retain, map, is_empty, same_text, Result, ok, ◌>>=◌, ◌>>◌,
}
use ket.Server.Model.{AccessGrantRecord, SessionRecord, PersistedState, Crypto}
use ket.Server.Usage.{used_up_until, add}
use ket.Server.Validate.{is_some}
use ket.Server.Errors.{ServiceError, SessionAllocation}
use ket.Server.Activity.{lease_ended, ended_allowance_used}
use ket.Server.Slots.{
  allocations, take_expired_sessions, forget_stale_grants, prepare_resource_slots,
}
use ket.Server.Service.State.{
  AccessService, Outside, store_file, commit, note_ended, forget_missing_activity,
}

-- `load`: `loaded` is what the repository read.
unfoldable pub load : Crypto → Outside → PersistedState → ℕ → ℕ → Result ServiceError AccessService
unfolding prepare_resource_slots store_file
load c out loaded session_ttl max_sessions = do
  (state, changed) ← prepare_resource_slots loaded max_sessions out.now
  (if changed then store_file c out.disk state else ok tt)
  ok (record {
    state = state;
    file = if changed then state else loaded;
    activity = [];
    usage_stored_at = out.noted_at;
    session_ttl = session_ttl;
    max_sessions = max_sessions;
  })

-- `expire_sessions`
unfoldable pub expire_sessions :
    Crypto → Outside → AccessService → Result ServiceError (AccessService × List SessionAllocation)
unfolding take_expired_sessions forget_stale_grants allocations commit note_ended
    forget_missing_activity
expire_sessions c out svc = do
  let (live, ended) = take_expired_sessions svc.state out.now
  expired ← allocations ended
  let (next, forgot_grants) = forget_stale_grants live out.now
  if is_empty expired && not forgot_grants
      then ok (svc, expired)
      else (commit c out svc next >>= λ stored.
          ok (forget_missing_activity (note_ended stored out.noted_at ended lease_ended), expired))

-- What each session, and each grant, moved: a map from IDs to bytes.
abbrev pub Moved : Type 0
Moved = List (Text × ℕ)

unfoldable pub moved_by : Moved → Text → Option ℕ
moved_by [] id = none
moved_by ((i, n) ∷ moved) id = if same_text i id then some n else moved_by moved id

-- `entry(id).or_insert(0)`, then a saturating addition.
unfoldable pub count_bytes : Moved → Text → ℕ → Moved
count_bytes [] id bytes = (id, saturating_add 0 bytes) ∷ []
count_bytes ((i, n) ∷ moved) id bytes =
    if same_text i id
    then (i, saturating_add n bytes) ∷ moved
    else (i, n) ∷ count_bytes moved id bytes

-- The loop over the sessions that sums `moved` for each grant.
unfoldable pub per_grant : Moved → Moved → List SessionRecord → Moved
unfolding moved_by count_bytes
per_grant moved totals [] = totals
per_grant moved totals (s ∷ ss) =
    per_grant moved
      (elim (moved_by moved s.id) [
        | none ↦ totals
        | some bytes ↦ if ltb 0 bytes then count_bytes totals s.grant_id bytes else totals
      ])
      ss

-- The loop over the grants.
unfoldable pub add_usage : Moved → ℕ → List AccessGrantRecord → List AccessGrantRecord
unfolding add moved_by
add_usage totals now [] = []
add_usage totals now (g ∷ gs) =
    (elim (moved_by totals g.id) [ none ↦ g | some bytes ↦ add g bytes now ])
    ∷ add_usage totals now gs

-- The IDs of the grants that have used up their allowance.
abbrev pub used_up_ids : ℕ → List AccessGrantRecord → List Text
used_up_ids now gs = map (λ g. g.id) (retain (λ g. is_some (used_up_until g now)) gs)

abbrev pub usage_store_interval_seconds : ℕ
usage_store_interval_seconds = 60

-- The state after the count, and the sessions that it ends.
unfoldable pub counted : Moved → ℕ → PersistedState → PersistedState × List SessionRecord
unfolding per_grant add_usage
counted moved now st =
    let grants = add_usage (per_grant moved [] st.sessions) now st.grants in
    let used_up = used_up_ids now grants in
    (
      record st {
        grants = grants;
        sessions = retain (λ s. not (any (λ i. same_text i s.grant_id) used_up)) st.sessions;
      },
      retain (λ s. any (λ i. same_text i s.grant_id) used_up) st.sessions,
    )

-- `record_usage`: the state always advances; the file only when a session ends or the interval
-- has passed.
unfoldable pub record_usage :
    Crypto
    → Outside
    → AccessService
    → Moved
    → Result ServiceError (AccessService × List SessionAllocation)
unfolding counted allocations store_file note_ended
record_usage c out svc moved = do
  let (next, ending) = counted moved out.now svc.state
  ended ← allocations ending
  let stores =
      not (is_empty ending)
      || (not (is_empty (per_grant moved [] svc.state.sessions))
          && leb usage_store_interval_seconds (out.now - svc.usage_stored_at))
  (if stores then store_file c out.disk next else ok tt)
  let stored =
      if stores
      then record svc { state = next; file = next; usage_stored_at = out.now }
      else record svc { state = next }
  ok (note_ended stored out.noted_at ending ended_allowance_used, ended)

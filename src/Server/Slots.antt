-- ===== src/Server/Slots.antt =====
-- Resource slots and leases over the list of sessions: the free functions of
-- crates/ket-server/src/service.rs.
pub mod Free
use ket.Common.{
  ℕ, zero, suc, ◌+◌, ◌-◌, ◌*◌, Bool, true, false, not, ◌&&◌, ◌||◌, List, [], ◌∷◌, ◌++◌, Option,
  none, some, Text, ltb, leb, ◌==◌, if◌then◌else◌, any, retain, length, map, same_text, Result, ok,
  err, ◌>>=◌, ok_or, find,
}
use ket.Server.Model.{AccessGrantRecord, SessionRecord, PersistedState}
use ket.Server.Usage.{used_up_until}
use ket.Server.Validate.{is_some, is_some_and, is_none_or}
use ket.Server.Validate.WellFormed.{slots}
use ket.Server.Errors.{
  ServiceError, invalid_slots, SlotFault, slot_exceeds_capacity, slots_duplicated,
  sessions_exceed_slots, no_slot, SessionAllocation,
}

-- `required_resource_slot`
unfoldable pub required_resource_slot : SessionRecord → Result ServiceError ℕ
required_resource_slot s = ok_or s.resource_slot (invalid_slots no_slot)

-- `session_allocation`
unfoldable pub session_allocation : SessionRecord → Result ServiceError SessionAllocation
unfolding required_resource_slot
session_allocation s = do
  slot ← required_resource_slot s
  ok (record { id = s.id; resource_slot = slot })

-- `.map(session_allocation).collect::<Result<Vec<_>, _>>()`
unfoldable pub allocations : List SessionRecord → Result ServiceError (List SessionAllocation)
unfolding session_allocation
allocations [] = ok []
allocations (s ∷ ss) = do a ← session_allocation s; rest ← allocations ss; ok (a ∷ rest)

-- `(first..max_sessions).find(|slot| !used.contains(slot))`, with the number of slots to try.
unfoldable pub first_free : ℕ → ℕ → List ℕ → Option ℕ
first_free zero slot used = none
first_free (suc left) slot used =
    let next = first_free left (slot + 1) used in
    if any (λ k. k == slot) used then next else some slot

-- `next_resource_slot`
unfoldable pub next_resource_slot : PersistedState → ℕ → Option ℕ
unfolding first_free
next_resource_slot st max_sessions = first_free max_sessions 0 (slots st.sessions)

abbrev pub is_live : ℕ → SessionRecord → Bool
is_live now s = ltb now s.expires_at_epoch_seconds

-- `take_expired_sessions`: the state with the live sessions, and the expired ones.
unfoldable pub take_expired_sessions : PersistedState → ℕ → PersistedState × List SessionRecord
take_expired_sessions st now = (
  record st { sessions = retain (λ s. not (leb s.expires_at_epoch_seconds now)) st.sessions },
  retain (λ s. leb s.expires_at_epoch_seconds now) st.sessions,
)

abbrev pub expired_grant_retention_seconds : ℕ
expired_grant_retention_seconds = 7 * 24 * 60 * 60

-- The closure `stale` of `forget_stale_grants`.
abbrev pub stale : ℕ → AccessGrantRecord → Bool
stale now g =
    is_some_and (λ e. leb expired_grant_retention_seconds (now - e)) g.expires_at_epoch_seconds

-- `forget_stale_grants`
unfoldable pub forget_stale_grants : PersistedState → ℕ → PersistedState × Bool
forget_stale_grants st now =
    let forgotten = map (λ g. g.id) (retain (stale now) st.grants) in
    let kept = retain (λ g. not (stale now g)) st.grants in
    (
      record st {
        grants = kept;
        sessions = retain (λ s. not (any (λ i. same_text i s.grant_id) forgotten)) st.sessions;
      },
      not (length kept == length st.grants),
    )

-- `admits`
unfoldable pub admits : SessionRecord → AccessGrantRecord → ℕ → Bool
admits s g now =
    ltb now s.expires_at_epoch_seconds
    && not g.paused
    && is_none_or (λ e. ltb now e) g.expires_at_epoch_seconds
    && not (is_some (used_up_until g now))

-- The first loop of `prepare_resource_slots`: `used` is what it has inserted.
unfoldable pub check_slots : ℕ → List SessionRecord → List ℕ → Result ServiceError (List ℕ)
check_slots max_sessions [] used = ok used
check_slots max_sessions (s ∷ ss) used = elim s.resource_slot [
  | none ↦ check_slots max_sessions ss used
  | some slot ↦
      if leb max_sessions slot
      then err (invalid_slots slot_exceeds_capacity)
      else (if any (λ k. k == slot) used
          then err (invalid_slots slots_duplicated)
          else check_slots max_sessions ss (used ++ slot ∷ []))
]

-- The second loop: each session without a slot gets the first free one.
unfoldable pub assign_slots :
    ℕ → List SessionRecord → List ℕ → Result ServiceError (List SessionRecord × Bool)
unfolding first_free
assign_slots max_sessions [] used = ok ([], false)
assign_slots max_sessions (s ∷ ss) used = elim s.resource_slot [
  | some slot ↦ do (rest, changed) ← assign_slots max_sessions ss used; ok (s ∷ rest, changed)
  | none ↦ do
    slot ← ok_or (first_free max_sessions 0 used) (invalid_slots sessions_exceed_slots)
    (rest, changed) ← assign_slots max_sessions ss (used ++ slot ∷ [])
    ok (record s { resource_slot = some slot } ∷ rest, true)
]

-- `prepare_resource_slots`: the prepared state, and whether it differs.
unfoldable pub prepare_resource_slots :
    PersistedState → ℕ → ℕ → Result ServiceError (PersistedState × Bool)
unfolding check_slots assign_slots
prepare_resource_slots st max_sessions now = do
  let live = retain (is_live now) st.sessions
  let dropped = not (length live == length st.sessions)
  used ← check_slots max_sessions live []
  (sessions, changed) ← assign_slots max_sessions live used
  ok (record st { sessions = sessions }, dropped || changed)

-- ===== src/Server/Service/Views.antt =====
-- The calls of crates/ket-server/src/service.rs that only look at the state.
use ket.Common.{
  ℕ, Bool, ◌&&◌, List, [], ◌∷◌, Option, none, some, Text, leb, map, find, retain, same_text, Result,
  ok, err, ◌>>=◌, ok_or, sort_by,
}
use ket.Server.Model.{SessionRecord, PersistedState}
use ket.Server.Validate.{is_some}
use ket.Server.Errors.{ServiceError, not_found, SessionAllocation}
use ket.Server.Slots.{is_live, session_allocation, allocations}
use ket.Server.Meter.{MeteredSession}
use ket.Server.Service.Grants.{AccessGrantSummary, grant_summary, live_sessions}

pub record GrantDevice : Type 0 where
  pub allocation : SessionAllocation
  pub client_name : Text
  pub connected_at_epoch_seconds : ℕ
  pub session_expires_at_epoch_seconds : ℕ

-- `list_grants`
unfoldable pub list_grants : PersistedState → ℕ → List AccessGrantSummary
unfolding grant_summary
list_grants st now = map (λ g. grant_summary st g now) st.grants

-- The closure of `grant_details`, over the sessions.
unfoldable pub devices_of : List SessionRecord → Result ServiceError (List GrantDevice)
unfolding session_allocation
devices_of [] = ok []
devices_of (s ∷ ss) = do
  allocation ← session_allocation s
  rest ← devices_of ss
  ok (
      record {
        allocation = allocation;
        client_name = s.client_name;
        connected_at_epoch_seconds = s.issued_at_epoch_seconds;
        session_expires_at_epoch_seconds = s.expires_at_epoch_seconds;
      }
      ∷ rest)

abbrev pub connected_before : GrantDevice → GrantDevice → Bool
connected_before a b = leb a.connected_at_epoch_seconds b.connected_at_epoch_seconds

-- `grant_details`
unfoldable pub grant_details :
    PersistedState → Text → ℕ → Result ServiceError (AccessGrantSummary × List GrantDevice)
unfolding devices_of grant_summary
grant_details st id now = do
  grant ← ok_or (find (λ g. same_text g.id id) st.grants) not_found
  devices ← devices_of (retain (λ s. same_text s.grant_id id && is_live now s) st.sessions)
  ok (grant_summary st grant now, sort_by connected_before devices)

-- The closure of `metered_sessions`: a session of a grant with an allowance.
unfoldable pub metered : PersistedState → SessionRecord → Option MeteredSession
unfolding session_allocation
metered st s = elim (find (λ g. same_text g.id s.grant_id && is_some g.allowance) st.grants) [
  | none ↦ none
  | some g ↦ elim (session_allocation s) [
    | err e ↦ none
    | ok allocation ↦ some (record {
      allocation = allocation;
      issued_at_epoch_seconds = s.issued_at_epoch_seconds;
      counted_since_epoch_seconds = or_zero g.allowance_since_epoch_seconds;
    })
  ]
]
  where
    or_zero : Option ℕ → ℕ
    or_zero none = 0
    or_zero (some n) = n

unfoldable pub metered_each : PersistedState → List SessionRecord → List MeteredSession
unfolding metered
metered_each st [] = []
metered_each st (s ∷ ss) =
    let rest = metered_each st ss in elim (metered st s) [ none ↦ rest | some m ↦ m ∷ rest ]

-- `metered_sessions`
unfoldable pub metered_sessions : PersistedState → ℕ → List MeteredSession
unfolding metered_each
metered_sessions st now = metered_each st (retain (is_live now) st.sessions)

-- `active_session_count`
unfoldable pub active_session_count : PersistedState → ℕ → ℕ
active_session_count st now = live_sessions now st.sessions

-- `active_session_allocations`
unfoldable pub active_session_allocations :
    PersistedState → ℕ → Result ServiceError (List SessionAllocation)
unfolding allocations
active_session_allocations st now = allocations (retain (is_live now) st.sessions)

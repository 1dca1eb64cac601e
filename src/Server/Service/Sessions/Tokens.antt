-- ===== src/Server/Service/Sessions/Tokens.antt =====
-- Calls with a control token: `authenticate`, `session`, `renew_session` and `end_session` of
-- crates/ket-server/src/service.rs.
use ket.Common.{
  ℕ, Bool, not, List, [], ◌∷◌, Option, none, some, Text, if◌then◌else◌, find, retain, same_text,
  Result, ok, err, ◌>>=◌, ◌>>◌, guard, ok_or,
}
use ket.Server.Model.{AccessGrantRecord, SessionRecord, PersistedState, Crypto}
use ket.Server.Usage.{status}
use ket.Server.Errors.{
  ServiceError, unauthorized, invalid_slots, bad_control_hash, SessionAllocation, SessionView,
}
use ket.Server.Activity.{GrantActivityEvent, session, checked_in}
use ket.Server.Secrets.{split_session_token, verify_token_secret}
use ket.Server.Slots.{session_allocation, required_resource_slot, admits}
use ket.Server.Service.State.{AccessService, Outside, commit, note, note_ended}
use ket.Server.Service.Sessions.Enrolment.{lease_end, verify}

abbrev pub find_session : List SessionRecord → Text → Option SessionRecord
find_session ss id = find (λ s. same_text s.id id) ss

-- The session that a token names, with its grant.
unfoldable pub session_and_grant :
    PersistedState → Text → Result ServiceError (SessionRecord × AccessGrantRecord)
session_and_grant st id = do
  s ← ok_or (find_session st.sessions id) unauthorized
  g ← ok_or (find (λ g. same_text g.id s.grant_id) st.grants) unauthorized
  ok (s, g)

abbrev check_hashes :
    Crypto → Bool → Text → Option (List ℕ) → Option Text → Result ServiceError Bool
check_hashes c permit secret (some expected) none = ok (verify_token_secret c secret expected)
check_hashes c permit secret none (some legacy) = verify c permit secret legacy
check_hashes c permit secret _ _ = err (invalid_slots bad_control_hash)

unfoldable pub check_control_hash : Crypto → Bool → Text → SessionRecord → Result ServiceError Bool
unfolding verify verify_token_secret
check_control_hash c permit secret s =
    check_hashes c permit secret s.control_secret_hash s.secret_hash

-- `authenticate`
unfoldable pub authenticate :
    Crypto
    → ℕ
    → Bool
    → PersistedState
    → Text
    → Result ServiceError (SessionRecord × AccessGrantRecord)
unfolding split_session_token session_and_grant check_control_hash admits
authenticate c now permit st token = do
  parts ← ok_or (split_session_token token) unauthorized
  (s, g) ← session_and_grant st parts.id
  authorized ← check_control_hash c permit parts.secret s
  guard authorized unauthorized
  guard (admits s g now) unauthorized
  ok (s, g)

-- The view of a session with the given end.
abbrev pub view : SessionRecord → AccessGrantRecord → ℕ → ℕ → ℕ → SessionView
view s g slot expires_at now = record {
  id = s.id;
  grant_id = g.id;
  resource_slot = slot;
  client_name = s.client_name;
  expires_at_epoch_seconds = expires_at;
  access_expires_at_epoch_seconds = g.expires_at_epoch_seconds;
  protocols = g.protocols;
  allowance = status g now;
}

-- `session`
unfoldable pub session_view :
    Crypto → Outside → AccessService → Bool → Text → Result ServiceError SessionView
unfolding authenticate required_resource_slot
session_view c out svc permit token = do
  (s, g) ← authenticate c out.now permit svc.state token
  slot ← required_resource_slot s
  ok (view s g slot s.expires_at_epoch_seconds out.now)

-- The lease of the first session with the ID, given a new end.
unfoldable pub extend_lease : Text → ℕ → List SessionRecord → Option (List SessionRecord)
extend_lease id expires_at [] = none
extend_lease id expires_at (s ∷ ss) =
    if same_text s.id id
    then some (record s { expires_at_epoch_seconds = expires_at } ∷ ss)
    else elim (extend_lease id expires_at ss) [ none ↦ none | some rest ↦ some (s ∷ rest) ]

-- The answer to a renewal.
unfoldable pub renewed_view :
    SessionRecord → AccessGrantRecord → ℕ → ℕ → Result ServiceError SessionView
unfolding required_resource_slot
renewed_view s g expires_at now = do
  slot ← required_resource_slot s
  ok (view s g slot expires_at now)

-- The locked part of `renew_session`, for the copies that `authenticate` returned: other calls may
-- have changed the state since. An error before the store leaves the service as it was; the answer is
-- made after it, and may be an error too, for a record without a slot.
unfoldable pub renew_authenticated :
    Crypto
    → Outside
    → AccessService
    → SessionRecord
    → AccessGrantRecord
    → Result ServiceError (AccessService × Result ServiceError SessionView)
unfolding extend_lease commit note renewed_view
renew_authenticated c out svc s g = do
  let expires_at = lease_end svc.session_ttl out.now g.expires_at_epoch_seconds
  sessions ← ok_or (extend_lease s.id expires_at svc.state.sessions) unauthorized
  stored ← commit c out svc (record svc.state { sessions = sessions })
  ok (
    note stored out.noted_at g.id (session checked_in s.id s.client_name),
    renewed_view s g expires_at out.now,
  )

-- `renew_session`, with no other call between its two locks.
unfoldable pub renew_session :
    Crypto
    → Outside
    → AccessService
    → Bool
    → Text
    → Result ServiceError (AccessService × Result ServiceError SessionView)
unfolding authenticate renew_authenticated
renew_session c out svc permit token = do
  (s, g) ← authenticate c out.now permit svc.state token
  renew_authenticated c out svc s g

-- The locked part of `end_session`; `event` is noted, if there is one.
unfoldable pub end_authenticated :
    Crypto
    → Outside
    → AccessService
    → SessionRecord
    → Option GrantActivityEvent
    → Result ServiceError (AccessService × SessionAllocation)
unfolding session_allocation commit note_ended
end_authenticated c out svc s event = do
  allocation ← session_allocation s
  stored ←
      commit c out svc
        (record svc.state { sessions = retain (λ t. not (same_text t.id s.id)) svc.state.sessions })
  ok (elim event [ none ↦ stored | some e ↦ note_ended stored out.noted_at (s ∷ []) e ], allocation)

-- `end_session`: `release_session` with the event `left`, `discard_session` with none.
unfoldable pub end_session :
    Crypto
    → Outside
    → AccessService
    → Bool
    → Text
    → Option GrantActivityEvent
    → Result ServiceError (AccessService × SessionAllocation)
unfolding authenticate end_authenticated
end_session c out svc permit token event = do
  (s, g) ← authenticate c out.now permit svc.state token
  end_authenticated c out svc s event

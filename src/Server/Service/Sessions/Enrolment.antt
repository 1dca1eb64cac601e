-- ===== src/Server/Service/Sessions/Enrolment.antt =====
-- Enrolment: `create_session` and `admit_session` of crates/ket-server/src/service.rs.
use ket.Common.{
  ℕ, min, saturating_add, Bool, not, List, [], ◌∷◌, ◌++◌, Option, none, some, Text, leb, ltb,
  if◌then◌else◌, any, find, same_text, Result, ok, err, ◌>>=◌, ◌>>◌, guard, ok_or,
}
use ket.Server.Model.{AccessGrantRecord, SessionRecord, PersistedState, Crypto}
use ket.Server.Usage.{status, used_up_until}
use ket.Server.Validate.{is_some_and, max_client_name_length}
use ket.Server.Errors.{
  ServiceError, unauthorized, grant_expired, grant_capacity, grant_paused, allowance_used,
  node_capacity, crypto, CreatedSession,
}
use ket.Server.Activity.{
  GrantActivityEvent, enrollment, lease_ended, refused_wrong_code, refused_expired, refused_paused,
  refused_allowance_used, refused_device_limit, refused_server_full,
}
use ket.Server.Secrets.{Parts, split_access_code}
use ket.Server.Slots.{allocations, take_expired_sessions, next_resource_slot}
use ket.Server.Service.State.{AccessService, Outside, commit, note, note_ended}
use ket.Server.Service.Grants.{validate_text, live_of_grant, live_sessions}

-- The tokens that a new session gets; both carry its ID.
pub record NewTokens : Type 0 where
  pub id : Text
  pub control_secret : Text
  pub data_plane_secret : Text

-- The end of a lease taken at `now`.
abbrev pub lease_end : ℕ → ℕ → Option ℕ → ℕ
lease_end session_ttl now none = saturating_add now session_ttl
lease_end session_ttl now (some grant_expiry) = min (saturating_add now session_ttl) grant_expiry

abbrev allowance_left : AccessGrantRecord → ℕ → Result ServiceError (Unit {0})
allowance_left g now = elim (used_up_until g now) [
  | some resets_at ↦ err (allowance_used resets_at)
  | none ↦ ok tt
]

-- The record of a new session.
abbrev pub new_session : Crypto → NewTokens → Text → Text → ℕ → ℕ → ℕ → SessionRecord
new_session c tokens grant_id client_name slot now expires_at = record {
  id = tokens.id;
  grant_id = grant_id;
  secret_hash = none;
  control_secret_hash = some (c.hash_token_secret tokens.control_secret);
  data_plane_secret_hash = some (c.hash_token_secret tokens.data_plane_secret);
  resource_slot = some slot;
  client_name = client_name;
  issued_at_epoch_seconds = now;
  expires_at_epoch_seconds = expires_at;
}

-- The part of `admit_session` under the lock up to the store, for the grant with the given ID: the
-- next state, what is returned, and the leases that ran out.
unfoldable pub prepare_session :
    Crypto
    → ℕ
    → AccessService
    → Text
    → NewTokens
    → Text
    → Result ServiceError (PersistedState × CreatedSession × List SessionRecord)
unfolding take_expired_sessions allocations used_up_until next_resource_slot status
prepare_session c now svc grant_id tokens client_name = do
  let (live, expired) = take_expired_sessions svc.state now
  expired_allocations ← allocations expired
  grant ← ok_or (find (λ g. same_text g.id grant_id) live.grants) unauthorized
  guard (not (is_some_and (λ e. leb e now) grant.expires_at_epoch_seconds)) grant_expired
  guard (not grant.paused) grant_paused
  allowance_left grant now
  guard (ltb (live_of_grant grant.id now live.sessions) grant.max_connections) grant_capacity
  guard (ltb (live_sessions now live.sessions) svc.max_sessions) node_capacity
  slot ← ok_or (next_resource_slot live svc.max_sessions) node_capacity
  let expires_at = lease_end svc.session_ttl now grant.expires_at_epoch_seconds
  guard (not (any (λ s. same_text s.id tokens.id) live.sessions)) crypto
  ok (
    record live {
      sessions =
          live.sessions ++ new_session c tokens grant.id client_name slot now expires_at ∷ [];
    },
    record {
      id = tokens.id;
      grant_id = grant.id;
      resource_slot = slot;
      expired_allocations = expired_allocations;
      client_name = client_name;
      expires_at_epoch_seconds = expires_at;
      access_expires_at_epoch_seconds = grant.expires_at_epoch_seconds;
      protocols = grant.protocols;
      allowance = status grant now;
    },
    expired,
  )

-- `admit_session`: `grant` is the copy that `create_session` took before; `verified` is what the
-- workers answer to the check of the secret.
unfoldable pub admit_session :
    Crypto
    → Outside
    → AccessService
    → AccessGrantRecord
    → Result ServiceError Bool
    → NewTokens
    → Text
    → Result ServiceError (AccessService × CreatedSession)
unfolding prepare_session commit note_ended
admit_session c out svc grant verified tokens client_name = do
  right ← verified
  guard right unauthorized
  guard (not grant.paused) grant_paused
  allowance_left grant out.now
  (next, created, expired) ← prepare_session c out.now svc grant.id tokens client_name
  stored ← commit c out svc next
  ok (note_ended stored out.noted_at expired lease_ended, created)

-- `enrollment_refusal`
unfoldable pub enrollment_refusal : ServiceError → Option GrantActivityEvent
enrollment_refusal unauthorized = some refused_wrong_code
enrollment_refusal grant_expired = some refused_expired
enrollment_refusal grant_paused = some refused_paused
enrollment_refusal (allowance_used resets_at) = some refused_allowance_used
enrollment_refusal grant_capacity = some refused_device_limit
enrollment_refusal node_capacity = some refused_server_full
enrollment_refusal _ = none

-- A refusal is noted against the grant.
unfoldable pub note_refusal :
    AccessService
    → ℕ
    → Text
    → Text
    → Result ServiceError (AccessService × CreatedSession)
    → AccessService × Result ServiceError CreatedSession
unfolding enrollment_refusal note
note_refusal svc at grant_id client_name (ok (svc', created)) = (svc', ok created)
note_refusal svc at grant_id client_name (err e) = elim (enrollment_refusal e) [
  | some event ↦ (note svc at grant_id (enrollment event client_name), err e)
  | none ↦ (svc, err e)
]

-- The early returns of `create_session`: the client's name, the code's parts and the grant.
unfoldable pub check_enrollment :
    AccessService → Text → Text → Result ServiceError (Text × Parts × AccessGrantRecord)
unfolding validate_text split_access_code
check_enrollment svc access_code client_name = do
  name ← validate_text client_name max_client_name_length
  code ← ok_or (split_access_code access_code) unauthorized
  grant ← ok_or (find (λ g. same_text g.id code.id) svc.state.grants) unauthorized
  ok (name, code, grant)

-- The workers' answer about a secret: `busy` when no permit is free, else what Argon2 says.
unfoldable pub verify : Crypto → Bool → Text → Text → Result ServiceError Bool
verify c permit secret hash =
    if permit then ok (c.verify_secret secret hash) else err ServiceError.busy

-- `create_session`, with no other call between its look at the grants and its lock.
unfoldable pub create_session :
    Crypto
    → Outside
    → AccessService
    → Bool
    → NewTokens
    → Text
    → Text
    → AccessService × Result ServiceError CreatedSession
unfolding check_enrollment admit_session note_refusal verify
create_session c out svc permit tokens access_code client_name =
    elim (check_enrollment svc access_code client_name) [
      | err e ↦ (svc, err e)
      | ok (name, code, grant) ↦ note_refusal svc out.noted_at code.id name (
          admit_session c out svc grant (verify c permit code.secret grant.secret_hash) tokens name)
    ]

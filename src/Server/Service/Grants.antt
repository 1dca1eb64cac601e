-- ===== src/Server/Service/Grants.antt =====
-- Grants: `create_grant`, `update_grant` and `revoke_grant` of crates/ket-server/src/service.rs.
use ket.Common.{
  ℕ, ◌*◌, saturating_add, Bool, false, not, ◌&&◌, ◌||◌, List, [], ◌∷◌, ◌++◌, Option, none, some,
  Text, ltb, leb, ◌==◌, if◌then◌else◌, any, find, retain, is_empty, same_text, Result, ok, err,
  ◌>>=◌, ◌>>◌, guard, ok_or, length,
}
use mathlib.Core.Option
use ket.Common.Chars.{utf8_len, trim, is_control}
use ket.Allowance.Period.{DataAllowance, AllowanceStatus, is_valid}
use ket.Server.Model.{
  AccessGrantRecord, SessionRecord, PersistedState, ProtocolAccess, Crypto, protocols_valid,
}
use ket.Server.Usage.{status}
use ket.Server.Validate.{is_some_and, is_none_or, max_label_length}
use ket.Server.Errors.{
  ServiceError, invalid_input, bad_text, bad_max_connections, bad_validity, no_protocols,
  bad_allowance, bad_expiry, changes_nothing, not_found, crypto, SessionAllocation,
}
use ket.Server.Activity.{ended_by_change}
use ket.Server.Secrets.{split_access_code}
use ket.Server.Slots.{allocations, is_live}
use ket.Server.Admin.{UpdateAccessGrantRequest, is_empty_request, apply}
use ket.Server.Service.State.{AccessService, Outside, commit, note_ended, forget_missing_activity}

abbrev pub max_access_grant_validity_minutes : ℕ
max_access_grant_validity_minutes = 365 * 24 * 60

-- `validate_text`: the trimmed text, if it may be kept.
unfoldable pub validate_text : Text → ℕ → Result ServiceError Text
unfolding utf8_len trim is_control
validate_text value maximum =
    let trimmed = trim value in
    if is_empty trimmed || ltb maximum (utf8_len trimmed) || any is_control trimmed
    then err (invalid_input bad_text)
    else ok trimmed

-- `validate_protocols` and `validate_allowance`
unfoldable pub validate_protocols : ProtocolAccess → Result ServiceError (Unit {0})
unfolding protocols_valid
validate_protocols protocols = guard (protocols_valid protocols) (invalid_input no_protocols)

unfoldable pub validate_allowance : Option DataAllowance → Result ServiceError (Unit {0})
unfolding is_valid
validate_allowance allowance = guard (is_none_or is_valid allowance) (invalid_input bad_allowance)

pub record CreateAccessGrantRequest : Type 0 where
  pub label : Text
  pub max_connections : ℕ
  pub valid_for_minutes : ℕ
  pub protocols : ProtocolAccess
  pub allowance : Option DataAllowance

-- The record of a new grant.
abbrev pub new_grant : CreateAccessGrantRequest → Text → Text → Text → ℕ → AccessGrantRecord
new_grant r id label hash now = record {
  id = id;
  secret_hash = hash;
  label = label;
  max_connections = r.max_connections;
  expires_at_epoch_seconds = some (saturating_add now (r.valid_for_minutes * 60));
  created_at_epoch_seconds = now;
  paused = false;
  protocols = r.protocols;
  allowance = r.allowance;
  allowance_since_epoch_seconds = Option.map (λ (a : DataAllowance). now) r.allowance;
  usage = none;
}

-- `create_grant`: `code` is the generated access code, `hashed` the answer of the hashing workers.
-- The result is the new record, of which the response repeats the fields.
unfoldable pub create_grant :
    Crypto
    → Outside
    → AccessService
    → CreateAccessGrantRequest
    → Text
    → Result ServiceError Text
    → Result ServiceError (AccessService × AccessGrantRecord)
unfolding validate_text validate_protocols validate_allowance split_access_code commit
create_grant c out svc r code hashed = do
  label ← validate_text r.label max_label_length
  guard (not (r.max_connections == 0 || ltb svc.max_sessions r.max_connections))
      (invalid_input bad_max_connections)
  guard
      (not (r.valid_for_minutes == 0 || ltb max_access_grant_validity_minutes r.valid_for_minutes))
      (invalid_input bad_validity)
  validate_protocols r.protocols
  validate_allowance r.allowance
  parts ← ok_or (split_access_code code) crypto
  hash ← hashed
  let grant = new_grant r parts.id label hash out.now
  guard (not (any (λ g. same_text g.id grant.id) svc.state.grants)) crypto
  svc' ← commit c out svc (record svc.state { grants = svc.state.grants ++ grant ∷ [] })
  ok (svc', grant)

pub record AccessGrantSummary : Type 0 where
  pub id : Text
  pub label : Text
  pub max_connections : ℕ
  pub active_connections : ℕ
  pub expires_at_epoch_seconds : Option ℕ
  pub created_at_epoch_seconds : ℕ
  pub paused : Bool
  pub protocols : ProtocolAccess
  pub allowance : Option AllowanceStatus

-- A grant's sessions that are live at `now`, and all live sessions.
abbrev pub live_of_grant : Text → ℕ → List SessionRecord → ℕ
live_of_grant id now ss = length (retain (λ s. same_text s.grant_id id && is_live now s) ss)

abbrev pub live_sessions : ℕ → List SessionRecord → ℕ
live_sessions now ss = length (retain (is_live now) ss)

-- `grant_summary`
unfoldable pub grant_summary : PersistedState → AccessGrantRecord → ℕ → AccessGrantSummary
unfolding status
grant_summary st g now = record {
  id = g.id;
  label = g.label;
  max_connections = g.max_connections;
  active_connections = live_of_grant g.id now st.sessions;
  expires_at_epoch_seconds = g.expires_at_epoch_seconds;
  created_at_epoch_seconds = g.created_at_epoch_seconds;
  paused = g.paused;
  protocols = g.protocols;
  allowance = status g now;
}

abbrev trimmed_label : Option Text → Result ServiceError (Option Text)
trimmed_label none = ok none
trimmed_label (some label) = validate_text label max_label_length >>= λ l. ok (some l)

abbrev check_some {ℓ} :
    {A : Type ℓ} → (A → Result ServiceError (Unit {0})) → Option A → Result ServiceError (Unit {0})
check_some f none = ok tt
check_some f (some a) = f a

-- The checks of `update_grant` before it takes the lock: the request with its label trimmed.
unfoldable pub checked_update :
    ℕ → ℕ → UpdateAccessGrantRequest → Result ServiceError UpdateAccessGrantRequest
unfolding is_empty_request validate_text validate_protocols validate_allowance
checked_update max_sessions now r = do
  guard (not (is_empty_request r)) (invalid_input changes_nothing)
  label ← trimmed_label r.label
  guard (not (is_some_and (λ d. d == 0 || ltb max_sessions d) r.max_connections))
      (invalid_input bad_max_connections)
  let latest_end = saturating_add now (max_access_grant_validity_minutes * 60)
  guard (not (is_some_and (λ e. leb e now || ltb latest_end e) r.expires_at_epoch_seconds))
      (invalid_input bad_expiry)
  check_some validate_protocols r.protocols
  check_some validate_allowance r.allowance
  ok (record r { label = label })

-- `update_grant`
unfoldable pub update_grant :
    Crypto
    → Outside
    → AccessService
    → Text
    → UpdateAccessGrantRequest
    → Result ServiceError (AccessService × AccessGrantSummary × List SessionAllocation)
unfolding checked_update apply commit note_ended grant_summary
update_grant c out svc id request = do
  changes ← checked_update svc.max_sessions out.now request
  (next, ended) ← apply svc.state id changes out.now
  stored ← commit c out svc next
  let ended_sessions = retain (λ s. any (λ a. same_text a.id s.id) ended) svc.state.sessions
  let noted = note_ended stored out.noted_at ended_sessions ended_by_change
  grant ← ok_or (find (λ g. same_text g.id id) next.grants) not_found
  ok (noted, grant_summary next grant out.now, ended)

-- `revoke_grant`
unfoldable pub revoke_grant :
    Crypto
    → Outside
    → AccessService
    → Text
    → Result ServiceError (AccessService × List SessionAllocation)
unfolding allocations commit forget_missing_activity
revoke_grant c out svc id = do
  guard (any (λ g. same_text g.id id) svc.state.grants) not_found
  revoked ← allocations (retain (λ s. same_text s.grant_id id) svc.state.sessions)
  stored ← commit c out svc (record svc.state {
    grants = retain (λ g. not (same_text g.id id)) svc.state.grants;
    sessions = retain (λ s. not (same_text s.grant_id id)) svc.state.sessions;
  })
  ok (forget_missing_activity stored, revoked)

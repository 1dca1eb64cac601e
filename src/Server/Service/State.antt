-- ===== src/Server/Service/State.antt =====
-- The state that the service keeps behind its lock, the store, and the activity notes.
use ket.Common.{
  ℕ, List, [], ◌∷◌, Option, none, some, Text, ◌==◌, any, same_text, Result, ok, err, ◌>>=◌,
  if◌then◌else◌,
}
use ket.Server.Model.{SessionRecord, PersistedState, Crypto, current_state_schema_version}
use ket.Server.Validate.{validate}
use ket.Server.Errors.{
  ServiceError, persistence, RepositoryError, unsupported_schema, invalid_state,
}
use ket.Server.Activity.{
  Activity, ActivityLog, GrantActivityEvent, session, record_activity, retain_grants,
}

-- `file` is the content of the state file.
pub record AccessService : Type 0 where
  pub state : PersistedState
  pub file : PersistedState
  pub activity : ActivityLog
  pub usage_stored_at : ℕ
  pub session_ttl : ℕ
  pub max_sessions : ℕ

-- What a call takes from outside: the clock at its own reading and at that of its notes, and the
-- failure that the disk gives a store, if any.
pub record Outside : Type 0 where
  pub now : ℕ
  pub noted_at : ℕ
  pub disk : Option RepositoryError

-- `store_file`: the checks before any write, then the disk. The file is replaced by a rename, so a
-- failed write leaves the old one.
unfoldable pub store_file :
    Crypto → Option RepositoryError → PersistedState → Result ServiceError (Unit {0})
unfolding validate
store_file c disk st =
    if st.schema_version == current_state_schema_version
    then (elim (validate c st) [
      | err fault ↦ err (persistence (invalid_state fault))
      | ok done ↦ elim disk [ none ↦ ok tt | some failure ↦ err (persistence failure) ]
    ])
    else err (persistence (unsupported_schema st.schema_version))

-- `PersistedState::default`
abbrev pub default_state : PersistedState
default_state = record { schema_version = current_state_schema_version; grants = []; sessions = [] }

-- `match state.schema_version` in `load_file`: the legacy version 1 is read as version 2.
unfoldable pub upgrade_schema : PersistedState → Result ServiceError PersistedState
upgrade_schema st =
    if st.schema_version == 1
    then ok (record st { schema_version = current_state_schema_version })
    else (if st.schema_version == current_state_schema_version
        then ok st
        else err (persistence (unsupported_schema st.schema_version)))

-- `load_file`, from what the file system and the JSON parser give: no file, or its records or an
-- error.
unfoldable pub load_file :
    Crypto → Option (Result RepositoryError PersistedState) → Result ServiceError PersistedState
unfolding upgrade_schema validate
load_file c none = ok default_state
load_file c (some (err failure)) = err (persistence failure)
load_file c (some (ok parsed)) = do
  st ← upgrade_schema parsed
  elim (validate c st) [ err fault ↦ err (persistence (invalid_state fault)) | ok done ↦ ok st ]

-- `self.repository.store(&next).await?; *state = next;`
unfoldable pub commit :
    Crypto → Outside → AccessService → PersistedState → Result ServiceError AccessService
unfolding store_file
commit c out svc next =
    store_file c out.disk next >>= λ _. ok (record svc { state = next; file = next })

-- `note`
unfoldable pub note : AccessService → ℕ → Text → Activity → AccessService
unfolding record_activity
note svc at grant_id activity =
    if any (λ g. same_text g.id grant_id) svc.state.grants
    then record svc { activity = record_activity svc.activity grant_id activity at }
    else svc

-- `note_ended`
unfoldable pub note_ended :
    AccessService → ℕ → List SessionRecord → GrantActivityEvent → AccessService
unfolding note
note_ended svc at [] event = svc
note_ended svc at (s ∷ ss) event =
    note_ended (note svc at s.grant_id (session event s.id s.client_name)) at ss event

-- `forget_missing_activity`
unfoldable pub forget_missing_activity : AccessService → AccessService
unfolding retain_grants
forget_missing_activity svc = record svc {
  activity = retain_grants (λ id. any (λ g. same_text g.id id) svc.state.grants) svc.activity;
}

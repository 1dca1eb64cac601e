-- ===== src/Tests/Service.antt =====
-- A grant is made, a device enrols, shows its session and leaves, and the grant is changed and revoked.
use ket.Common.{Text, List}
use ket.Common.{
  ◌≤◌, ◌<◌, ◌≡◌, ◌↔◌, refl, true, false, [], ◌∷◌, ◌++◌, none, some, arith, length, find, any,
  same_text, OnSome, All, ok, err,
}
use ket.Common.{Text-discrete}
use ket.Common.Chars.{valid_text, valid_identifier}
use ket.Server.Validate.{check_grant, check_session, validate}
use ket.Server.Usage.{status, used, used_up_until}
use ket.Server.Activity.{record_activity, session, ended_allowance_used}
use ket.Server.Secrets.{split_session_token, Digest-discrete}
use ket.Allowance.Period.{start}
use ket.Server.Model.{AccessGrantRecord, SessionRecord, PersistedState, everything}
use ket.Server.Errors.{CreatedSession}
use ket.Server.Service.State.{AccessService, load_file}
use ket.Server.Service.Grants.{create_grant, revoke_grant}
use ket.Server.Service.Sessions.{admit_session, note_refusal, end_session}
use ket.Server.Service.Upkeep.{Moved, load, record_usage}
use ket.Server.Service.Invariant.{Inv}
use ket.Server.Service.Grants.{live_of_grant, live_sessions}
use ket.Server.Service.Sessions.{session_view, authenticate}
use ket.Server.Service.Upkeep.{used_up_ids}
use ket.Server.Errors.{SessionView, unauthorized}
use ket.Server.Validate.WellFormed.{WellFormed}
use ket.Server.Validate.Sessions.{validate_iff}
use ket.Server.Keeps.Steps.{Step, creates_grant, Reach, loads, calls, Reach-Inv, Reach-sessions_le}
use ket.Server.Effects.Enrolment.{admit_session-limits, admit_session-session_view}
use ket.Server.Effects.Room.{prepare_session-room}
use ket.Server.Effects.Release.{end_session-refused, revoke_grant-gone}
use ket.Server.Effects.Counts.{record_usage-used_up}
use ket.Server.Activity.{enrollment, refused_wrong_code}
use ket.Server.Service.Sessions.{create_session, NewTokens, prepare_session}
use ket.Tests.Data.{
  repeat, plain, outside, fresh, request, grant_id, grant, with_grant, tokens, control_token, phone,
}

loaded : load_file plain none ≡ ok fresh.state
unfolding load_file
loaded = refl

starts : load plain outside fresh.state 600 2 ≡ ok fresh
unfolding load
starts = refl

creates :
    create_grant plain outside fresh request (grant_id ++ repeat 98 22) (ok (repeat 98 22))
    ≡ ok (with_grant, grant)
unfolding create_grant check_grant valid_text Text-discrete
creates = refl

abbrev enrolled_record : SessionRecord
enrolled_record = record {
  id = repeat 99 12;
  grant_id = grant_id;
  secret_hash = none;
  control_secret_hash = some (repeat 100 32);
  data_plane_secret_hash = some (repeat 101 32);
  resource_slot = some 0;
  client_name = phone;
  issued_at_epoch_seconds = 1000;
  expires_at_epoch_seconds = 1600;
}

abbrev enrolled_state : PersistedState
enrolled_state = record { schema_version = 2; grants = grant ∷ []; sessions = enrolled_record ∷ [] }

abbrev enrolled : AccessService
enrolled = record with_grant { state = enrolled_state; file = enrolled_state }

abbrev created : CreatedSession
created = record {
  id = repeat 99 12;
  grant_id = grant_id;
  resource_slot = 0;
  expired_allocations = [];
  client_name = phone;
  expires_at_epoch_seconds = 1600;
  access_expires_at_epoch_seconds = some 4600;
  protocols = everything;
  allowance = status grant 1000;
}

enrols :
    admit_session plain outside with_grant grant (ok true) tokens phone ≡ ok (enrolled, created)
unfolding admit_session check_grant valid_text Text-discrete used valid_identifier check_session
enrols = refl

ends :
    end_session plain outside enrolled true control_token none
    ≡ ok (with_grant, record { id = repeat 99 12; resource_slot = 0 })
unfolding end_session check_grant valid_text Text-discrete Digest-discrete used_up_until used
ends = refl

revokes :
    revoke_grant plain outside enrolled grant_id
    ≡ ok (fresh, record { id = repeat 99 12; resource_slot = 0 } ∷ [])
unfolding revoke_grant check_grant valid_text Text-discrete
revokes = refl

splits :
    split_session_token control_token
    ≡ some (record { id = tokens.id; secret = tokens.control_secret })
unfolding split_session_token
splits = refl

-- The device moves 2 MB within a few seconds, which uses up the grant's allowance.
abbrev moved : Moved
moved = (repeat 99 12, 2000000) ∷ []

abbrev spent : AccessGrantRecord
spent = record grant {
  usage = some (record { period_start_epoch_seconds = 0; used_bytes = 2000000 });
}

abbrev spent_state : PersistedState
spent_state = record { schema_version = 2; grants = spent ∷ []; sessions = [] }

abbrev counted_service : AccessService
counted_service = record enrolled {
  state = spent_state;
  file = spent_state;
  activity = record_activity [] grant_id (session ended_allowance_used (repeat 99 12) phone) 1000;
}

counts :
    record_usage plain outside enrolled moved
    ≡ ok (counted_service, record { id = repeat 99 12; resource_slot = 0 } ∷ [])
unfolding record_usage check_grant valid_text Text-discrete used_up_until used start
    valid_identifier
counts = refl

enrols_noted :
    note_refusal with_grant 1000 grant_id phone
      (admit_session plain outside with_grant grant (ok true) tokens phone)
    ≡ (enrolled, ok created)
unfolding note_refusal
enrols_noted = rw enrols refl

abbrev run : Reach plain enrolled
run =
    calls with_grant enrolled
      (calls fresh with_grant (loads fresh outside none 600 2 fresh.state loaded starts) (
        creates_grant outside request (grant_id ++ repeat 98 22) (ok (repeat 98 22)) grant creates))
      (Step.enrols outside grant (ok true) tokens grant_id phone (ok created) enrols_noted)

Reach-Inv_example : Inv plain enrolled
Reach-Inv_example = Reach-Inv plain enrolled run

Reach-sessions_le_example : length enrolled.state.sessions ≤ 2
Reach-sessions_le_example = Reach-sessions_le plain enrolled run

validate_iff_example : (validate plain enrolled_state ≡ ok tt) ↔ WellFormed plain enrolled_state
validate_iff_example = validate_iff plain enrolled_state

admit_session-limits_example :
    (found : AccessGrantRecord) × (find (λ x. same_text x.id grant_id) (grant ∷ []) ≡ some found)
    × (found.paused ≡ false)
    × (used_up_until found 1000 ≡ none)
    × (live_of_grant found.id 1000 (enrolled_record ∷ []) ≤ found.max_connections)
    × (live_sessions 1000 (enrolled_record ∷ []) ≤ 2)
    × OnSome (λ e. (1000 < e) × (1600 ≤ e)) found.expires_at_epoch_seconds
admit_session-limits_example =
    admit_session-limits plain outside with_grant enrolled grant (ok true) tokens phone created
      enrols

admit_session-session_view_example :
    (v : SessionView) × (session_view plain outside enrolled true control_token ≡ ok v)
    × (v.id ≡ repeat 99 12)
    × (v.grant_id ≡ grant_id)
    × (v.resource_slot ≡ 0)
    × (v.expires_at_epoch_seconds ≡ 1600)
admit_session-session_view_example =
    admit_session-session_view plain outside with_grant enrolled grant (ok true) tokens phone
      created true control_token enrols (omega arith) (omega arith) splits

end_session-refused_example :
    authenticate plain 1001 true with_grant.state control_token ≡ err unauthorized
end_session-refused_example =
    end_session-refused plain outside enrolled with_grant true control_token none
      (record { id = repeat 99 12; resource_slot = 0 }) 1001 true ends

revoke_grant-gone_example :
    (find (λ g. same_text g.id grant_id) fresh.state.grants ≡ none)
    × All (λ s. same_text s.grant_id grant_id ≡ false) fresh.state.sessions
    × (fresh.file ≡ fresh.state)
revoke_grant-gone_example =
    revoke_grant-gone plain outside enrolled fresh grant_id
      (record { id = repeat 99 12; resource_slot = 0 } ∷ []) revokes

record_usage-used_up_example :
    All
      (λ s. any (λ i. same_text i s.grant_id) (used_up_ids 1000 (spent ∷ [])) ≡ false)
      counted_service.state.sessions
record_usage-used_up_example =
    record_usage-used_up plain outside enrolled counted_service moved
      (record { id = repeat 99 12; resource_slot = 0 } ∷ []) counts

-- A wrong code is noted against the grant, and changes nothing else.
abbrev wrong_code : Text
wrong_code = grant_id ++ repeat 99 22

abbrev refused : AccessService
refused = record with_grant {
  activity = record_activity [] grant_id (enrollment refused_wrong_code phone) 1000;
}

refuses :
    create_session plain outside with_grant true tokens wrong_code phone
    ≡ (refused, err unauthorized)
unfolding create_session check_grant valid_text Text-discrete used valid_identifier check_session
refuses = refl

abbrev second_tokens : NewTokens
second_tokens = record {
  id = repeat 100 12;
  control_secret = repeat 101 22;
  data_plane_secret = repeat 102 22;
}

prepare_session-room_example :
    (next : PersistedState) × (made : CreatedSession) × (expired : List SessionRecord)
    × (prepare_session plain 1000 enrolled grant_id second_tokens phone ≡ ok (next, made, expired))
unfolding used_up_until status used Text-discrete
prepare_session-room_example =
    prepare_session-room plain 1000 enrolled grant_id second_tokens phone grant
      (Reach-Inv plain enrolled run) refl (omega arith) refl refl (omega arith) (omega arith) refl

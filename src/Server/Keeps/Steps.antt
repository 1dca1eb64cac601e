-- ===== src/Server/Keeps/Steps.antt =====
-- The runs of the service: the calls in any order and with any arguments. A call that looks at the
-- state before it takes the lock acts on whatever it saw then, so its argument is any record.
use ket.Common.{
  ℕ, ◌≤◌, ◌≡◌, refl, Bool, List, Option, Text, arith, Option-cases, inl, inr, length, find,
  same_text, Result, ok, err,
}
use ket.Server.Model.{AccessGrantRecord, SessionRecord, PersistedState, Crypto, TransportProtocol}
use ket.Server.Errors.{
  ServiceError, RepositoryError, SessionAllocation, CreatedSession, SessionView,
}
use ket.Server.Activity.{GrantActivityEvent, session, enrollment, over}
use ket.Server.Admin.{UpdateAccessGrantRequest}
use ket.Server.Secrets.{split_session_token}
use ket.Server.Slots.Free.{sessions_le}
use ket.Server.Service.State.{AccessService, Outside, load_file, note}
use ket.Server.Service.Grants.{
  CreateAccessGrantRequest, create_grant, AccessGrantSummary, update_grant, revoke_grant,
}
use ket.Server.Service.Sessions.{
  NewTokens, admit_session, enrollment_refusal, note_refusal, verify_data_plane, sign_in_event,
  renew_authenticated, end_authenticated, authenticate_data_plane,
}
use ket.Server.Service.Upkeep.{Moved, load, expire_sessions, record_usage}
use ket.Server.Service.Invariant.{Inv, Inv-Core, note-Core}
use ket.Server.Keeps.Grants.{create_grant-Inv, update_grant-Inv, revoke_grant-Inv}
use ket.Server.Keeps.Sessions.{admit_session-Inv, renew_authenticated-Inv, end_authenticated-Inv}
use ket.Server.Keeps.Upkeep.{expire_sessions-Inv, record_usage-Inv}
use ket.Server.Keeps.Load.{load-Inv}

-- One call that returns, from one service state to the next. A call that fails, but for an enrolment
-- or a data-plane sign-in, leaves the service as it is.
pub data Step (c : Crypto) (s t : AccessService) : Type 0 where
  creates_grant :
      (out : Outside) (r : CreateAccessGrantRequest) (code : Text)
      (hashed : Result ServiceError Text) (g : AccessGrantRecord)
      → create_grant c out s r code hashed ≡ ok (t, g)
      → Step c s t
  updates_grant :
      (out : Outside) (id : Text) (r : UpdateAccessGrantRequest) (summary : AccessGrantSummary)
      (ended : List SessionAllocation)
      → update_grant c out s id r ≡ ok (t, summary, ended)
      → Step c s t
  revokes_grant :
      (out : Outside) (id : Text) (ended : List SessionAllocation)
      → revoke_grant c out s id ≡ ok (t, ended)
      → Step c s t
  enrols :
      (out : Outside) (g : AccessGrantRecord) (verified : Result ServiceError Bool)
      (tokens : NewTokens) (id name : Text) (r : Result ServiceError CreatedSession)
      → note_refusal s out.noted_at id name (admit_session c out s g verified tokens name) ≡ (t, r)
      → Step c s t
  renews :
      (out : Outside) (x : SessionRecord) (g : AccessGrantRecord)
      (answer : Result ServiceError SessionView)
      → renew_authenticated c out s x g ≡ ok (t, answer)
      → Step c s t
  ends :
      (out : Outside) (x : SessionRecord) (event : Option GrantActivityEvent)
      (a : SessionAllocation)
      → end_authenticated c out s x event ≡ ok (t, a)
      → Step c s t
  signs_in :
      (out : Outside) (seen : PersistedState) (token : Text) (protocol : TransportProtocol)
      (username : Option Text) (r : Result ServiceError SessionView)
      → authenticate_data_plane c out seen s token protocol username ≡ (t, r)
      → Step c s t
  expires :
      (out : Outside) (ended : List SessionAllocation)
      → expire_sessions c out s ≡ ok (t, ended)
      → Step c s t
  counts :
      (out : Outside) (moved : Moved) (ended : List SessionAllocation)
      → record_usage c out s moved ≡ ok (t, ended)
      → Step c s t

-- The states that calls reach from a load of the state file.
pub data Reach (c : Crypto) : AccessService → Type 0 where
  loads :
      (svc : AccessService) (out : Outside)
      (content : Option (Result RepositoryError PersistedState)) (ttl max : ℕ)
      (loaded : PersistedState)
      → load_file c content ≡ ok loaded
      → load c out loaded ttl max ≡ ok svc
      → Reach c svc
  calls : (before svc : AccessService) → Reach c before → Step c before svc → Reach c svc

note_refusal-Inv :
    (c : Crypto) (out : Outside) (svc svc' : AccessService) (at : ℕ) (id name : Text)
    (attempt : Result ServiceError (AccessService × CreatedSession))
    (r : Result ServiceError CreatedSession)
    → Inv c svc
    → ((after : AccessService)
        → (created : CreatedSession) → attempt ≡ ok (after, created)
        → Inv c after)
    → note_refusal svc at id name attempt ≡ (svc', r)
    → Inv c svc'
unfolding note_refusal
note_refusal-Inv c out svc svc' at id name (ok (after, created)) r v h e =
    let same : svc' ≡ after = ground arith in rw same (h after created refl)
note_refusal-Inv c out svc svc' at id name (err x) r v h e =
    elim (Option-cases (enrollment_refusal x)) [
      | inl n ↦ let same : svc' ≡ svc = ground arith in rw same v
      | inr (event, n) ↦
          let same : svc' ≡ note svc at id (enrollment event name) = ground arith in
          rw same (Inv-Core c _ svc (note-Core svc at id (enrollment event name)) v)
    ]

authenticate_data_plane-Inv :
    (c : Crypto) (out : Outside) (seen : PersistedState) (svc svc' : AccessService) (token : Text)
    (protocol : TransportProtocol) (username : Option Text) (r : Result ServiceError SessionView)
    → Inv c svc
    → authenticate_data_plane c out seen svc token protocol username ≡ (svc', r)
    → Inv c svc'
unfolding authenticate_data_plane
authenticate_data_plane-Inv c out seen svc svc' token protocol username r v h =
    elim (Option-cases (split_session_token token)) [
      | inl n ↦ let same : svc' ≡ svc = ground arith in rw same v
      | inr (parts, n) ↦
          elim (Option-cases (find (λ s. same_text s.id parts.id) svc.state.sessions)) [
            | inl m ↦ let same : svc' ≡ svc = ground arith in rw same v
            | inr (s, m) ↦
                let result = verify_data_plane c out.now seen parts protocol username in
                let event = over (session (sign_in_event result) s.id s.client_name) protocol in
                let same : svc' ≡ note svc out.noted_at s.grant_id event = ground arith in
                rw same (Inv-Core c _ svc (note-Core svc out.noted_at s.grant_id event) v)
          ]
    ]

pub Step-Inv : (c : Crypto) (s t : AccessService) → Inv c s → Step c s t → Inv c t
Step-Inv c s t v (creates_grant out r code hashed g h) =
    create_grant-Inv c out s t r code hashed g v h
Step-Inv c s t v (updates_grant out id r summary ended h) =
    update_grant-Inv c out s t id r summary ended v h
Step-Inv c s t v (revokes_grant out id ended h) = revoke_grant-Inv c out s t id ended v h
Step-Inv c s t v (enrols out g verified tokens id name r h) =
    note_refusal-Inv c out s t out.noted_at id name (admit_session c out s g verified tokens name) r
      v (λ after created e. admit_session-Inv c out s after g verified tokens name created v e) h
Step-Inv c s t v (renews out x g answer h) = renew_authenticated-Inv c out s t x g answer v h
Step-Inv c s t v (ends out x event a h) = end_authenticated-Inv c out s t x event a v h
Step-Inv c s t v (signs_in out seen token protocol username r h) =
    authenticate_data_plane-Inv c out seen s t token protocol username r v h
Step-Inv c s t v (expires out ended h) = expire_sessions-Inv c out s t ended v h
Step-Inv c s t v (counts out moved ended h) = record_usage-Inv c out s t moved ended v h

-- In every state that the service reaches, the state in memory and the state file are valid, and
-- every session holds a slot below the capacity.
pub Reach-Inv : (c : Crypto) (svc : AccessService) → Reach c svc → Inv c svc
Reach-Inv c _ (loads svc out content ttl max loaded read h) =
    load-Inv c out content ttl max loaded svc read h
Reach-Inv c _ (calls before svc r step) = Step-Inv c before svc (Reach-Inv c before r) step

-- In every state that the service reaches, the sessions are at most as many as the capacity.
pub Reach-sessions_le :
    (c : Crypto) (svc : AccessService) → Reach c svc → length svc.state.sessions ≤ svc.max_sessions
Reach-sessions_le c svc r =
    let v = Reach-Inv c svc r in
    sessions_le svc.max_sessions svc.state.sessions v.slotted v.valid.slots_apart

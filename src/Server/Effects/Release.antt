-- ===== src/Server/Effects/Release.antt =====
-- What ending a session and revoking a grant take away, and what they leave.
use ket.Common.{
  ℕ, ◌≡◌, ◌≢◌, ◌∙◌, Bool, false, not, List, Option, none, some, Text, arith, Option-cases, ap,
  subst, find-holds, Result-cases, inl, inr, find, retain, same_text, find-retain, find-retain-not,
  retain-retain, All, All-mono, All-retain_self, ok, err,
}
use ket.Server.Model.{AccessGrantRecord, SessionRecord, PersistedState, Crypto}
use ket.Server.Errors.{unauthorized, SessionAllocation}
use ket.Server.Activity.{GrantActivityEvent}
use ket.Server.Secrets.{Parts, split_session_token}
use ket.Server.Slots.{session_allocation}
use ket.Server.Service.State.{AccessService, Outside, forget_missing_activity}
use ket.Server.Service.Grants.{revoke_grant}
use ket.Server.Service.Sessions.{session_and_grant, authenticate, end_session, end_authenticated}
use ket.Server.Service.Invariant.{commit_ok}
use ket.Server.Keeps.Sessions.{end_commit}
use ket.Server.Keeps.Grants.{revoke_grant-commit}

-- A token of a session that is not there is refused.
authenticate-absent :
    (c : Crypto) (now : ℕ) (permit : Bool) (st : PersistedState) (token : Text) (parts : Parts)
    → split_session_token token ≡ some parts
    → find (λ s. same_text s.id parts.id) st.sessions ≡ none
    → authenticate c now permit st token ≡ err unauthorized
unfolding authenticate session_and_grant
authenticate-absent c now permit st token parts split none_there = rw (split, none_there)

authenticate_ok :
    (c : Crypto) (now : ℕ) (permit : Bool) (st : PersistedState) (token : Text) (s : SessionRecord)
    (g : AccessGrantRecord)
    → authenticate c now permit st token ≡ ok (s, g)
    → (parts : Parts) × (split_session_token token ≡ some parts)
      × (find (λ s. same_text s.id parts.id) st.sessions ≡ some s)
unfolding authenticate session_and_grant
authenticate_ok c now permit st token s g h = elim (Option-cases (split_session_token token)) [
  | inl n ↦ absurd (ground arith)
  | inr (parts, e) ↦ elim (Option-cases (find (λ s. same_text s.id parts.id) st.sessions)) [
    | inl n ↦ absurd (ground arith)
    | inr (t, f) ↦ (parts, e, ground arith)
  ]
]

module _ (c : Crypto) (out : Outside) (svc svc' : AccessService) where
  end_authenticated_id :
      (s : SessionRecord) (event : Option GrantActivityEvent) (a : SessionAllocation)
      → end_authenticated c out svc s event ≡ ok (svc', a)
      → a.id ≡ s.id
  unfolding end_authenticated session_allocation
  end_authenticated_id s event a h = ground arith

  end_session_ok :
      (permit : Bool) (token : Text) (event : Option GrantActivityEvent) (a : SessionAllocation)
      → end_session c out svc permit token event ≡ ok (svc', a)
      → (parts : Parts) × (split_session_token token ≡ some parts)
        × (a.id ≡ parts.id)
        × (svc'.state ≡ record svc.state {
          sessions = retain (λ s. not (same_text s.id parts.id)) svc.state.sessions;
        })
  unfolding end_session
  end_session_ok permit token event a h =
      elim (Result-cases (authenticate c out.now permit svc.state token)) [
        | inr (x, e) ↦ absurd (ground arith)
        | inl ((s, g), e) ↦
            let (parts, split, at) = authenticate_ok c out.now permit svc.state token s g e in
            let ends : end_authenticated c out svc s event ≡ ok (svc', a) = ground arith in
            let passes = find-holds (λ s. same_text s.id parts.id) svc.state.sessions at in
            let named : s.id ≡ parts.id = ground arith in
            let (stored, k, core) = end_commit c out svc svc' s event a ends in
            let next = record svc.state {
              sessions = retain (λ t. not (same_text t.id s.id)) svc.state.sessions;
            } in
            let (is, w) = commit_ok c out svc stored next k in
            let st : svc'.state ≡ next = core.state ∙ ap (λ (x : AccessService). x.state) is in
            (
              parts,
              split,
              end_authenticated_id s event a ends ∙ named,
              subst
                  (λ i. svc'.state ≡ record svc.state {
                    sessions = retain (λ t. not (same_text t.id i)) svc.state.sessions;
                  })
                  named st,
            )
      ]

  -- After a session was ended with its token, the token is refused at any time.
  pub end_session-refused :
      (permit : Bool) (token : Text) (event : Option GrantActivityEvent) (a : SessionAllocation)
      (later : ℕ) (permit' : Bool)
      → end_session c out svc permit token event ≡ ok (svc', a)
      → authenticate c later permit' svc'.state token ≡ err unauthorized
  end_session-refused permit token event a later permit' h =
      let (parts, split, named, st) = end_session_ok permit token event a h in
      authenticate-absent c later permit' svc'.state token parts split
        (rw st (find-retain-not (λ s. same_text s.id parts.id) svc.state.sessions))

  -- After a session ended, each session with another ID is as it was.
  pub end_session-others :
      (permit : Bool) (token : Text) (event : Option GrantActivityEvent) (a : SessionAllocation)
      (id : Text)
      → end_session c out svc permit token event ≡ ok (svc', a)
      → id ≢ a.id
      → find (λ s. same_text s.id id) svc'.state.sessions
        ≡ find (λ s. same_text s.id id) svc.state.sessions
  end_session-others permit token event a id h ne =
      let (parts, split, named, st) = end_session_ok permit token event a h in
      rw st (
        find-retain (λ s. same_text s.id id) (λ s. not (same_text s.id parts.id)) svc.state.sessions
          (λ s t. ground arith))

  revoke_grant-state :
      (id : Text) (ended : List SessionAllocation)
      → revoke_grant c out svc id ≡ ok (svc', ended)
      → (svc'.state ≡ record svc.state {
        grants = retain (λ g. not (same_text g.id id)) svc.state.grants;
        sessions = retain (λ s. not (same_text s.grant_id id)) svc.state.sessions;
      })
        × (svc'.file ≡ svc'.state)
  unfolding forget_missing_activity
  revoke_grant-state id ended h =
      let (stored, e, q) = revoke_grant-commit c out svc svc' id ended h in
      let (is, w) = commit_ok c out svc stored _ e in ground arith

  -- After a grant was revoked, it is gone with all its sessions, in memory and in the state file.
  pub revoke_grant-gone :
      (id : Text) (ended : List SessionAllocation)
      → revoke_grant c out svc id ≡ ok (svc', ended)
      → (find (λ g. same_text g.id id) svc'.state.grants ≡ none)
        × All (λ s. same_text s.grant_id id ≡ false) svc'.state.sessions
        × (svc'.file ≡ svc'.state)
  revoke_grant-gone id ended h =
      let (st, fl) = revoke_grant-state id ended h in
      (
        rw st (find-retain-not (λ g. same_text g.id id) svc.state.grants),
        rw st (
            All-mono (λ s t. ground arith) _
              (All-retain_self (λ s. not (same_text s.grant_id id)) svc.state.sessions)),
        fl,
      )

  -- After a grant was revoked, each other grant and its sessions are as they were.
  pub revoke_grant-others :
      (id : Text) (ended : List SessionAllocation) (other : Text)
      → revoke_grant c out svc id ≡ ok (svc', ended)
      → other ≢ id
      → (find (λ g. same_text g.id other) svc'.state.grants
          ≡ find (λ g. same_text g.id other) svc.state.grants)
        × (retain (λ s. same_text s.grant_id other) svc'.state.sessions
            ≡ retain (λ s. same_text s.grant_id other) svc.state.sessions)
  revoke_grant-others id ended other h ne =
      let (st, fl) = revoke_grant-state id ended h in
      (
        rw st (
            find-retain (λ g. same_text g.id other) (λ g. not (same_text g.id id)) svc.state.grants
              (λ g t. ground arith)),
        rw st (
            retain-retain (λ s. same_text s.grant_id other) (λ s. not (same_text s.grant_id id))
              svc.state.sessions (λ g t. ground arith)),
      )

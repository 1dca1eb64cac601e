-- ===== src/Server/Service/Enrolled.antt =====
-- What a successful enrolment says of the state before and after it.
use ket.Common.{
  ℕ, ◌<◌, ◌≡◌, false, not, List, [], ◌∷◌, ◌++◌, none, some, Text, arith, Option-cases, inl, inr,
  leb, any, find, retain, same_text, OnSome, ok,
}
use ket.Server.Model.{AccessGrantRecord, SessionRecord, PersistedState, Crypto}
use ket.Server.Usage.{used_up_until}
use ket.Server.Errors.{CreatedSession}
use ket.Server.Slots.{next_resource_slot}
use ket.Server.Service.State.{AccessService}
use ket.Server.Service.Grants.{live_of_grant, live_sessions}
use ket.Server.Service.Sessions.{NewTokens, prepare_session, new_session, lease_end}

-- The state without the leases that have run out.
abbrev pub live_state : PersistedState → ℕ → PersistedState
live_state st now = record st {
  sessions = retain (λ s. not (leb s.expires_at_epoch_seconds now)) st.sessions;
}

pub record Enrolled (c : Crypto) (now : ℕ) (svc : AccessService) (grant_id : Text)
    (tokens : NewTokens) (name : Text) (next : PersistedState) (created : CreatedSession)
    (g : AccessGrantRecord) (slot : ℕ) : Type 0 where
  pub found : find (λ g. same_text g.id grant_id) svc.state.grants ≡ some g
  pub current : OnSome (λ e. now < e) g.expires_at_epoch_seconds
  pub not_paused : g.paused ≡ false
  pub not_used_up : used_up_until g now ≡ none
  pub grant_has_room :
      live_of_grant g.id now (live_state svc.state now).sessions < g.max_connections
  pub node_has_room : live_sessions now (live_state svc.state now).sessions < svc.max_sessions
  pub slot_free : next_resource_slot (live_state svc.state now) svc.max_sessions ≡ some slot
  pub new_id : any (λ s. same_text s.id tokens.id) (live_state svc.state now).sessions ≡ false
  pub after : next ≡ record (live_state svc.state now) {
    sessions =
        (live_state svc.state now).sessions
        ++ new_session c tokens g.id name slot now
            (lease_end svc.session_ttl now g.expires_at_epoch_seconds)
          ∷ [];
  }
  pub told_id : created.id ≡ tokens.id
  pub told_slot : created.resource_slot ≡ slot
  pub told_end :
      created.expires_at_epoch_seconds ≡ lease_end svc.session_ttl now g.expires_at_epoch_seconds

module _ (c : Crypto) (now : ℕ) (svc : AccessService) (grant_id : Text) (tokens : NewTokens)
    (name : Text) {next : PersistedState} {created : CreatedSession}
    {expired : List SessionRecord} where
  pub prepare_session_ok :
      prepare_session c now svc grant_id tokens name ≡ ok (next, created, expired)
      → (g : AccessGrantRecord) × (slot : ℕ) × Enrolled c now svc grant_id tokens name next created
          g slot
  unfolding prepare_session
  prepare_session_ok h =
      elim (Option-cases (find (λ g. same_text g.id grant_id) svc.state.grants)) [
        | inl n ↦ absurd (ground arith)
        | inr (g, f) ↦
            elim (Option-cases (next_resource_slot (live_state svc.state now) svc.max_sessions)) [
              | inl n ↦ absurd (ground arith)
              | inr (slot, e) ↦ (g, slot, ground arith)
            ]
      ]

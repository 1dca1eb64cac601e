-- ===== src/Server/Effects/Enrolment.antt =====
-- An enrolment keeps to the limits of its grant and of the node, and its tokens work.
use ket.Common.{
  ℕ, ◌-◌, ◌^◌, ◌≤◌, ◌<◌, ◌≡◌, refl, sym, Bool, true, false, ◌&&◌, List, none, some, Text, arith,
  subst, find, same_text, find-snoc, find-holds, length-retain_snoc, OnSome, Result, ok,
}
use ket.Server.Model.{
  AccessGrantRecord, SessionRecord, PersistedState, Crypto, TransportProtocol, allows,
}
use ket.Server.Usage.{used_up_until}
use ket.Server.Errors.{ServiceError, CreatedSession, SessionView}
use ket.Server.Activity.{lease_ended}
use ket.Server.Secrets.{split_session_token, verify_token_secret}
use ket.Server.Slots.{is_live, admits, required_resource_slot}
use ket.Server.Service.State.{AccessService, Outside, commit, note_ended}
use ket.Server.Service.Grants.{live_of_grant, live_sessions}
use ket.Server.Service.Sessions.{
  NewTokens, admit_session, new_session, lease_end, session_and_grant, check_control_hash,
  authenticate, view, session_view, verify_data_plane,
}
use ket.Server.Service.Enrolled.{Enrolled, live_state, prepare_session_ok}
use ket.Server.Service.Invariant.{commit_ok, note_ended-Core}
use ket.Server.Keeps.Sessions.{admit_session-commit}

-- The state that an enrolment leaves is the one that was prepared.
pub admit_session_ok :
    (c : Crypto) (out : Outside) (svc svc' : AccessService) (g : AccessGrantRecord)
    (verified : Result ServiceError Bool) (tokens : NewTokens) (name : Text)
    (created : CreatedSession)
    → admit_session c out svc g verified tokens name ≡ ok (svc', created)
    → (found : AccessGrantRecord) × (slot : ℕ) × Enrolled c out.now svc g.id tokens name svc'.state
        created found slot
admit_session_ok c out svc svc' g verified tokens name created h =
    let (next, expired, stored, p, e, q) =
      admit_session-commit c out svc svc' g verified tokens name created h in
    let (found, slot, w) = prepare_session_ok c out.now svc g.id tokens name p in
    let same : svc'.state ≡ next = go next expired stored e q in (found, slot, rw same w)
  where
    go :
        (next : PersistedState) (expired : List SessionRecord) (stored : AccessService)
        → commit c out svc next ≡ ok stored
        → svc' ≡ note_ended stored out.noted_at expired lease_ended
        → svc'.state ≡ next
    go next expired stored e q =
        let (a, w) = commit_ok c out svc stored next e in
        let core = note_ended-Core stored out.noted_at expired lease_ended in ground arith

module _ (c : Crypto) (now : ℕ) (svc : AccessService) (grant_id : Text) (tokens : NewTokens)
    (name : Text) (next : PersistedState) (created : CreatedSession) (g : AccessGrantRecord)
    (slot : ℕ) (w : Enrolled c now svc grant_id tokens name next created g slot) where
  pub Enrolled-limits :
      (live_of_grant g.id now next.sessions ≤ g.max_connections)
      × (live_sessions now next.sessions ≤ svc.max_sessions)
  Enrolled-limits =
      let new =
        new_session c tokens g.id name slot now
          (lease_end svc.session_ttl now g.expires_at_epoch_seconds) in
      let here = w.grant_has_room in
      let node = w.node_has_room in
      rw w.after (
        omega (
          arith,
          length-retain_snoc (λ s. same_text s.grant_id g.id && is_live now s)
              (live_state svc.state now).sessions new,
        ),
        omega (arith, length-retain_snoc (is_live now) (live_state svc.state now).sessions new),
      )

  pub Enrolled-session_and_grant :
      session_and_grant next tokens.id
      ≡ ok (
        new_session c tokens g.id name slot now
            (lease_end svc.session_ttl now g.expires_at_epoch_seconds),
        g,
      )
  unfolding session_and_grant
  Enrolled-session_and_grant =
      let new =
        new_session c tokens g.id name slot now
          (lease_end svc.session_ttl now g.expires_at_epoch_seconds) in
      let at : find (λ s. same_text s.id tokens.id) next.sessions ≡ some new = rw w.after (
        find-snoc (λ s. same_text s.id tokens.id) (live_state svc.state now).sessions new w.new_id
          (ground arith)) in
      let passes = find-holds (λ g. same_text g.id grant_id) svc.state.grants w.found in
      let named : g.id ≡ grant_id = ground arith in
      let asked : find (λ x. same_text x.id grant_id) next.grants ≡ some g = rw w.after w.found in
      let of = subst (λ i. find (λ x. same_text x.id i) next.grants ≡ some g) (sym named) asked in
      rw (at, of)

  Enrolled-admits :
      0 < svc.session_ttl
      → now < 2 ^ 64 - 1
      → admits
          (new_session c tokens g.id name slot now
            (lease_end svc.session_ttl now g.expires_at_epoch_seconds))
          g
          now
        ≡ true
  unfolding admits
  Enrolled-admits ttl fits =
      let p = w.not_paused in let u = w.not_used_up in let k = w.current in ground arith

  -- The token for the control plane names the session, as `session` shows it.
  pub Enrolled-session_view :
      (out : Outside) (after : AccessService) (permit : Bool) (token : Text)
      → out.now ≡ now
      → after.state ≡ next
      → 0 < svc.session_ttl
      → now < 2 ^ 64 - 1
      → split_session_token token ≡ some (record { id = tokens.id; secret = tokens.control_secret })
      → session_view c out after permit token
        ≡ ok (
            view
              (new_session c tokens g.id name slot now
                (lease_end svc.session_ttl now g.expires_at_epoch_seconds))
              g
              slot
              created.expires_at_epoch_seconds
              now)
  unfolding session_view authenticate check_control_hash verify_token_secret required_resource_slot
  Enrolled-session_view out after permit token at is ttl fits split =
      let sg = Enrolled-session_and_grant in
      let ad = Enrolled-admits ttl fits in rw (at, is, split, sg, w.told_end) (ground arith)

  -- The token for the data plane signs in to each protocol of the grant.
  pub Enrolled-verify_data_plane :
      (st : PersistedState) (protocol : TransportProtocol)
      → st ≡ next
      → 0 < svc.session_ttl
      → now < 2 ^ 64 - 1
      → allows g.protocols protocol ≡ true
      → verify_data_plane c now st
          (record { id = tokens.id; secret = tokens.data_plane_secret })
          protocol
          none
        ≡ ok (
            view
              (new_session c tokens g.id name slot now
                (lease_end svc.session_ttl now g.expires_at_epoch_seconds))
              g
              slot
              created.expires_at_epoch_seconds
              now)
  unfolding verify_data_plane verify_token_secret required_resource_slot
  Enrolled-verify_data_plane st protocol is ttl fits may =
      let sg = Enrolled-session_and_grant in
      let ad = Enrolled-admits ttl fits in rw (is, sg, w.told_end) (ground arith)

module _ (c : Crypto) (out : Outside) (svc svc' : AccessService) (g : AccessGrantRecord)
    (verified : Result ServiceError Bool) (tokens : NewTokens) (name : Text)
    (created : CreatedSession) where
  -- An enrolment that succeeds finds its grant, unexpired, not paused and not used up, leaves the
  -- grant's live sessions within its device limit and all live sessions within the capacity, and
  -- ends the lease no later than the grant.
  pub admit_session-limits :
      admit_session c out svc g verified tokens name ≡ ok (svc', created)
      → (found : AccessGrantRecord) × (find (λ x. same_text x.id g.id) svc.state.grants
          ≡ some found)
        × (found.paused ≡ false)
        × (used_up_until found out.now ≡ none)
        × (live_of_grant found.id out.now svc'.state.sessions ≤ found.max_connections)
        × (live_sessions out.now svc'.state.sessions ≤ svc.max_sessions)
        × OnSome
            (λ e. (out.now < e) × (created.expires_at_epoch_seconds ≤ e))
            found.expires_at_epoch_seconds
  admit_session-limits h =
      let (found, slot, w) = admit_session_ok c out svc svc' g verified tokens name created h in
      let (a, b) = Enrolled-limits c out.now svc g.id tokens name svc'.state created found slot w in
      let told = w.told_end in
      let current = w.current in (found, w.found, w.not_paused, w.not_used_up, a, b, ground arith)

  -- After an enrolment, the session's control token shows the session: with a lease of some length,
  -- a clock below the largest number, and at the same second, `session` gives the ID, the slot and
  -- the end that the enrolment returned.
  pub admit_session-session_view :
      (permit : Bool) (token : Text)
      → admit_session c out svc g verified tokens name ≡ ok (svc', created)
      → 0 < svc.session_ttl
      → out.now < 2 ^ 64 - 1
      → split_session_token token ≡ some (record { id = tokens.id; secret = tokens.control_secret })
      → (v : SessionView) × (session_view c out svc' permit token ≡ ok v)
        × (v.id ≡ created.id)
        × (v.grant_id ≡ g.id)
        × (v.resource_slot ≡ created.resource_slot)
        × (v.expires_at_epoch_seconds ≡ created.expires_at_epoch_seconds)
  admit_session-session_view permit token h ttl fits split =
      let (found, slot, w) = admit_session_ok c out svc svc' g verified tokens name created h in
      let e =
        Enrolled-session_view c out.now svc g.id tokens name svc'.state created found slot w out
          svc' permit token refl refl ttl fits split in
      let told = w.told_id in
      let slot_told = w.told_slot in
      let passes = find-holds (λ x. same_text x.id g.id) svc.state.grants w.found in
      let named : found.id ≡ g.id = ground arith in
      (
        view
            (new_session c tokens found.id name slot out.now
              (lease_end svc.session_ttl out.now found.expires_at_epoch_seconds))
            found slot created.expires_at_epoch_seconds out.now,
        e,
        sym told,
        named,
        sym slot_told,
        refl,
      )

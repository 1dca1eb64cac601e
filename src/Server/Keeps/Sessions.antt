-- ===== src/Server/Keeps/Sessions.antt =====
-- The calls on sessions keep the invariant of the service.
use ket.Common.{
  ℕ, ◌<◌, ◌≡◌, Bool, not, List, [], ◌∷◌, Option, none, some, Text, arith, subst, Bool-cases,
  Option-cases, Result-cases, inl, inr, retain, same_text, All, All-append, All-retain, Result, ok,
}
use ket.Server.Model.{AccessGrantRecord, SessionRecord, PersistedState, Crypto}
use ket.Server.Errors.{ServiceError, SessionAllocation, CreatedSession, SessionView}
use ket.Server.Activity.{GrantActivityEvent, session, lease_ended, checked_in}
use ket.Server.Slots.{next_resource_slot}
use ket.Server.Slots.Free.{Slotted, first_free-some}
use ket.Server.Service.State.{AccessService, Outside, commit, note, note_ended}
use ket.Server.Service.Sessions.{
  NewTokens, prepare_session, admit_session, lease_end, extend_lease, renew_authenticated,
  end_authenticated,
}
use ket.Server.Service.Enrolled.{prepare_session_ok, live_state}
use ket.Server.Validate.WellFormed.{slots}
use ket.Server.Service.Invariant.{Inv, Core, Inv-Core, commit-Inv, note-Core, note_ended-Core}

next-lt : (st : PersistedState) (max k : ℕ) → next_resource_slot st max ≡ some k → k < max
unfolding next_resource_slot
next-lt st max k e =
    let (lo, hi, free) = first_free-some max 0 (slots st.sessions) {k = k} e in omega arith

extend_lease-Slotted :
    (max : ℕ) (id : Text) (e : ℕ) (ss : List SessionRecord) {rest : List SessionRecord}
    → extend_lease id e ss ≡ some rest
    → All (Slotted max) ss
    → All (Slotted max) rest
unfolding extend_lease
extend_lease-Slotted max id e [] q h = absurd (cc)
extend_lease-Slotted max id e (s ∷ ss) {rest} q (h, hs) = elim (Bool-cases (same_text s.id id)) [
  | inl t ↦
      let same : record s { expires_at_epoch_seconds = e } ∷ ss ≡ rest = ground arith in
      subst (All (Slotted max)) same (h, hs)
  | inr t ↦ elim (Option-cases (extend_lease id e ss)) [
    | inl n ↦ absurd (cc (rw (t, n) at q))
    | inr (r, n) ↦
        let same : s ∷ r ≡ rest = ground arith in
        subst (All (Slotted max)) same (h, extend_lease-Slotted max id e ss n hs)
  ]
]

module _ (c : Crypto) (out : Outside) (svc svc' : AccessService) where
  pub admit_session-commit :
      (g : AccessGrantRecord) (verified : Result ServiceError Bool) (tokens : NewTokens)
      (name : Text) (created : CreatedSession)
      → admit_session c out svc g verified tokens name ≡ ok (svc', created)
      → (next : PersistedState) × (expired : List SessionRecord) × (stored : AccessService)
        × (prepare_session c out.now svc g.id tokens name ≡ ok (next, created, expired))
        × (commit c out svc next ≡ ok stored)
        × (svc' ≡ note_ended stored out.noted_at expired lease_ended)
  unfolding admit_session
  admit_session-commit g verified tokens name created h =
      elim (Result-cases (prepare_session c out.now svc g.id tokens name)) [
        | inr (x, e1) ↦ absurd (ground arith)
        | inl ((next, made, expired), e1) ↦ elim (Result-cases (commit c out svc next)) [
          | inr (x, e2) ↦ absurd (ground arith)
          | inl (stored, e2) ↦ (next, expired, stored, ground arith, e2, ground arith)
        ]
      ]

  pub admit_session-Inv :
      (g : AccessGrantRecord) (verified : Result ServiceError Bool) (tokens : NewTokens)
      (name : Text) (created : CreatedSession)
      → Inv c svc
      → admit_session c out svc g verified tokens name ≡ ok (svc', created)
      → Inv c svc'
  admit_session-Inv g verified tokens name created v h =
      let (next, expired, stored, p, e, q) =
        admit_session-commit g verified tokens name created h in
      let (found, slot, w) = prepare_session_ok c out.now svc g.id tokens name p in
      let below = in_range slot w.slot_free in
      rw q (
        Inv-Core c _ stored (note_ended-Core stored out.noted_at expired lease_ended) (
          commit-Inv c out svc stored next
            (rw w.after (
              All-append (Slotted svc.max_sessions) (live_state svc.state out.now).sessions _
                (All-retain (Slotted svc.max_sessions) _ svc.state.sessions v.slotted) (below, tt)))
            e))
    where
      in_range :
          (slot : ℕ)
          → next_resource_slot (live_state svc.state out.now) svc.max_sessions ≡ some slot
          → slot < svc.max_sessions
      in_range slot e = next-lt (live_state svc.state out.now) svc.max_sessions slot e

  pub renew_commit :
      (s : SessionRecord) (g : AccessGrantRecord) (answer : Result ServiceError SessionView)
      → renew_authenticated c out svc s g ≡ ok (svc', answer)
      → (ss : List SessionRecord) × (stored : AccessService) × (extend_lease s.id
            (lease_end svc.session_ttl out.now g.expires_at_epoch_seconds)
            svc.state.sessions
          ≡ some ss)
        × (commit c out svc (record svc.state { sessions = ss }) ≡ ok stored)
        × (svc' ≡ note stored out.noted_at g.id (session checked_in s.id s.client_name))
  unfolding renew_authenticated
  renew_commit s g answer h =
      elim (Option-cases (
        extend_lease s.id (lease_end svc.session_ttl out.now g.expires_at_epoch_seconds)
          svc.state.sessions)) [
            | inl n ↦ absurd (ground arith)
            | inr (ss, e1) ↦
                elim (Result-cases (commit c out svc (record svc.state { sessions = ss }))) [
                  | inr (x, e2) ↦ absurd (ground arith)
                  | inl (stored, e2) ↦ (ss, stored, e1, e2, ground arith)
                ]
          ]

  pub renew_authenticated-Inv :
      (s : SessionRecord) (g : AccessGrantRecord) (answer : Result ServiceError SessionView)
      → Inv c svc
      → renew_authenticated c out svc s g ≡ ok (svc', answer)
      → Inv c svc'
  renew_authenticated-Inv s g answer v h =
      let (ss, stored, l, e, q) = renew_commit s g answer h in
      rw q (
        Inv-Core c _ stored (note-Core stored out.noted_at g.id _) (
          commit-Inv c out svc stored _
            (extend_lease-Slotted svc.max_sessions s.id _ svc.state.sessions l v.slotted) e))

  pub end_commit :
      (s : SessionRecord) (event : Option GrantActivityEvent) (a : SessionAllocation)
      → end_authenticated c out svc s event ≡ ok (svc', a)
      → (stored : AccessService) × (commit c out svc (record svc.state {
        sessions = retain (λ t. not (same_text t.id s.id)) svc.state.sessions;
      })
          ≡ ok stored)
        × Core svc' stored
  unfolding end_authenticated
  end_commit s none a h = ground arith
  end_commit s (some event) a h =
      elim (Result-cases (
        commit c out svc (record svc.state {
          sessions = retain (λ t. not (same_text t.id s.id)) svc.state.sessions;
        }))) [
          | inr (x, e2) ↦ absurd (ground arith)
          | inl (stored, e2) ↦
              let same : svc' ≡ note_ended stored out.noted_at (s ∷ []) event = ground arith in
              (stored, e2, rw same (note_ended-Core stored out.noted_at (s ∷ []) event))
        ]

  pub end_authenticated-Inv :
      (s : SessionRecord) (event : Option GrantActivityEvent) (a : SessionAllocation)
      → Inv c svc
      → end_authenticated c out svc s event ≡ ok (svc', a)
      → Inv c svc'
  end_authenticated-Inv s event a v h =
      let (stored, e, q) = end_commit s event a h in
      Inv-Core c svc' stored q (
        commit-Inv c out svc stored _
          (All-retain (Slotted svc.max_sessions) (λ t. not (same_text t.id s.id)) svc.state.sessions
            v.slotted)
          e)

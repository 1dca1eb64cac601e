-- ===== src/Server/Keeps/Grants.antt =====
-- The calls on grants keep the invariant of the service.
use ket.Common.{
  ℕ, ◌≡◌, refl, not, List, [], ◌∷◌, ◌++◌, Option, none, some, Text, arith, find, Bool-cases,
  Result-cases, inl, inr, any, retain, same_text, All, All-retain, Result, ok,
}
use ket.Server.Model.{AccessGrantRecord, SessionRecord, PersistedState, Crypto}
use ket.Server.Errors.{ServiceError, SessionAllocation}
use ket.Server.Activity.{ended_by_change}
use ket.Server.Slots.Free.{Slotted}
use ket.Server.Admin.{
  UpdateAccessGrantRequest, apply, cut, cut_sessions, of_grant, ending_of, replace_grant,
  changed_grant, ends_all,
}
use ket.Server.Service.State.{AccessService, Outside, commit, note_ended, forget_missing_activity}
use ket.Server.Service.Grants.{
  CreateAccessGrantRequest, create_grant, AccessGrantSummary, checked_update, update_grant,
  revoke_grant,
}
use ket.Server.Service.Invariant.{Inv, Core, Inv-Core, commit-Inv, note_ended-Core}

module _ (c : Crypto) (out : Outside) (svc svc' : AccessService) where
  pub create_grant-commit :
      (r : CreateAccessGrantRequest) (code : Text) (hashed : Result ServiceError Text)
      (g : AccessGrantRecord)
      → create_grant c out svc r code hashed ≡ ok (svc', g)
      → commit c out svc (record svc.state { grants = svc.state.grants ++ g ∷ [] }) ≡ ok svc'
  unfolding create_grant
  create_grant-commit r code hashed g h = ground arith

  pub create_grant-Inv :
      (r : CreateAccessGrantRequest) (code : Text) (hashed : Result ServiceError Text)
      (g : AccessGrantRecord)
      → Inv c svc
      → create_grant c out svc r code hashed ≡ ok (svc', g)
      → Inv c svc'
  create_grant-Inv r code hashed g v h =
      commit-Inv c out svc svc' _ v.slotted (create_grant-commit r code hashed g h)

  pub revoke_grant-commit :
      (id : Text) (ended : List SessionAllocation)
      → revoke_grant c out svc id ≡ ok (svc', ended)
      → (stored : AccessService) × (commit c out svc (record svc.state {
        grants = retain (λ g. not (same_text g.id id)) svc.state.grants;
        sessions = retain (λ s. not (same_text s.grant_id id)) svc.state.sessions;
      })
          ≡ ok stored)
        × (svc' ≡ forget_missing_activity stored)
  unfolding revoke_grant
  revoke_grant-commit id ended h = ground arith

  forget-Core : (s : AccessService) → Core (forget_missing_activity s) s
  unfolding forget_missing_activity
  forget-Core s = ground arith

  pub revoke_grant-Inv :
      (id : Text) (ended : List SessionAllocation)
      → Inv c svc
      → revoke_grant c out svc id ≡ ok (svc', ended)
      → Inv c svc'
  revoke_grant-Inv id ended v h =
      let (stored, e, q) = revoke_grant-commit id ended h in
      rw q (
        Inv-Core c (forget_missing_activity stored) stored (forget-Core stored) (
          commit-Inv c out svc stored _
            (All-retain (Slotted svc.max_sessions) (λ s. not (same_text s.grant_id id)) _ v.slotted)
            e))

cut-slot : (e : Option ℕ) (s : SessionRecord) → (cut e s).resource_slot ≡ s.resource_slot
cut-slot none s = refl
cut-slot (some e) s = refl

cut_sessions-Slotted :
    (max : ℕ) (id : Text) (e : Option ℕ) (ss : List SessionRecord)
    → All (Slotted max) ss
    → All (Slotted max) (cut_sessions id e ss)
unfolding cut_sessions
cut_sessions-Slotted max id e [] h = tt
cut_sessions-Slotted max id e (s ∷ ss) (h, hs) = elim (Bool-cases (of_grant id s)) [
  | inl t ↦ rw (t, cut-slot e s) (h, cut_sessions-Slotted max id e ss hs)
  | inr t ↦ rw t (h, cut_sessions-Slotted max id e ss hs)
]

-- The grant and the sessions that `apply` leaves.
pub apply_ok :
    (st next : PersistedState) (id : Text) (r : UpdateAccessGrantRequest) (now : ℕ)
    (ended : List SessionAllocation)
    → apply st id r now ≡ ok (next, ended)
    → (g : AccessGrantRecord) × (find (λ g. same_text g.id id) st.grants ≡ some g)
      × (next ≡ record st {
        grants = replace_grant id (changed_grant r now g) st.grants;
        sessions =
            retain
              (λ s. not (
                any
                  (λ i. same_text i s.id)
                  (ending_of id (changed_grant r now g) (ends_all r now g) now (
                    cut_sessions id (changed_grant r now g).expires_at_epoch_seconds st.sessions))))
              (cut_sessions id (changed_grant r now g).expires_at_epoch_seconds st.sessions);
      })
unfolding apply
apply_ok st next id r now ended h = ground arith

module _ (c : Crypto) (out : Outside) (svc svc' : AccessService) where
  pub update_grant-commit :
      (id : Text) (r : UpdateAccessGrantRequest) (summary : AccessGrantSummary)
      (ended : List SessionAllocation)
      → update_grant c out svc id r ≡ ok (svc', summary, ended)
      → (changes : UpdateAccessGrantRequest) × (next : PersistedState) × (stored : AccessService)
        × (apply svc.state id changes out.now ≡ ok (next, ended))
        × (commit c out svc next ≡ ok stored)
        × (svc'
            ≡ note_ended stored out.noted_at
                (retain (λ s. any (λ a. same_text a.id s.id) ended) svc.state.sessions)
                ended_by_change)
  unfolding update_grant
  update_grant-commit id r summary ended h =
      elim (Result-cases (checked_update svc.max_sessions out.now r)) [
        | inr (x, e1) ↦ absurd (ground arith)
        | inl (changes, e1) ↦ elim (Result-cases (apply svc.state id changes out.now)) [
          | inr (x, e2) ↦ absurd (ground arith)
          | inl ((next, gone), e2) ↦ elim (Result-cases (commit c out svc next)) [
            | inr (x, e3) ↦ absurd (ground arith)
            | inl (stored, e3) ↦ (changes, next, stored, ground arith, e3, ground arith)
          ]
        ]
      ]

  pub update_grant-Inv :
      (id : Text) (r : UpdateAccessGrantRequest) (summary : AccessGrantSummary)
      (ended : List SessionAllocation)
      → Inv c svc
      → update_grant c out svc id r ≡ ok (svc', summary, ended)
      → Inv c svc'
  update_grant-Inv id r summary ended v h =
      let (changes, next, stored, a, e, q) = update_grant-commit id r summary ended h in
      let (g, f, n) = apply_ok svc.state next id changes out.now ended a in
      rw q (
        Inv-Core c _ stored (note_ended-Core stored out.noted_at _ ended_by_change) (
          commit-Inv c out svc stored next
            (rw n (
              All-retain (Slotted svc.max_sessions) _ _
                (cut_sessions-Slotted svc.max_sessions id _ svc.state.sessions v.slotted)))
            e))

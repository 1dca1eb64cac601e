-- ===== src/Server/Keeps/Batch.antt =====
-- A batch of grants is a run of creations.
use ket.Common.{
  ℕ, zero, suc, ◌+◌, ◌≡◌, refl, sym, ap, ◌∙◌, arith, List, [], ◌∷◌, ◌++◌, append_nil, append_assoc,
  Text, inl, inr, Result-cases, length, Result, ok, err,
}
use ket.Server.Model.{AccessGrantRecord, Crypto}
use ket.Server.Errors.{ServiceError}
use ket.Server.Service.State.{AccessService}
use ket.Server.Service.Grants.{CreateAccessGrantRequest, create_grant}
use ket.Server.Service.Batch.{
  CreateAccessGrantBatchRequest, Given, indexed, with_made, create_each, checked_batch,
  create_grant_batch,
}
use ket.Server.Service.Invariant.{commit_ok}
use ket.Server.Keeps.Grants.{create_grant-commit}
use ket.Server.Keeps.Steps.{Reach, calls, creates_grant}

with_made-service :
    (g : AccessGrantRecord) (p : AccessService × Result ServiceError (List AccessGrantRecord))
    → (with_made g p).0 ≡ p.0
with_made-service g (svc, ok gs) = refl
with_made-service g (svc, err e) = refl

with_made_ok :
    (g : AccessGrantRecord) (p : AccessService × Result ServiceError (List AccessGrantRecord))
    (svc : AccessService) (gs : List AccessGrantRecord)
    → with_made g p ≡ (svc, ok gs)
    → (rest : List AccessGrantRecord) × (p ≡ (svc, ok rest)) × (gs ≡ g ∷ rest)
with_made_ok g (next, ok rest) svc gs h = (rest, ground arith, ground arith)
with_made_ok g (next, err e) svc gs h = absurd (ground arith)

append_made {ℓ} :
    {A : Type ℓ} (old mid new : List A) (g : A) (rest gs : List A)
    → mid ≡ old ++ g ∷ []
    → new ≡ mid ++ rest
    → gs ≡ g ∷ rest
    → new ≡ old ++ gs
append_made old mid new g rest gs h k e =
    k ∙ ap (λ l. l ++ rest) h ∙ append_assoc old (g ∷ []) rest ∙ ap (λ l. old ++ l) (sym e)

created_state :
    (c : Crypto) (given : Given) (svc next : AccessService) (r : CreateAccessGrantRequest)
    (g : AccessGrantRecord)
    → create_grant c given.out svc r given.code given.hashed ≡ ok (next, g)
    → (next.state.grants ≡ svc.state.grants ++ g ∷ []) × (next.state.sessions ≡ svc.state.sessions)
created_state c given svc next r g h =
    let stored = create_grant-commit c given.out svc next r given.code given.hashed g h in
    let (same, w) =
      commit_ok c given.out svc next (record svc.state { grants = svc.state.grants ++ g ∷ [] })
        stored in
    ground arith

module _ (c : Crypto) (r : CreateAccessGrantBatchRequest) (given : ℕ → Given) where
  create_each-Reach :
      (label_prefix : Text) (left index : ℕ) (svc : AccessService)
      → ((i : ℕ) (s : AccessService) → Reach c s → Reach c ((given i).between s))
      → Reach c svc
      → Reach c (create_each c r label_prefix given left index svc).0
  unfolding create_each
  create_each-Reach label_prefix zero index svc others h = h
  create_each-Reach label_prefix (suc left) index svc others h =
      elim (Result-cases (
        create_grant c (given index).out ((given index).between svc) (indexed r label_prefix index)
          (given index).code (given index).hashed)) [
            | inr (x, e) ↦ rw (create_each, e) (others index svc h)
            | inl ((next, g), e) ↦
                rw
                  (
                    create_each,
                    e,
                    with_made-service g (create_each c r label_prefix given left (index + 1) next),
                  )
                  (create_each-Reach label_prefix left (index + 1) next others (
                    calls ((given index).between svc) next (others index svc h) (
                      creates_grant (given index).out (indexed r label_prefix index)
                        (given index).code (given index).hashed g e)))
          ]

  -- A batch leaves a state that single calls reach, its own creations and those between them, also where
  -- it fails halfway.
  pub create_grant_batch-Reach :
      (svc : AccessService)
      → ((i : ℕ) (s : AccessService) → Reach c s → Reach c ((given i).between s))
      → Reach c svc
      → Reach c (create_grant_batch c svc r given).0
  unfolding create_grant_batch
  create_grant_batch-Reach svc others h = elim (Result-cases (checked_batch r)) [
    | inr (x, e) ↦ rw (create_grant_batch, e) h
    | inl (label_prefix, e) ↦
        rw (create_grant_batch, e) (create_each-Reach label_prefix r.count 1 svc others h)
  ]

  create_each-grants :
      (label_prefix : Text) (left index : ℕ) (svc svc' : AccessService)
      (gs : List AccessGrantRecord)
      → ((i : ℕ) (s : AccessService) → (given i).between s ≡ s)
      → create_each c r label_prefix given left index svc ≡ (svc', ok gs)
      → (svc'.state.grants ≡ svc.state.grants ++ gs)
        × (svc'.state.sessions ≡ svc.state.sessions)
        × (length gs ≡ left)
  unfolding create_each
  create_each-grants label_prefix zero index svc svc' gs quiet h =
      let same : svc ≡ svc' = ground arith in
      let none_made : gs ≡ [] = ground arith in
      rw (sym same, none_made) (sym (append_nil svc.state.grants), refl, refl)
  create_each-grants label_prefix (suc left) index svc svc' gs quiet h =
      elim (Result-cases (
        create_grant c (given index).out ((given index).between svc) (indexed r label_prefix index)
          (given index).code (given index).hashed)) [
            | inr (x, e) ↦ absurd (cc (rw (create_each, e) at h))
            | inl ((next, g), e) ↦
                let (rest, at, is) =
                  with_made_ok g (create_each c r label_prefix given left (index + 1) next) svc' gs
                    (rw (create_each, e) at h) in
                let (grants, sessions, size) =
                  create_each-grants label_prefix left (index + 1) next svc' rest quiet at in
                let (grants', sessions') =
                  created_state c (given index) svc next (indexed r label_prefix index) g
                    (rw (sym (quiet index svc)) e) in
                (
                  append_made svc.state.grants next.state.grants svc'.state.grants g rest gs grants'
                      grants is,
                  sessions ∙ sessions',
                  ap length is ∙ ap suc size,
                )
          ]

  -- A batch that succeeds with no other call between its creations adds as many grants as were asked
  -- for, at the end, and changes no session.
  pub create_grant_batch-grants :
      (svc svc' : AccessService) (gs : List AccessGrantRecord)
      → ((i : ℕ) (s : AccessService) → (given i).between s ≡ s)
      → create_grant_batch c svc r given ≡ (svc', ok gs)
      → (svc'.state.grants ≡ svc.state.grants ++ gs)
        × (svc'.state.sessions ≡ svc.state.sessions)
        × (length gs ≡ r.count)
  unfolding create_grant_batch
  create_grant_batch-grants svc svc' gs quiet h = elim (Result-cases (checked_batch r)) [
    | inr (x, e) ↦ absurd (ground arith)
    | inl (label_prefix, e) ↦
        create_each-grants label_prefix r.count 1 svc svc' gs quiet
          (rw (create_grant_batch, e) at h)
  ]

-- ===== src/Server/Keeps/Upkeep.antt =====
-- Expiry and the counting of data keep the invariant of the service. Counting may change the state
-- without a store, so nothing checks the new state but these proofs.
use ket.Common.{
  ℕ, ◌≡◌, ◌≢◌, refl, Bool, List, [], ◌∷◌, Text, arith, Bool-cases, Option-cases, Result-cases, inl,
  inr, ◌⊎◌, leb, retain, map, All, All-retain, All-mono, Unique, Unique-map-retain, ok,
}
use ket.Server.Model.{AccessGrantRecord, SessionRecord, PersistedState, Crypto}
use ket.Server.Usage.{add}
use ket.Server.Usage.Totals.{add_keeps}
use ket.Server.Validate.WellFormed.{WellFormed, GrantOk, SessionOk, Covers, find_grant, slots}
use ket.Server.Errors.{SessionAllocation}
use ket.Server.Activity.{lease_ended, ended_allowance_used}
use ket.Server.Slots.{forget_stale_grants, take_expired_sessions}
use ket.Server.Slots.Free.{Slotted}
use ket.Server.Service.State.{AccessService, Outside, commit, note_ended, forget_missing_activity}
use ket.Server.Service.Enrolled.{live_state}
use ket.Server.Service.Upkeep.{
  expire_sessions, Moved, moved_by, per_grant, add_usage, counted, record_usage,
}
use ket.Server.Service.Invariant.{Inv, Core, Core-trans, Inv-Core, commit-Inv, note_ended-Core}

-- Distinct slots stay distinct when sessions go.
All-slots-retain :
    (p : SessionRecord → Bool) (P : ℕ → Type 0) (ss : List SessionRecord)
    → All P (slots ss)
    → All P (slots (retain p ss))
All-slots-retain p P [] h = tt
All-slots-retain p P (s ∷ ss) h = elim (Bool-cases (p s)) [
  | inl t ↦ elim (Option-cases s.resource_slot) [
    | inl n ↦ rw (t, n) (All-slots-retain p P ss (rw n at h))
    | inr (k, n) ↦ let q = rw n at h in rw (t, n) (q.0, All-slots-retain p P ss q.1)
  ]
  | inr t ↦ elim (Option-cases s.resource_slot) [
    | inl n ↦ rw t (All-slots-retain p P ss (rw n at h))
    | inr (k, n) ↦ let q = rw n at h in rw t (All-slots-retain p P ss q.1)
  ]
]

pub Unique-slots-retain :
    (p : SessionRecord → Bool) (ss : List SessionRecord)
    → Unique (slots ss)
    → Unique (slots (retain p ss))
Unique-slots-retain p [] u = tt
Unique-slots-retain p (s ∷ ss) u = elim (Bool-cases (p s)) [
  | inl t ↦ elim (Option-cases s.resource_slot) [
    | inl n ↦ rw (t, n) (Unique-slots-retain p ss (rw n at u))
    | inr (k, n) ↦
        let q = rw n at u in
        rw (t, n) (All-slots-retain p (λ y. k ≢ y) ss q.0, Unique-slots-retain p ss q.1)
  ]
  | inr t ↦ elim (Option-cases s.resource_slot) [
    | inl n ↦ rw t (Unique-slots-retain p ss (rw n at u))
    | inr (k, n) ↦ let q = rw n at u in rw t (Unique-slots-retain p ss q.1)
  ]
]

-- A valid state stays valid when sessions go.
pub WellFormed-retain :
    (c : Crypto) (st : PersistedState) (p : SessionRecord → Bool)
    → WellFormed c st
    → WellFormed c (record st { sessions = retain p st.sessions })
WellFormed-retain c st p w = record {
  grants_ok = w.grants_ok;
  grant_ids = w.grant_ids;
  sessions_ok = All-retain (SessionOk c st.grants) p st.sessions w.sessions_ok;
  session_ids = Unique-map-retain (λ s. s.id) p st.sessions w.session_ids;
  slots_apart = Unique-slots-retain p st.sessions w.slots_apart;
}

add-GrantOk :
    (c : Crypto) (g : AccessGrantRecord) (bytes now : ℕ) → GrantOk c g → GrantOk c (add g bytes now)
unfolding add
add-GrantOk c g bytes now h = ground arith

add_usage-GrantOk :
    (c : Crypto) (totals : Moved) (now : ℕ) (gs : List AccessGrantRecord)
    → All (GrantOk c) gs
    → All (GrantOk c) (add_usage totals now gs)
unfolding add_usage
add_usage-GrantOk c totals now [] h = tt
add_usage-GrantOk c totals now (g ∷ gs) (h, hs) = elim (Option-cases (moved_by totals g.id)) [
  | inl n ↦ rw n (h, add_usage-GrantOk c totals now gs hs)
  | inr (b, n) ↦ rw n (add-GrantOk c g b now h, add_usage-GrantOk c totals now gs hs)
]

add_usage-ids :
    (totals : Moved) (now : ℕ) (gs : List AccessGrantRecord)
    → map (λ g. g.id) (add_usage totals now gs) ≡ map (λ g. g.id) gs
unfolding add_usage
add_usage-ids totals now [] = refl
add_usage-ids totals now (g ∷ gs) = elim (Option-cases (moved_by totals g.id)) [
  | inl n ↦ rw (n, add_usage-ids totals now gs)
  | inr (b, n) ↦ rw (n, add_usage-ids totals now gs, add_keeps g b now)
]

-- Counting does not move a grant's end.
add_usage-Covers :
    (totals : Moved) (now : ℕ) (gs : List AccessGrantRecord) (id : Text) (until : ℕ)
    → Covers (find_grant gs id) until
    → Covers (find_grant (add_usage totals now gs) id) until
unfolding add_usage
add_usage-Covers totals now [] id until h = h
add_usage-Covers totals now (g ∷ gs) id until h = elim (Option-cases (moved_by totals g.id)) [
  | inl n ↦ rw n (ground (arith, add_usage-Covers totals now gs id until))
  | inr (b, n) ↦ rw n (ground (arith, add_keeps g b now, add_usage-Covers totals now gs id until))
]

add_usage-SessionOk :
    (c : Crypto) (totals : Moved) (now : ℕ) (gs : List AccessGrantRecord) (s : SessionRecord)
    → SessionOk c gs s
    → SessionOk c (add_usage totals now gs) s
add_usage-SessionOk c totals now gs s h = record {
  id_shape = h.id_shape;
  covered = add_usage-Covers totals now gs s.grant_id s.expires_at_epoch_seconds h.covered;
  one_hash = h.one_hash;
  name_shape = h.name_shape;
  lasts = h.lasts;
}

-- Counting keeps a valid state valid.
pub counted-WellFormed :
    (c : Crypto) (moved : Moved) (now : ℕ) (st : PersistedState)
    → WellFormed c st
    → WellFormed c (counted moved now st).0
unfolding counted
counted-WellFormed c moved now st w =
    let totals = per_grant moved [] st.sessions in
    let grants = add_usage totals now st.grants in
    WellFormed-retain c (record st { grants = grants }) _
      (record {
        grants_ok = add_usage-GrantOk c totals now st.grants w.grants_ok;
        grant_ids = rw (add_usage-ids totals now st.grants) w.grant_ids;
        sessions_ok =
            All-mono (λ s h. add_usage-SessionOk c totals now st.grants s h) st.sessions
              w.sessions_ok;
        session_ids = w.session_ids;
        slots_apart = w.slots_apart;
      })

forget_missing_activity-Core : (svc : AccessService) → Core (forget_missing_activity svc) svc
unfolding forget_missing_activity
forget_missing_activity-Core svc = ground arith

-- The state that expiry stores holds sessions of the old one only.
expired-Slotted :
    (max now : ℕ) (st : PersistedState)
    → All (Slotted max) st.sessions
    → All (Slotted max) (forget_stale_grants (live_state st now) now).0.sessions
unfolding forget_stale_grants
expired-Slotted max now st h =
    All-retain (Slotted max) _ (live_state st now).sessions
      (All-retain (Slotted max) _ st.sessions h)

module _ (c : Crypto) (out : Outside) (svc svc' : AccessService) where
  -- Expiry changes nothing, or stores the state without what ran out.
  pub expire_sessions_ok :
      (ended : List SessionAllocation)
      → expire_sessions c out svc ≡ ok (svc', ended)
      → (svc' ≡ svc)
        ⊎ ((stored : AccessService) × (commit c out svc
                (forget_stale_grants (live_state svc.state out.now) out.now).0
              ≡ ok stored)
            × Core svc' stored)
  unfolding expire_sessions take_expired_sessions
  expire_sessions_ok ended h =
      elim (Result-cases
        (commit c out svc (forget_stale_grants (live_state svc.state out.now) out.now).0)) [
          | inr (x, e) ↦ inl (ground arith)
          | inl (stored, e) ↦
              let gone = retain (λ s. leb s.expires_at_epoch_seconds out.now) svc.state.sessions in
              let noted = note_ended stored out.noted_at gone lease_ended in
              let same : (svc' ≡ svc) ⊎ (svc' ≡ forget_missing_activity noted) = ground arith in
              elim same [
                | inl q ↦ inl q
                | inr q ↦ inr (
                  stored,
                  e,
                  rw q (
                      Core-trans (forget_missing_activity-Core noted)
                        (note_ended-Core stored out.noted_at gone lease_ended)),
                )
              ]
        ]

  pub expire_sessions-Inv :
      (ended : List SessionAllocation)
      → Inv c svc
      → expire_sessions c out svc ≡ ok (svc', ended)
      → Inv c svc'
  expire_sessions-Inv ended v h = elim (expire_sessions_ok ended h) [
    | inl q ↦ rw q v
    | inr (stored, e, q) ↦ Inv-Core c svc' stored q (
        commit-Inv c out svc stored _ (expired-Slotted svc.max_sessions out.now svc.state v.slotted)
          e)
  ]

  -- A count advances the state and keeps or replaces the file.
  pub record_usage_ok :
      (moved : Moved) (ended : List SessionAllocation)
      → record_usage c out svc moved ≡ ok (svc', ended)
      → (svc'.state ≡ (counted moved out.now svc.state).0)
        × ((svc'.file ≡ svc.file) ⊎ (svc'.file ≡ svc'.state))
        × (svc'.max_sessions ≡ svc.max_sessions)
  unfolding record_usage
  record_usage_ok moved ended h =
      let next = counted moved out.now svc.state in
      let kept = record svc { state = next.0 } in
      let written = record svc { state = next.0; file = next.0; usage_stored_at = out.now } in
      let as_kept = note_ended-Core kept out.noted_at next.1 ended_allowance_used in
      let as_written = note_ended-Core written out.noted_at next.1 ended_allowance_used in
      ground arith

  pub record_usage-Inv :
      (moved : Moved) (ended : List SessionAllocation)
      → Inv c svc
      → record_usage c out svc moved ≡ ok (svc', ended)
      → Inv c svc'
  unfolding counted
  record_usage-Inv moved ended v h =
      let (st, fl, mx) = record_usage_ok moved ended h in
      let w = counted-WellFormed c moved out.now svc.state v.valid in
      record {
        valid = rw st w;
        file_valid = elim fl [ inl q ↦ rw q v.file_valid | inr q ↦ rw (q, st) w ];
        slotted =
            rw (st, mx) (All-retain (Slotted svc.max_sessions) _ svc.state.sessions v.slotted);
      }

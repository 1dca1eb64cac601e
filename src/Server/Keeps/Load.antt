-- ===== src/Server/Keeps/Load.antt =====
-- Loading establishes the invariant of the service: `load` and `prepare_resource_slots` of
-- crates/ket-server/src/service.rs.
use ket.Common.{
  ℕ, ◌<◌, ◌≡◌, refl, sym, ◌∙◌, ap, subst, Bool, false, not, ◌||◌, List, [], ◌∷◌, ◌++◌, Option, none,
  some, arith, Bool-cases, Option-cases, Result-cases, inl, inr, ◌==◌, retain, length,
  length-retain_le, All, Result, ok, err, OnSome,
}
use ket.Server.Model.{SessionRecord, PersistedState, Crypto}
use ket.Server.Validate.{validate, check_grants, check_sessions}
use ket.Server.Validate.WellFormed.{WellFormed}
use ket.Server.Validate.Sessions.{validate_iff}
use ket.Server.Errors.{RepositoryError}
use ket.Server.Slots.{first_free, is_live, check_slots, assign_slots, prepare_resource_slots}
use ket.Server.Slots.Free.{Slotted, first_free-some}
use ket.Server.Service.State.{
  AccessService, Outside, store_file, load_file, upgrade_schema, default_state,
}
use ket.Server.Service.Upkeep.{load}
use ket.Server.Service.Invariant.{Inv, store_file_ok}

abbrev BelowOrNone : ℕ → SessionRecord → Type 0
BelowOrNone max s = OnSome (λ k. k < max) s.resource_slot

check_slots-BelowOrNone :
    (max : ℕ) (ss : List SessionRecord) (used : List ℕ) {u : List ℕ}
    → check_slots max ss used ≡ ok u
    → All (BelowOrNone max) ss
unfolding check_slots
check_slots-BelowOrNone max [] used h = tt
check_slots-BelowOrNone max (s ∷ ss) used {u} h = elim (Option-cases s.resource_slot) [
  | inl n ↦ rw n (tt, check_slots-BelowOrNone max ss used {u = u} (rw n at h))
  | inr (k, n) ↦
      let q : (k < max) × (check_slots max ss (used ++ k ∷ []) ≡ ok u) = ground arith in
      rw n (q.0, check_slots-BelowOrNone max ss (used ++ k ∷ []) {u = u} q.1)
]

assign_slots_ok :
    (max : ℕ) (ss : List SessionRecord) (used : List ℕ) (rest : List SessionRecord) (changed : Bool)
    → All (BelowOrNone max) ss
    → assign_slots max ss used ≡ ok (rest, changed)
    → All (Slotted max) rest × (changed ≡ false → rest ≡ ss)
unfolding assign_slots
assign_slots_ok max [] used rest changed b h =
    let same : [] ≡ rest = ground arith in (subst (All (Slotted max)) same tt, λ _. sym same)
assign_slots_ok max (s ∷ ss) used rest changed (b, bs) h = elim (Option-cases s.resource_slot) [
  | inr (k, n) ↦ elim (Result-cases (assign_slots max ss used)) [
    | inr (x, e) ↦ absurd (ground arith)
    | inl ((more, ch), e) ↦
        let (p, q) = assign_slots_ok max ss used more ch bs e in
        let same : s ∷ more ≡ rest = ground arith in
        let below : Slotted max s = rw n (rw n at b) in
        (subst (All (Slotted max)) same (below, p), ground arith)
  ]
  | inl n ↦ elim (Option-cases (first_free max 0 used)) [
    | inl f ↦ absurd (ground arith)
    | inr (k, f) ↦ elim (Result-cases (assign_slots max ss (used ++ k ∷ []))) [
      | inr (x, e) ↦ absurd (ground arith)
      | inl ((more, ch), e) ↦
          let (p, q) = assign_slots_ok max ss (used ++ k ∷ []) more ch bs e in
          let same : record s { resource_slot = some k } ∷ more ≡ rest = ground arith in
          let below = first_free-some max 0 used {k = k} f in
          (subst (All (Slotted max)) same (omega arith, p), ground arith)
    ]
  ]
]

-- Sessions that no test removed.
retain_all :
    (p : SessionRecord → Bool) (ss : List SessionRecord)
    → length (retain p ss) ≡ length ss
    → retain p ss ≡ ss
retain_all p [] h = refl
retain_all p (s ∷ ss) h = elim (Bool-cases (p s)) [
  | inl t ↦ rw (t, retain_all p ss (ground arith))
  | inr t ↦ let le = length-retain_le p ss in absurd (ground arith)
]

prepare_resource_slots_ok :
    (st next : PersistedState) (max now : ℕ) (changed : Bool)
    → prepare_resource_slots st max now ≡ ok (next, changed)
    → All (Slotted max) next.sessions × (changed ≡ false → next ≡ st)
unfolding prepare_resource_slots
prepare_resource_slots_ok st next max now changed h =
    let live = retain (is_live now) st.sessions in
    elim (Result-cases (check_slots max live [])) [
      | inr (x, e) ↦ absurd (ground arith)
      | inl (used, e1) ↦ elim (Result-cases (assign_slots max live used)) [
        | inr (x, e) ↦ absurd (ground arith)
        | inl ((ss, ch), e2) ↦
            let (p, q) =
              assign_slots_ok max live used ss ch (check_slots-BelowOrNone max live [] e1) e2 in
            let same : (record st { sessions = ss } ≡ next)
                × ((not (length live == length st.sessions) || ch) ≡ changed) =
              ground arith in
            (
              subst (λ (n : PersistedState). All (Slotted max) n.sessions) same.0 p,
              λ unchanged.
                  let full : (length live ≡ length st.sessions) × (ch ≡ false) = ground arith in
                  sym same.0
                  ∙ ap (λ (l : List SessionRecord). record st { sessions = l })
                      (q full.1 ∙ retain_all (is_live now) st.sessions full.0),
            )
      ]
    ]

default-valid : (c : Crypto) → validate c default_state ≡ ok tt
unfolding validate check_grants check_sessions
default-valid c = refl

load_file-WellFormed :
    (c : Crypto) (content : Option (Result RepositoryError PersistedState)) (st : PersistedState)
    → load_file c content ≡ ok st
    → WellFormed c st
unfolding load_file upgrade_schema
load_file-WellFormed c none st h =
    let same : default_state ≡ st = ground arith in
    subst (WellFormed c) same ((validate_iff c default_state).0 (default-valid c))
load_file-WellFormed c (some (err failure)) st h = absurd (cc)
load_file-WellFormed c (some (ok parsed)) st h = (validate_iff c st).0 (ground arith)

pub load-Inv :
    (c : Crypto) (out : Outside) (content : Option (Result RepositoryError PersistedState))
    (ttl max : ℕ) (loaded : PersistedState) (svc : AccessService)
    → load_file c content ≡ ok loaded
    → load c out loaded ttl max ≡ ok svc
    → Inv c svc
unfolding load
load-Inv c out content ttl max loaded svc read h =
    let w = load_file-WellFormed c content loaded read in
    elim (Result-cases (prepare_resource_slots loaded max out.now)) [
      | inr (x, e) ↦ absurd (ground arith)
      | inl ((st, changed), e) ↦
          let (p, q) = prepare_resource_slots_ok loaded st max out.now changed e in
          elim (Bool-cases changed) [
            | inl t ↦
                let stored : store_file c out.disk st ≡ ok tt = ground arith in
                let is : (svc.state ≡ st) × (svc.file ≡ st) × (svc.max_sessions ≡ max) =
                  ground arith in
                let v = store_file_ok c out st stored in
                record { valid = rw is.0 v; file_valid = rw is.1 v; slotted = rw (is.0, is.2) p }
            | inr t ↦
                let is : (svc.state ≡ st) × (svc.file ≡ loaded) × (svc.max_sessions ≡ max) =
                  ground arith in
                record {
                  valid = rw (is.0, q t) w;
                  file_valid = rw is.1 w;
                  slotted = rw (is.0, is.2) p;
                }
          ]
    ]

-- ===== src/Server/Effects/Room.antt =====
-- Where the node and the grant have room, an enrolment finds a slot.
use ket.Common.{
  ℕ, zero, suc, ◌+◌, ◌≤◌, ◌<◌, ◌≡◌, ◌≢◌, refl, subst, arith, Bool, true, false, not, ◌==◌, leb,
  List, [], ◌∷◌, none, some, Text, inl, inr, Bool-cases, Option-cases, Result-cases, any, find,
  retain, same_text, length, All, All-retain, length-retain_le, ℕ_discrete, OnSome, ok,
}
use ket.Server.Model.{AccessGrantRecord, SessionRecord, PersistedState, Crypto}
use ket.Server.Usage.{used_up_until}
use ket.Server.Validate.WellFormed.{slots}
use ket.Server.Errors.{CreatedSession, SessionAllocation}
use ket.Server.Slots.{
  first_free, next_resource_slot, allocations, session_allocation, required_resource_slot,
}
use ket.Server.Slots.Free.{Slotted}
use ket.Server.Service.State.{AccessService}
use ket.Server.Service.Grants.{live_of_grant, live_sessions}
use ket.Server.Service.Sessions.{NewTokens, prepare_session}
use ket.Server.Service.Enrolled.{live_state}
use ket.Server.Service.Invariant.{Inv}

abbrev member : ℕ → List ℕ → Bool
member k xs = any (λ x. x == k) xs

member-retain :
    (k n : ℕ) (xs : List ℕ)
    → k ≢ n
    → member k xs ≡ true
    → member k (retain (λ x. not (x == n)) xs) ≡ true
member-retain k n [] other h = absurd (cc)
member-retain k n (x ∷ xs) other h = ground (arith, member-retain k n xs other)

length-retain_lt :
    (n : ℕ) (xs : List ℕ)
    → member n xs ≡ true
    → suc (length (retain (λ x. not (x == n)) xs)) ≤ length xs
length-retain_lt n [] h = absurd (cc)
length-retain_lt n (x ∷ xs) h =
    ground (arith, length-retain_le (λ x. not (x == n)) xs, length-retain_lt n xs)

-- A list that has every number below `n` has `n` entries at least.
covers : (n : ℕ) (xs : List ℕ) → ((k : ℕ) → k < n → member k xs ≡ true) → n ≤ length xs
covers zero xs all = omega arith
covers (suc n) xs all = omega (
  arith,
  length-retain_lt n xs (all n (omega arith)),
  covers n (retain (λ x. not (x == n)) xs)
      (λ k lt. member-retain k n xs (λ same. omega arith) (all k (omega arith))),
)

-- The search fails only where every slot is taken.
first_free-none :
    (left slot : ℕ) (used : List ℕ)
    → first_free left slot used ≡ none
    → (k : ℕ) → slot ≤ k
    → k < slot + left
    → member k used ≡ true
unfolding first_free
first_free-none zero slot used e k lo hi = absurd (omega arith)
first_free-none (suc left) slot used e k lo hi = elim (Bool-cases (member slot used)) [
  | inl taken ↦ elim (ℕ_discrete slot k) [
    | yes same ↦ subst (λ x. member x used ≡ true) same taken
    | no other ↦ first_free-none left (slot + 1) used (rw taken at e) k (omega arith) (omega arith)
  ]
  | inr empty ↦ absurd (cc (rw empty at e))
]

slots-length : (ss : List SessionRecord) → length (slots ss) ≤ length ss
slots-length [] = omega arith
slots-length (s ∷ ss) = elim (Option-cases s.resource_slot) [
  | inl e ↦ rw e (omega (arith, slots-length ss))
  | inr (k, e) ↦ rw e (omega (arith, slots-length ss))
]

next_resource_slot-some :
    (st : PersistedState) (max : ℕ)
    → length st.sessions < max
    → (slot : ℕ) × (next_resource_slot st max ≡ some slot)
unfolding next_resource_slot
next_resource_slot-some st max room = elim (Option-cases (first_free max 0 (slots st.sessions))) [
  | inl e ↦ absurd (
      omega (
        arith,
        slots-length st.sessions,
        covers max (slots st.sessions)
            (λ k lt. first_free-none max 0 (slots st.sessions) e k (omega arith) (omega arith)),
      ))
  | inr (slot, e) ↦ (slot, e)
]

allocations-ok :
    (max : ℕ) (ss : List SessionRecord)
    → All (Slotted max) ss
    → (made : List SessionAllocation) × (allocations ss ≡ ok made)
unfolding allocations session_allocation required_resource_slot
allocations-ok max [] h = ([], refl)
allocations-ok max (s ∷ ss) (h, hs) = elim (Option-cases s.resource_slot) [
  | inl e ↦ absurd (rw e at h)
  | inr (slot, e) ↦
      let (made, f) = allocations-ok max ss hs in
      (record { id = s.id; resource_slot = slot } ∷ made, rw (e, f) refl)
]

live_length :
    (now : ℕ) (ss : List SessionRecord)
    → length (retain (λ s. not (leb s.expires_at_epoch_seconds now)) ss)
      ≡ live_sessions now (retain (λ s. not (leb s.expires_at_epoch_seconds now)) ss)
live_length now [] = refl
live_length now (s ∷ ss) = ground (arith, live_length now ss)

-- Where the service keeps its invariant, the part of an enrolment under the lock succeeds for every
-- grant that is there, unexpired, not paused and not used up, with room in its device limit and in the
-- node's capacity, and a new ID: there is always a slot left then.
pub prepare_session-room :
    (c : Crypto) (now : ℕ) (svc : AccessService) (grant_id : Text) (tokens : NewTokens)
    (name : Text) (g : AccessGrantRecord)
    → Inv c svc
    → find (λ g. same_text g.id grant_id) svc.state.grants ≡ some g
    → OnSome (λ e. now < e) g.expires_at_epoch_seconds
    → g.paused ≡ false
    → used_up_until g now ≡ none
    → live_of_grant g.id now (live_state svc.state now).sessions < g.max_connections
    → live_sessions now (live_state svc.state now).sessions < svc.max_sessions
    → any (λ s. same_text s.id tokens.id) (live_state svc.state now).sessions ≡ false
    → (next : PersistedState) × (created : CreatedSession) × (expired : List SessionRecord)
      × (prepare_session c now svc grant_id tokens name ≡ ok (next, created, expired))
unfolding prepare_session
prepare_session-room c now svc grant_id tokens name g v found current paused left here node new =
    let old = retain (λ s. leb s.expires_at_epoch_seconds now) svc.state.sessions in
    let (gone, at) = allocations-ok svc.max_sessions old (
      All-retain (Slotted svc.max_sessions) (λ s. leb s.expires_at_epoch_seconds now)
        svc.state.sessions v.slotted) in
    let (slot, free) =
      next_resource_slot-some (live_state svc.state now) svc.max_sessions
        (omega (arith, live_length now svc.state.sessions)) in
    elim (Result-cases (prepare_session c now svc grant_id tokens name)) [
      | inl ((next, created, expired), e) ↦ (next, created, expired, e)
      | inr (x, e) ↦ absurd (ground arith)
    ]

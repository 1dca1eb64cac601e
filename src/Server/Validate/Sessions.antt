-- ===== src/Server/Validate/Sessions.antt =====
-- `validate` accepts the well-formed states and no others: the loop over sessions, and the whole.
use mathlib.Core.Option
use ket.Common.{
  ℕ, ◌≡◌, refl, Bool, true, false, List, [], ◌∷◌, ◌++◌, none, some, Text, arith, map, same_text,
  any, All, Unique, Result-cases, Option, inl, inr, ok, ◌>>=◌, ◌≢◌, ◌↔◌, ◌==◌,
}
use ket.Server.Model.{AccessGrantRecord, SessionRecord, PersistedState, Crypto}
use ket.Server.Validate.{
  Expiries, get, check_grants, check_session, check_sessions, check_hashes, validate, slot_free,
  insert_slot,
}
use ket.Server.Validate.WellFormed.{SessionOk, WellFormed, find_grant, OneHash, slots}
use ket.Server.Validate.Exact.{then-ok, check_grants→, check_grants←, entries, get-entries}

-- The table agrees with the list of grants.
abbrev Agrees : Expiries → List AccessGrantRecord → Type 0
Agrees t gs =
    (id : Text) → get t id ≡ Option.map (λ g. g.expires_at_epoch_seconds) (find_grant gs id)

hashes→ :
    (c : Crypto) (s : SessionRecord)
    → check_hashes c s.control_secret_hash s.secret_hash ≡ ok tt
    → OneHash c s.control_secret_hash s.secret_hash
unfolding check_hashes
hashes→ c s h = ground arith

hashes← :
    (c : Crypto) (s : SessionRecord)
    → OneHash c s.control_secret_hash s.secret_hash
    → check_hashes c s.control_secret_hash s.secret_hash ≡ ok tt
unfolding check_hashes
hashes← c s h = ground arith

session→ :
    (c : Crypto) (t : Expiries) (gs : List AccessGrantRecord) (is : List Text) (ks : List ℕ)
    (s : SessionRecord)
    → get t s.grant_id ≡ Option.map (λ g. g.expires_at_epoch_seconds) (find_grant gs s.grant_id)
    → check_session c t is ks s ≡ ok tt
    → SessionOk c gs s
      × (any (λ i. same_text i s.id) is ≡ false)
      × (slot_free s.resource_slot ks ≡ true)
unfolding check_session
session→ c t gs is ks s e h = ground (arith, hashes→ c s)

session← :
    (c : Crypto) (t : Expiries) (gs : List AccessGrantRecord) (is : List Text) (ks : List ℕ)
    (s : SessionRecord)
    → get t s.grant_id ≡ Option.map (λ g. g.expires_at_epoch_seconds) (find_grant gs s.grant_id)
    → SessionOk c gs s
    → (any (λ i. same_text i s.id) is ≡ false)
    → (slot_free s.resource_slot ks ≡ true)
    → check_session c t is ks s ≡ ok tt
unfolding check_session
session← c t gs is ks s e h n f = ground (arith, hashes← c s)

any-snoc {ℓ} :
    {A : Type ℓ} (p : A → Bool) (xs : List A) (x : A)
    → (any p (xs ++ x ∷ []) ≡ false) ↔ ((any p xs ≡ false) × (p x ≡ false))
any-snoc p [] x = (λ h. ground arith, λ h. ground arith)
any-snoc p (y ∷ xs) x =
    let ih = any-snoc p xs x in (λ h. ground (arith, ih.0), λ h. ground (arith, ih.1))

abbrev sids : List SessionRecord → List Text
sids = map (λ s. s.id)

-- No listed text, and no listed slot, is among those seen before.
abbrev NewIds : List Text → List Text → Type 0
NewIds is js = All (λ j. any (λ i. same_text i j) is ≡ false) js

abbrev NewSlots : List ℕ → List ℕ → Type 0
NewSlots ks ls = All (λ l. any (λ k. k == l) ks ≡ false) ls

NewIds-snoc→ :
    (is : List Text) (i : Text) (js : List Text)
    → NewIds (is ++ i ∷ []) js
    → NewIds is js × All (λ j. i ≢ j) js
NewIds-snoc→ is i [] h = (tt, tt)
NewIds-snoc→ is i (j ∷ js) (h, hs) =
    let (a, b) = (any-snoc (λ i. same_text i j) is i).0 h in
    let (x, y) = NewIds-snoc→ is i js hs in ((a, x), (ground arith, y))

NewIds-snoc← :
    (is : List Text) (i : Text) (js : List Text)
    → NewIds is js
    → All (λ j. i ≢ j) js
    → NewIds (is ++ i ∷ []) js
NewIds-snoc← is i [] h n = tt
NewIds-snoc← is i (j ∷ js) (h, hs) (n, ns) =
    ((any-snoc (λ i. same_text i j) is i).1 (h, ground arith), NewIds-snoc← is i js hs ns)

NewSlots-snoc→ :
    (ks : List ℕ) (k : ℕ) (ls : List ℕ)
    → NewSlots (ks ++ k ∷ []) ls
    → NewSlots ks ls × All (λ l. k ≢ l) ls
NewSlots-snoc→ ks k [] h = (tt, tt)
NewSlots-snoc→ ks k (l ∷ ls) (h, hs) =
    let (a, b) = (any-snoc (λ k. k == l) ks k).0 h in
    let (x, y) = NewSlots-snoc→ ks k ls hs in ((a, x), (ground arith, y))

NewSlots-snoc← :
    (ks : List ℕ) (k : ℕ) (ls : List ℕ)
    → NewSlots ks ls
    → All (λ l. k ≢ l) ls
    → NewSlots (ks ++ k ∷ []) ls
NewSlots-snoc← ks k [] h n = tt
NewSlots-snoc← ks k (l ∷ ls) (h, hs) (n, ns) =
    ((any-snoc (λ k. k == l) ks k).1 (h, ground arith), NewSlots-snoc← ks k ls hs ns)

abbrev slots_of : Option ℕ → List ℕ → List ℕ
slots_of none rest = rest
slots_of (some k) rest = k ∷ rest

slots-cons :
    (s : SessionRecord) (ss : List SessionRecord)
    → slots (s ∷ ss) ≡ slots_of s.resource_slot (slots ss)
slots-cons s ss = ground arith

slots→ :
    (o : Option ℕ) (ks ls : List ℕ)
    → slot_free o ks ≡ true
    → NewSlots (insert_slot o ks) ls
    → Unique ls
    → NewSlots ks (slots_of o ls) × Unique (slots_of o ls)
slots→ none ks ls f n u = (n, u)
slots→ (some k) ks ls f n u =
    let (old, other) = NewSlots-snoc→ ks k ls n in ((ground arith, old), (other, u))

slots← :
    (o : Option ℕ) (ks ls : List ℕ)
    → NewSlots ks (slots_of o ls)
    → Unique (slots_of o ls)
    → (slot_free o ks ≡ true) × NewSlots (insert_slot o ks) ls × Unique ls
slots← none ks ls n u = (refl, n, u)
slots← (some k) ks ls (n, ns) (o, u) = (ground arith, NewSlots-snoc← ks k ls ns o, u)

module _ (c : Crypto) (t : Expiries) (gs : List AccessGrantRecord) (agrees : Agrees t gs) where
  sessions→ :
      (is : List Text) (ks : List ℕ) (ss : List SessionRecord)
      → check_sessions c t is ks ss ≡ ok tt
      → All (SessionOk c gs) ss
        × NewIds is (sids ss)
        × Unique (sids ss)
        × NewSlots ks (slots ss)
        × Unique (slots ss)
  unfolding check_sessions
  sessions→ is ks [] h = (tt, tt, tt, tt, tt)
  sessions→ is ks (s ∷ ss) h =
      let (first, rest) = then-ok (check_session c t is ks s) _ h in
      let (good, new, free) = session→ c t gs is ks s (agrees s.grant_id) first in
      let (goods, ids, apart, ns, us) =
        sessions→ (is ++ s.id ∷ []) (insert_slot s.resource_slot ks) ss rest in
      let (old, other) = NewIds-snoc→ is s.id (sids ss) ids in
      let (n, u) = slots→ s.resource_slot ks (slots ss) free ns us in
      ((good, goods), (new, old), (other, apart), rw (slots-cons s ss) n, rw (slots-cons s ss) u)

  sessions← :
      (is : List Text) (ks : List ℕ) (ss : List SessionRecord)
      → All (SessionOk c gs) ss
      → NewIds is (sids ss)
      → Unique (sids ss)
      → NewSlots ks (slots ss)
      → Unique (slots ss)
      → check_sessions c t is ks ss ≡ ok tt
  unfolding check_sessions
  sessions← is ks [] a b d e f = refl
  sessions← is ks (s ∷ ss) (good, goods) (new, old) (other, apart) n u =
      let (free, ns, us) =
        slots← s.resource_slot ks (slots ss) (rw (slots-cons s ss) at n)
          (rw (slots-cons s ss) at u) in
      rw (session← c t gs is ks s (agrees s.grant_id) good new free) (
        sessions← (is ++ s.id ∷ []) (insert_slot s.resource_slot ks) ss goods
          (NewIds-snoc← is s.id (sids ss) old other) apart ns us)

no_ids : (js : List Text) → NewIds [] js
no_ids [] = tt
no_ids (j ∷ js) = (refl, no_ids js)

no_slots : (js : List ℕ) → NewSlots [] js
no_slots [] = tt
no_slots (j ∷ js) = (refl, no_slots js)

no_entries : (js : List Text) → All (λ id. get [] id ≡ none) js
no_entries [] = tt
no_entries (j ∷ js) = (refl, no_entries js)

-- `validate` accepts a state exactly when it is well formed: every record has its shape, no grant
-- ID, session ID or slot occurs twice, and each session has its grant and ends no later than it.
pub validate_iff : (c : Crypto) (st : PersistedState) → (validate c st ≡ ok tt) ↔ WellFormed c st
unfolding validate
validate_iff c st = (forth, back)
  where
    forth :
        (check_grants c [] st.grants >>= λ u. check_sessions c u [] [] st.sessions) ≡ ok tt
        → WellFormed c st
    forth h = elim (Result-cases (check_grants c [] st.grants)) [
      | inl (u, e) ↦
          let (goods, apart, fresh, whole) = check_grants→ c [] st.grants e in
          let (sgood, new, sapart, ns, us) =
            sessions→ c u st.grants (λ id. rw whole (get-entries st.grants id)) [] [] st.sessions
              (rw e at h) in
          record {
            grants_ok = goods;
            grant_ids = apart;
            sessions_ok = sgood;
            session_ids = sapart;
            slots_apart = us;
          }
      | inr (f, e) ↦ absurd (cc (rw e at h))
    ]

    back :
        WellFormed c st
        → (check_grants c [] st.grants >>= λ u. check_sessions c u [] [] st.sessions) ≡ ok tt
    back w = rw (check_grants← c [] st.grants w.grants_ok w.grant_ids (no_entries _)) (
        sessions← c (entries st.grants) st.grants (get-entries st.grants) [] [] st.sessions
          w.sessions_ok (no_ids _) w.session_ids (no_slots _) w.slots_apart)

-- ===== src/Server/Slots/Free.antt =====
-- Slots are below the capacity and never shared, so the sessions never outnumber them.
use ket.Common.{
  ℕ, zero, suc, ◌+◌, ◌≤◌, ◌<◌, ◌≡◌, ◌≢◌, refl, ap, false, not, List, [], ◌∷◌, Option, none, some,
  arith, ◌==◌, Bool-cases, Option-cases, inl, inr, any, any-false, retain, length, All, All-retain,
  Unique,
}
use ket.Server.Model.{SessionRecord}
use ket.Server.Validate.WellFormed.{slots}
use ket.Server.Slots.{first_free}

-- The session holds a slot below the capacity.
abbrev pub SlotBelow : ℕ → Option ℕ → Type 0
SlotBelow max none = ⊥
SlotBelow max (some k) = k < max

abbrev pub Slotted : ℕ → SessionRecord → Type 0
Slotted max s = SlotBelow max s.resource_slot

-- The first free slot is in range and held by nobody.
pub first_free-some :
    (left slot : ℕ) (used : List ℕ) {k : ℕ}
    → first_free left slot used ≡ some k
    → (slot ≤ k) × (k < slot + left) × All (λ u. u ≢ k) used
unfolding first_free
first_free-some zero slot used e = absurd (cc)
first_free-some (suc left) slot used {k} e = elim (Bool-cases (any (λ k. k == slot) used)) [
  | inl taken ↦
      let (lo, hi, free) = first_free-some left (slot + 1) used (rw taken at e) in
      (omega arith, omega arith, free)
  | inr empty ↦
      let at : slot ≡ k = ground arith in
      (omega arith, omega arith, free used (any-false (λ k. k == slot) used empty) at)
]
  where
    free : (us : List ℕ) → All (λ u. (u == slot) ≡ false) us → slot ≡ k → All (λ u. u ≢ k) us
    free [] h at = tt
    free (u ∷ us) (h, hs) at = (ground arith, free us hs at)

remove_number : ℕ → List ℕ → List ℕ
remove_number n xs = retain (λ x. not (x == n)) xs

remove_length : (n : ℕ) (xs : List ℕ) → Unique xs → length xs ≤ suc (length (remove_number n xs))
unfolding remove_number
remove_length n [] u = omega arith
remove_length n (x ∷ xs) (new, u) = elim (Bool-cases (x == n)) [
  | inl e ↦ rw e (omega (arith, keeps xs new (ground arith)))
  | inr e ↦ rw e (omega (arith, remove_length n xs u))
]
  where
    keeps :
        (ys : List ℕ)
        → All (λ y. x ≢ y) ys
        → x ≡ n
        → length ys ≤ length (retain (λ x. not (x == n)) ys)
    keeps [] h e = omega arith
    keeps (y ∷ ys) (h, hs) e = ground (arith, keeps ys hs e)

remove_below :
    (n : ℕ) (xs : List ℕ) → All (λ x. x < suc n) xs → All (λ x. x < n) (remove_number n xs)
unfolding remove_number
remove_below n [] h = tt
remove_below n (x ∷ xs) (h, hs) = ground (arith, remove_below n xs hs)

remove_Unique : (n : ℕ) (xs : List ℕ) → Unique xs → Unique (remove_number n xs)
unfolding remove_number
remove_Unique n [] u = tt
remove_Unique n (x ∷ xs) (new, u) =
    ground (arith, remove_Unique n xs u, All-retain (λ y. x ≢ y) (λ x. not (x == n)) xs new)

-- Distinct numbers below `n` are at most `n`.
pub pigeonhole : (n : ℕ) (xs : List ℕ) → Unique xs → All (λ x. x < n) xs → length xs ≤ n
pigeonhole zero [] u h = omega arith
pigeonhole zero (x ∷ xs) u h = absurd (omega arith)
pigeonhole (suc n) xs u h = omega (
  arith,
  remove_length n xs u,
  pigeonhole n (remove_number n xs) (remove_Unique n xs u) (remove_below n xs h),
)

slots_below :
    (max : ℕ) (ss : List SessionRecord)
    → All (Slotted max) ss
    → All (λ k. k < max) (slots ss) × (length (slots ss) ≡ length ss)
slots_below max [] h = (tt, refl)
slots_below max (s ∷ ss) (h, hs) = elim (Option-cases s.resource_slot) [
  | inl e ↦ absurd (rw e at h)
  | inr (k, e) ↦ let (a, b) = slots_below max ss hs in rw e ((rw e at h, a), ap suc b)
]

-- Sessions that all hold slots below the capacity, no two the same, are at most that many.
pub sessions_le :
    (max : ℕ) (ss : List SessionRecord) → All (Slotted max) ss → Unique (slots ss) → length ss ≤ max
sessions_le max ss h u =
    let (below, same) = slots_below max ss h in omega (arith, pigeonhole max (slots ss) u below)

-- ===== src/Common/Selections.antt =====
-- What `retain` keeps: facts of all entries, distinct keys, and entries that are found.
use Prim.Native.Nat.{◌+◌, ◌≤◌}
use mathlib.Core.Path.{◌≡◌, refl}
use mathlib.Core.Logic.{◌≢◌, inl, inr}
use mathlib.Core.Bool.{Bool, true, false, not}
use mathlib.Core.Option.{none, some}
use mathlib.Core.List.{List, [], ◌∷◌, ◌++◌, map}
use native.Mathlib.Omega.{arith}
use ket.Common.Tests.{Bool-cases}
use ket.Common.Lists.{length, any, find, retain, All, Unique, All-append}

module _ {ℓ κ} {A : Type ℓ} {B : Type κ} (f : A → B) (p : A → Bool) where
  pub All-map-retain {μ} :
      (P : B → Type μ) (xs : List A) → All P (map f xs) → All P (map f (retain p xs))
  All-map-retain P [] h = tt
  All-map-retain P (x ∷ xs) (h, hs) = elim (Bool-cases (p x)) [
    | inl e ↦ rw e (h, All-map-retain P xs hs)
    | inr e ↦ rw e (All-map-retain P xs hs)
  ]

  pub Unique-map-retain : (xs : List A) → Unique (map f xs) → Unique (map f (retain p xs))
  Unique-map-retain [] u = tt
  Unique-map-retain (x ∷ xs) (n, u) = elim (Bool-cases (p x)) [
    | inl e ↦ rw e (All-map-retain (λ y. f x ≢ y) xs n, Unique-map-retain xs u)
    | inr e ↦ rw e (Unique-map-retain xs u)
  ]

module _ {ℓ} {A : Type ℓ} where
  -- Every entry that `retain` keeps passes its test.
  pub All-retain_self : (p : A → Bool) (xs : List A) → All (λ x. p x ≡ true) (retain p xs)
  All-retain_self p [] = tt
  All-retain_self p (x ∷ xs) = elim (Bool-cases (p x)) [
    | inl e ↦ rw e (e, All-retain_self p xs)
    | inr e ↦ rw e (All-retain_self p xs)
  ]

  pub Unique-snoc : (xs : List A) (a : A) → Unique xs → All (λ x. x ≢ a) xs → Unique (xs ++ a ∷ [])
  Unique-snoc [] a u n = (tt, tt)
  Unique-snoc (x ∷ xs) a (new, u) (n, ns) =
      (All-append (λ j. x ≢ j) xs (a ∷ []) new (n, tt), Unique-snoc xs a u ns)

  pub All-mono {κ μ} :
      {P : A → Type κ} {Q : A → Type μ} (f : (a : A) → P a → Q a) (xs : List A)
      → All P xs
      → All Q xs
  All-mono f [] h = tt
  All-mono f (x ∷ xs) (h, hs) = (f x h, All-mono f xs hs)

  -- Nothing is found where no entry passes, and what is found passes and has what all entries have.
  pub find-All {κ} :
      (P : A → Type κ) (p : A → Bool) (xs : List A) {a : A}
      → find p xs ≡ some a
      → All P xs
      → (p a ≡ true) × P a
  find-All P p [] e h = absurd (cc)
  find-All P p (x ∷ xs) e (h, hs) = elim (Bool-cases (p x)) [
    | inl t ↦ ground arith
    | inr t ↦ find-All P p xs (rw t at e) hs
  ]

  -- Two tests in a row are one.
  pub find-retain :
      (p q : A → Bool) (xs : List A)
      → ((x : A) → p x ≡ true → q x ≡ true)
      → find p (retain q xs) ≡ find p xs
  find-retain p q [] h = refl
  find-retain p q (x ∷ xs) h = ground (arith, h x, find-retain p q xs h)

  pub any-false : (p : A → Bool) (xs : List A) → any p xs ≡ false → All (λ x. p x ≡ false) xs
  any-false p [] h = tt
  any-false p (x ∷ xs) h = ground (arith, any-false p xs)

  pub retain_none : (p : A → Bool) (xs : List A) → All (λ x. p x ≡ false) xs → retain p xs ≡ []
  retain_none p [] h = refl
  retain_none p (x ∷ xs) (h, hs) = rw h (retain_none p xs hs)

  pub retain-append :
      (p : A → Bool) (xs ys : List A) → retain p (xs ++ ys) ≡ retain p xs ++ retain p ys
  retain-append p [] ys = refl
  retain-append p (x ∷ xs) ys = ground (arith, retain-append p xs ys)

  -- An entry at the end is found when no earlier one is.
  pub find-snoc :
      (p : A → Bool) (xs : List A) (y : A)
      → any p xs ≡ false
      → p y ≡ true
      → find p (xs ++ y ∷ []) ≡ some y
  find-snoc p [] y h t = rw t
  find-snoc p (x ∷ xs) y h t = ground (arith, find-snoc p xs y)

  -- Nothing is found where every entry that could pass was removed.
  pub find-retain-not : (p : A → Bool) (xs : List A) → find p (retain (λ x. not (p x)) xs) ≡ none
  find-retain-not p [] = refl
  find-retain-not p (x ∷ xs) = ground (arith, find-retain-not p xs)

  pub length-retain_snoc :
      (p : A → Bool) (xs : List A) (y : A)
      → length (retain p (xs ++ y ∷ [])) ≤ length (retain p xs) + 1
  length-retain_snoc p [] y = ground arith
  length-retain_snoc p (x ∷ xs) y = ground (arith, length-retain_snoc p xs y)

  -- What is found passes.
  pub find-holds : (p : A → Bool) (xs : List A) {a : A} → find p xs ≡ some a → p a ≡ true
  find-holds p [] e = absurd (cc)
  find-holds p (x ∷ xs) e = elim (Bool-cases (p x)) [
    | inl t ↦ ground arith
    | inr t ↦ find-holds p xs (rw t at e)
  ]

  pub retain-retain :
      (p q : A → Bool) (xs : List A)
      → ((x : A) → p x ≡ true → q x ≡ true)
      → retain p (retain q xs) ≡ retain p xs
  retain-retain p q [] h = refl
  retain-retain p q (x ∷ xs) h = ground (arith, h x, retain-retain p q xs h)

-- ===== src/Common/Order.antt =====
-- The order of texts, and the stable sort by an order.
use mathlib.Core.List.Perm
use mathlib.Core.List.{Perm}
use ket.Common.Tests.{Text, ltb, ◌==◌, if◌then◌else◌, Bool-cases}
use ket.Common.Lists.{All, length}
use ket.Common.Selections.{All-mono}
use Prim.Native.Nat.{suc}
use mathlib.Core.Path.{◌≡◌, refl}
use mathlib.Core.Logic.{inl, inr}
use mathlib.Core.Bool.{Bool, true, false, ◌&&◌, ◌||◌}
use mathlib.Core.List.{List, [], ◌∷◌}
use native.Mathlib.Omega.{arith}

-- `<=` on `String`: UTF-8 sorts like the scalar values.
unfoldable pub text_le : Text → Text → Bool
text_le [] b = true
text_le (x ∷ a) [] = false
text_le (x ∷ a) (y ∷ b) = ltb x y || (x == y && text_le a b)

pub text_le_total : (a b : Text) → text_le a b ≡ false → text_le b a ≡ true
unfolding text_le
text_le_total [] b h = absurd (cc)
text_le_total (x ∷ a) [] h = refl
text_le_total (x ∷ a) (y ∷ b) h = ground (arith, text_le_total a b)

pub text_le_trans : (a b c : Text) → text_le a b ≡ true → text_le b c ≡ true → text_le a c ≡ true
unfolding text_le
text_le_trans [] b c h k = refl
text_le_trans (x ∷ a) [] c h k = absurd (cc)
text_le_trans (x ∷ a) (y ∷ b) [] h k = absurd (cc)
text_le_trans (x ∷ a) (y ∷ b) (z ∷ c) h k = ground (arith, text_le_trans a b c)

-- The laws of a total order's Boolean test, antisymmetry apart.
pub record IsOrder {ℓ} {A : Type ℓ} (le : A → A → Bool) : Type ℓ where
  pub total : (a b : A) → le a b ≡ false → le b a ≡ true
  pub trans : (a b c : A) → le a b ≡ true → le b c ≡ true → le a c ≡ true

pub text_le-IsOrder : IsOrder text_le
text_le-IsOrder = record { total = text_le_total; trans = text_le_trans }

module _ {ℓ} {A : Type ℓ} (le : A → A → Bool) where
  abbrev pub insert_by : A → List A → List A
  insert_by x [] = x ∷ []
  insert_by x (y ∷ ys) = if le x y then x ∷ y ∷ ys else y ∷ insert_by x ys

  -- `sort_by_key` and `sort`, which are stable.
  abbrev pub sort_by : List A → List A
  sort_by [] = []
  sort_by (x ∷ xs) = insert_by x (sort_by xs)

  -- Each entry is at most those after it.
  abbrev pub Sorted : List A → Type 0
  Sorted [] = Unit
  Sorted (x ∷ xs) = All (λ y. le x y ≡ true) xs × Sorted xs

  pub insert_by_perm : (x : A) (xs : List A) → Perm (insert_by x xs) (x ∷ xs)
  insert_by_perm x [] = Perm.rfl
  insert_by_perm x (y ∷ ys) = elim (Bool-cases (le x y)) [
    | inl e ↦ rw e Perm.rfl
    | inr e ↦ rw e (Perm.trans (Perm.cons y (insert_by_perm x ys)) (Perm.swap x y ys))
  ]

  pub sort_by_perm : (xs : List A) → Perm (sort_by xs) xs
  sort_by_perm [] = Perm.rfl
  sort_by_perm (x ∷ xs) = Perm.trans (insert_by_perm x (sort_by xs)) (Perm.cons x (sort_by_perm xs))

  pub length-insert_by : (x : A) (xs : List A) → length (insert_by x xs) ≡ suc (length xs)
  length-insert_by x [] = refl
  length-insert_by x (y ∷ ys) = ground (arith, length-insert_by x ys)

  pub length-sort_by : (xs : List A) → length (sort_by xs) ≡ length xs
  length-sort_by [] = refl
  length-sort_by (x ∷ xs) = omega (arith, length-insert_by x (sort_by xs), length-sort_by xs)

  module _ {κ} (P : A → Type κ) where
    pub All-insert_by : (x : A) (xs : List A) → P x → All P xs → All P (insert_by x xs)
    All-insert_by x [] p h = (p, tt)
    All-insert_by x (y ∷ ys) p (q, h) = elim (Bool-cases (le x y)) [
      | inl e ↦ rw e (p, (q, h))
      | inr e ↦ rw e (q, All-insert_by x ys p h)
    ]

    pub All-sort_by : (xs : List A) → All P xs → All P (sort_by xs)
    All-sort_by [] h = tt
    All-sort_by (x ∷ xs) (p, h) = All-insert_by x (sort_by xs) p (All-sort_by xs h)

  pub insert_by-Sorted : IsOrder le → (x : A) (xs : List A) → Sorted xs → Sorted (insert_by x xs)
  insert_by-Sorted o x [] s = (tt, tt)
  insert_by-Sorted o x (y ∷ ys) (low, s) = elim (Bool-cases (le x y)) [
    | inl e ↦ rw e ((e, All-mono (λ z. o.trans x y z e) ys low), (low, s))
    | inr e ↦
        rw e
          (All-insert_by (λ z. le y z ≡ true) x ys (o.total x y e) low, insert_by-Sorted o x ys s)
  ]

  pub sort_by-Sorted : IsOrder le → (xs : List A) → Sorted (sort_by xs)
  sort_by-Sorted o [] = tt
  sort_by-Sorted o (x ∷ xs) = insert_by-Sorted o x (sort_by xs) (sort_by-Sorted o xs)

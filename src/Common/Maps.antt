-- ===== src/Common/Maps.antt =====
-- `BTreeMap<K, V>` as the list of its entries in the order of the keys.
use ket.Common.Tests.{holds, Text, Text-discrete, if◌then◌else◌, Bool-cases}
use ket.Common.Lists.{All, length}
use ket.Common.Order.{text_le, text_le_total, text_le_trans}
use ket.Common.Selections.{All-mono}
use Prim.Native.Nat.{suc, ◌≤◌}
use mathlib.Core.Path.{◌≡◌, refl, subst}
use mathlib.Core.Logic.{◌≢◌, inl, inr}
use mathlib.Core.Bool.{Bool, true, false}
use mathlib.Core.Option.{Option, none, some}
use mathlib.Core.List.{List, [], ◌∷◌}
use native.Mathlib.Omega.{arith}

pub text_le_antisym : (a b : Text) → text_le a b ≡ true → text_le b a ≡ true → a ≡ b
unfolding text_le
text_le_antisym [] [] h k = refl
text_le_antisym [] (y ∷ b) h k = absurd (cc)
text_le_antisym (x ∷ a) [] h k = absurd (cc)
text_le_antisym (x ∷ a) (y ∷ b) h k = ground (arith, text_le_antisym a b)

-- What `Ord` and `Eq` of a key give.
pub record Key {κ} (K : Type κ) : Type κ where
  pub discrete : Discrete K
  pub less_or_same : K → K → Bool
  pub total : (a b : K) → less_or_same a b ≡ false → less_or_same b a ≡ true
  pub trans :
      (a b c : K) → less_or_same a b ≡ true → less_or_same b c ≡ true → less_or_same a c ≡ true
  pub antisym : (a b : K) → less_or_same a b ≡ true → less_or_same b a ≡ true → a ≡ b

instance unfoldable pub Text-Key : Key Text
unfolding text_le Text-discrete
Text-Key = record {
  discrete = Text-discrete;
  less_or_same = text_le;
  total = text_le_total;
  trans = text_le_trans;
  antisym = text_le_antisym;
}

abbrev pub same_key {κ} : {K : Type κ} → ⦃o : Key K⦄ → K → K → Bool
same_key ⦃o⦄ a b = holds (o.discrete a b)

abbrev pub le {κ} : {K : Type κ} → ⦃o : Key K⦄ → K → K → Bool
le ⦃o⦄ a b = o.less_or_same a b

module _ {κ} {K : Type κ} ⦃o : Key K⦄ where
  pub le_refl : (a : K) → le a a ≡ true
  le_refl a = elim (Bool-cases (le a a)) [ inl e ↦ e | inr e ↦ o.total a a e ]

  lt_trans : (a b c : K) → le b a ≡ false → le c b ≡ false → le c a ≡ false
  lt_trans a b c h k = elim (Bool-cases (le c a)) [
    | inl e ↦ ground (arith, o.trans c a b e (o.total b a h))
    | inr e ↦ e
  ]

  above : (k j : K) → le k j ≡ true → j ≢ k → le j k ≡ false
  above k j h n = elim (Bool-cases (le j k)) [ inl e ↦ absurd (n (o.antisym j k e h)) | inr e ↦ e ]

-- `BTreeMap<K, V>`
abbrev pub Map {κ ℓ} : Type κ → Type ℓ → Type (κ ⊔ ℓ)
Map K V = List (K × V)

module _ {κ ℓ} {K : Type κ} {V : Type ℓ} ⦃o : Key K⦄ where
  -- `get`
  abbrev pub lookup : K → Map K V → Option V
  lookup k [] = none
  lookup k (e ∷ m) = if same_key k e.0 then some e.1 else lookup k m

  -- `insert`
  abbrev pub insert : K → V → Map K V → Map K V
  insert k v [] = (k, v) ∷ []
  insert k v (e ∷ m) =
      let rest = insert k v m in
      if same_key k e.0 then (k, v) ∷ m else (if le k e.0 then (k, v) ∷ e ∷ m else e ∷ rest)

  -- `remove`
  abbrev pub remove : K → Map K V → Map K V
  remove k [] = []
  remove k (e ∷ m) = let rest = remove k m in if same_key k e.0 then m else e ∷ rest

  pub lookup-insert_same : (k : K) (v : V) (m : Map K V) → lookup k (insert k v m) ≡ some v
  lookup-insert_same k v [] = ground arith
  lookup-insert_same k v (e ∷ m) = ground (arith, lookup-insert_same k v m)

  pub lookup-insert_other :
      (k j : K) (v : V) (m : Map K V) → j ≢ k → lookup j (insert k v m) ≡ lookup j m
  lookup-insert_other k j v [] n = ground arith
  lookup-insert_other k j v (e ∷ m) n = ground (arith, lookup-insert_other k j v m n)

  pub lookup-remove_other : (k j : K) (m : Map K V) → j ≢ k → lookup j (remove k m) ≡ lookup j m
  lookup-remove_other k j [] n = refl
  lookup-remove_other k j (e ∷ m) n = ground (arith, lookup-remove_other k j m n)

  pub length-insert_le : (k : K) (v : V) (m : Map K V) → length (insert k v m) ≤ suc (length m)
  length-insert_le k v [] = omega arith
  length-insert_le k v (e ∷ m) = ground (arith, length-insert_le k v m)

  module _ {μ} (P : K × V → Type μ) where
    pub All-insert : (k : K) (v : V) (m : Map K V) → P (k, v) → All P m → All P (insert k v m)
    All-insert k v [] p h = (p, tt)
    All-insert k v (e ∷ m) p (q, h) = ground (arith, All-insert k v m p h)

    pub All-remove : (k : K) (m : Map K V) → All P m → All P (remove k m)
    All-remove k [] h = tt
    All-remove k (e ∷ m) (q, h) = ground (arith, All-remove k m h)

    pub lookup-All : (k : K) (v : V) (m : Map K V) → lookup k m ≡ some v → All P m → P (k, v)
    lookup-All k v [] at h = absurd (cc)
    lookup-All k v (e ∷ m) at (q, h) = ground (arith, lookup-All k v m)

  -- Each key is below those after it.
  abbrev pub Ascending : Map K V → Type 0
  Ascending [] = Unit
  Ascending (e ∷ m) = All (λ f. le f.0 e.0 ≡ false) m × Ascending m

  pub insert-Ascending : (k : K) (v : V) (m : Map K V) → Ascending m → Ascending (insert k v m)
  insert-Ascending k v [] a = (tt, tt)
  insert-Ascending k v (e ∷ m) (low, a) = elim (Bool-cases (same_key k e.0)) [
    | inl s ↦
        let same : e.0 ≡ k = ground arith in
        rw s (subst (λ j. All (λ f. le f.0 j ≡ false) m) same low, a)
    | inr n ↦ elim (Bool-cases (le k e.0)) [
      | inl lower ↦
          let other : e.0 ≢ k = ground arith in
          let below = above k e.0 lower other in
          rw (n, lower) ((below, All-mono (λ f. lt_trans k e.0 f.0 below) m low), (low, a))
      | inr lower ↦
          rw (n, lower)
            (All-insert (λ f. le f.0 e.0 ≡ false) k v m lower low, insert-Ascending k v m a)
    ]
  ]

  -- What all entries have after an insertion: the new one, and those of other keys.
  pub All-insert_others {μ} :
      (P : K × V → Type μ) (k : K) (v : V) (m : Map K V)
      → Ascending m
      → P (k, v)
      → All (λ f. f.0 ≢ k → P f) m
      → All P (insert k v m)
  All-insert_others P k v [] a p h = (p, tt)
  All-insert_others P k v (e ∷ m) (low, a) p (q, h) = elim (Bool-cases (same_key k e.0)) [
    | inl s ↦
        let same : e.0 ≡ k = ground arith in
        rw s (p, beyond m (subst (λ j. All (λ f. le f.0 j ≡ false) m) same low) h)
    | inr n ↦
        let other : e.0 ≢ k = ground arith in
        elim (Bool-cases (le k e.0)) [
          | inl lower ↦
              let below = above k e.0 lower other in
              rw (n, lower)
                (p, (q other, beyond m (All-mono (λ f. lt_trans k e.0 f.0 below) m low) h))
          | inr lower ↦ rw (n, lower) (q other, All-insert_others P k v m a p h)
        ]
  ]
    where
      beyond : (m : Map K V) → All (λ f. le f.0 k ≡ false) m → All (λ f. f.0 ≢ k → P f) m → All P m
      beyond [] l h = tt
      beyond (f ∷ m) (l, ls) (h, hs) =
          (h (λ same. absurd (cc (l, le_refl k, same))), beyond m ls hs)

  pub remove-Ascending : (k : K) (m : Map K V) → Ascending m → Ascending (remove k m)
  remove-Ascending k [] a = tt
  remove-Ascending k (e ∷ m) (low, a) =
      ground (arith, remove-Ascending k m a, All-remove (λ f. le f.0 e.0 ≡ false) k m low)

  -- A key below all others is not among them.
  pub lookup_below : (k : K) (m : Map K V) → All (λ f. le f.0 k ≡ false) m → lookup k m ≡ none
  lookup_below k [] h = refl
  lookup_below k (e ∷ m) (h, hs) =
      let n : k ≢ e.0 = λ same. absurd (cc (h, le_refl e.0, same)) in
      ground (arith, lookup_below k m hs)

  pub lookup-remove_same : (k : K) (m : Map K V) → Ascending m → lookup k (remove k m) ≡ none
  lookup-remove_same k [] a = refl
  lookup-remove_same k (e ∷ m) (low, a) = elim (Bool-cases (same_key k e.0)) [
    | inl s ↦
        let same : e.0 ≡ k = ground arith in
        rw s (lookup_below k m (subst (λ j. All (λ f. le f.0 j ≡ false) m) same low))
    | inr n ↦ rw (n, n) (lookup-remove_same k m a)
  ]

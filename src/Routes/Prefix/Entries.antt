-- ===== src/Routes/Prefix/Entries.antt =====
-- What a bypass list holds: the entries it was given, each once, in order, each one allowed.
use ket.Common.{
  ◌≡◌, ◌≢◌, ◌≤◌, refl, ap, subst, ◌∙◌, arith, Bool, true, false, ◌||◌, List, [], ◌∷◌, inl, inr,
  Bool-cases, holds, length, any, All, All-mono, Sorted, sort_by, insert_by, sort_by-Sorted,
  IsOrder, ok, Result-cases,
}
use ket.Routes.Prefix.{
  IpPrefix, IpPrefix-discrete, prefix_le, prefix_le_total, prefix_le_trans, prefix_le_antisym,
  check_bypass, dedup, check_all, new_list, max_bypass_entries,
}

prefix_le-IsOrder : IsOrder prefix_le
prefix_le-IsOrder = record { total = prefix_le_total; trans = prefix_le_trans }

-- Each entry is below those after it.
abbrev pub Strict : List IpPrefix → Type 0
Strict [] = Unit
Strict (p ∷ ps) = All (λ q. prefix_le q p ≡ false) ps × Strict ps

-- The entry is one of the list.
abbrev pub listed : IpPrefix → List IpPrefix → Bool
listed p ps = any (λ q. holds (IpPrefix-discrete q p)) ps

listed-insert_by :
    (p q : IpPrefix) (qs : List IpPrefix) → listed p (insert_by prefix_le q qs) ≡ listed p (q ∷ qs)
listed-insert_by p q [] = refl
listed-insert_by p q (r ∷ qs) = ground (arith, listed-insert_by p q qs)

listed-sort_by : (p : IpPrefix) (qs : List IpPrefix) → listed p (sort_by prefix_le qs) ≡ listed p qs
listed-sort_by p [] = refl
listed-sort_by p (q ∷ qs) =
    listed-insert_by p q (sort_by prefix_le qs)
    ∙ ap (λ b. holds (IpPrefix-discrete q p) || b) (listed-sort_by p qs)

listed-dedup : (p : IpPrefix) (qs : List IpPrefix) → listed p (dedup qs) ≡ listed p qs
unfolding dedup
listed-dedup p [] = refl
listed-dedup p (q ∷ []) = refl
listed-dedup p (q ∷ r ∷ qs) = elim (Bool-cases (holds (IpPrefix-discrete q r))) [
  | inl e ↦ let same : q ≡ r = ground arith in rw e (listed-dedup p (r ∷ qs) ∙ ground arith)
  | inr e ↦ rw e (ap (λ b. holds (IpPrefix-discrete q p) || b) (listed-dedup p (r ∷ qs)))
]

All-dedup {κ} : (P : IpPrefix → Type κ) (qs : List IpPrefix) → All P qs → All P (dedup qs)
unfolding dedup
All-dedup P [] h = tt
All-dedup P (q ∷ []) h = h
All-dedup P (q ∷ r ∷ qs) (h, hs) = ground (arith, All-dedup P (r ∷ qs) hs)

prefix_le_refl : (p : IpPrefix) → prefix_le p p ≡ true
prefix_le_refl p = elim (Bool-cases (prefix_le p p)) [ inl e ↦ e | inr e ↦ prefix_le_total p p e ]

below : (p q : IpPrefix) → prefix_le p q ≡ true → p ≢ q → prefix_le q p ≡ false
below p q le n = elim (Bool-cases (prefix_le q p)) [
  | inl e ↦ absurd (n (prefix_le_antisym p q le e))
  | inr e ↦ e
]

below_all :
    (p q r : IpPrefix) → prefix_le q p ≡ false → prefix_le q r ≡ true → prefix_le r p ≡ false
below_all p q r h le = elim (Bool-cases (prefix_le r p)) [
  | inl e ↦ ground (arith, prefix_le_trans q r p le e)
  | inr e ↦ e
]

dedup-Strict : (qs : List IpPrefix) → Sorted prefix_le qs → Strict (dedup qs)
unfolding dedup
dedup-Strict [] s = tt
dedup-Strict (q ∷ []) s = (tt, tt)
dedup-Strict (q ∷ r ∷ qs) ((low, lows), (lower, s)) =
    elim (Bool-cases (holds (IpPrefix-discrete q r))) [
      | inl e ↦ rw e (dedup-Strict (r ∷ qs) (lower, s))
      | inr e ↦
          let first = below q r low (ground arith) in
          rw e (
            All-dedup (λ p. prefix_le p q ≡ false) (r ∷ qs)
                (first, All-mono (λ p h. below_all q r p first h) qs lower),
            dedup-Strict (r ∷ qs) (lower, s),
          )
    ]

sort_by-Strict : (qs : List IpPrefix) → Strict qs → sort_by prefix_le qs ≡ qs
sort_by-Strict [] s = refl
sort_by-Strict (q ∷ []) s = refl
sort_by-Strict (q ∷ r ∷ qs) ((low, lows), s) =
    let first : prefix_le q r ≡ true = prefix_le_total r q low in
    rw (sort_by-Strict (r ∷ qs) s, first) refl

dedup_fix : (qs : List IpPrefix) → Strict qs → dedup qs ≡ qs
unfolding dedup
dedup_fix [] s = refl
dedup_fix (q ∷ []) s = refl
dedup_fix (q ∷ r ∷ qs) ((low, lows), s) = elim (Bool-cases (holds (IpPrefix-discrete q r))) [
  | inl e ↦ let same : q ≡ r = ground arith in absurd (cc (low, prefix_le_refl r, same))
  | inr e ↦ rw e (ap (λ l. q ∷ l) (dedup_fix (r ∷ qs) s))
]

check_all-All : (qs : List IpPrefix) → check_all qs ≡ ok tt → All (λ q. check_bypass q ≡ ok tt) qs
unfolding check_all
check_all-All [] h = tt
check_all-All (q ∷ qs) h = elim (Result-cases (check_bypass q)) [
  | inl (u, e) ↦ (e, check_all-All qs (rw e at h))
  | inr (x, e) ↦ absurd (cc (rw e at h))
]

new_list_ok :
    (entries qs : List IpPrefix)
    → new_list entries ≡ ok qs
    → (length (dedup (sort_by prefix_le entries)) ≤ max_bypass_entries)
      × (check_all (dedup (sort_by prefix_le entries)) ≡ ok tt)
      × (dedup (sort_by prefix_le entries) ≡ qs)
unfolding new_list
new_list_ok entries qs h = elim (Result-cases (check_all (dedup (sort_by prefix_le entries)))) [
  | inl (u, e) ↦ ground arith
  | inr (x, e) ↦ ground arith
]

-- A list that `BypassList::new` accepts is strictly ascending, has at most 64 entries, each of which
-- may be bypassed, and holds exactly the entries that it was given.
pub new_list-entries :
    (entries qs : List IpPrefix)
    → new_list entries ≡ ok qs
    → Strict qs
      × (length qs ≤ max_bypass_entries)
      × All (λ q. check_bypass q ≡ ok tt) qs
      × ((p : IpPrefix) → listed p qs ≡ listed p entries)
unfolding new_list
new_list-entries entries qs h =
    let sorted = dedup (sort_by prefix_le entries) in
    let made = new_list_ok entries qs h in
    subst
      (λ l.
        Strict l
        × (length l ≤ max_bypass_entries)
        × All (λ q. check_bypass q ≡ ok tt) l
        × ((p : IpPrefix) → listed p l ≡ listed p entries))
      made.2
      (
        dedup-Strict (sort_by prefix_le entries)
            (sort_by-Sorted prefix_le prefix_le-IsOrder entries),
        made.0,
        check_all-All sorted made.1,
        λ p. listed-dedup p (sort_by prefix_le entries) ∙ listed-sort_by p entries,
      )

-- A list that was accepted is accepted again as it is.
pub new_list_again : (entries qs : List IpPrefix) → new_list entries ≡ ok qs → new_list qs ≡ ok qs
unfolding new_list
new_list_again entries qs h =
    let (strict, few, each, same) = new_list-entries entries qs h in
    let made = new_list_ok entries qs h in
    let checked = subst (λ l. check_all l ≡ ok tt) made.2 made.1 in
    rw (sort_by-Strict qs strict, dedup_fix qs strict, checked) (ground arith)

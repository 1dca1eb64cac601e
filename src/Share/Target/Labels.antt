-- ===== src/Share/Target/Labels.antt =====
-- The labels of a name, and the check of them in crates/ket-share/src/target.rs.
use mathlib.Core.List.{reverse_aux}
use ket.Common.{
  ℕ, ◌≤◌, ◌==◌, true, false, ◌||◌, inl, inr, ◌⊎◌, List, [], ◌∷◌, ◌++◌, Bool, Bool-cases, Text, all,
  All, length, map, ◌≡◌, ◌≢◌, arith, ap, refl,
}
use ket.Common.Chars.{is_ascii_digit, is_ascii_alphanumeric, utf8_len}
use ket.Update.Header.{split, starts_with}
use ket.Share.Target.{valid_label, lower, ends_with}

-- Labels joined by dots.
abbrev pub join : List Text → Text
join [] = []
join (l ∷ []) = l
join (l ∷ m ∷ ms) = l ++ b'.' ∷ join (m ∷ ms)

-- A lowercase ASCII letter, a digit, a dash or an underscore.
abbrev pub NameChar : ℕ → Type 0
NameChar c = ((b'a' ≤ c) × (c ≤ b'z')) ⊎ (((b'0' ≤ c) × (c ≤ b'9')) ⊎ ((c ≡ b'-') ⊎ (c ≡ b'_')))

-- 1 to 63 such characters, with no dash at either end.
pub record Label (l : Text) : Type 0 where
  pub least : 1 ≤ length l
  pub most : length l ≤ 63
  pub chars : All NameChar l
  pub first : (t : Text) → l ≢ b'-' ∷ t
  pub last : (t : Text) → l ≢ t ++ b'-' ∷ []

pub length-utf8_len : (t : Text) → length t ≤ utf8_len t
unfolding utf8_len
length-utf8_len [] = omega arith
length-utf8_len (c ∷ t) = ground (arith, length-utf8_len t)

join-cons : (c : ℕ) (l : Text) (ls : List Text) → join ((c ∷ l) ∷ ls) ≡ c ∷ join (l ∷ ls)
join-cons c l [] = refl
join-cons c l (m ∷ ms) = refl

pub nonempty : (t : Text) → (part : Text) × ((parts : List Text) × (split b'.' t ≡ part ∷ parts))
unfolding split
nonempty [] = ([], ([], refl))
nonempty (c ∷ t) =
    let (part, (parts, e)) = nonempty t in
    elim (Bool-cases (c == b'.')) [
      | inl g ↦ ([], (part ∷ parts, rw (split, e, g) refl))
      | inr g ↦ (c ∷ part, (parts, rw (split, e, g) refl))
    ]

split-cons :
    (c : ℕ) (t part : Text) (parts : List Text)
    → split b'.' t ≡ part ∷ parts
    → ((c ≡ b'.') × (split b'.' (c ∷ t) ≡ [] ∷ part ∷ parts))
      ⊎ (split b'.' (c ∷ t) ≡ (c ∷ part) ∷ parts)
unfolding split
split-cons c t part parts e = elim (Bool-cases (c == b'.')) [
  | inl g ↦ inl (ground arith, rw (split, e, g) refl)
  | inr g ↦ inr (rw (split, e, g) refl)
]

-- A text is its parts joined again.
pub join-split : (t : Text) → join (split b'.' t) ≡ t
unfolding split
join-split [] = refl
join-split (c ∷ t) =
    let (part, (parts, e)) = nonempty t in
    let again = join-split t in
    elim (split-cons c t part parts e) [
      | inl (dot, f) ↦ rw (f, dot) (ap (λ r. b'.' ∷ r) (rw e at again))
      | inr f ↦ rw (f, join-cons c part parts) (ap (λ r. c ∷ r) (rw e at again))
    ]

pub All-map : (P : ℕ → Type 0) → ((c : ℕ) → P (lower c)) → (t : Text) → All P (map lower t)
All-map P h [] = tt
All-map P h (c ∷ t) = (h c, All-map P h t)

pub All-split : (P : ℕ → Type 0) (t : Text) → All P t → All (All P) (split b'.' t)
unfolding split
All-split P [] h = (tt, tt)
All-split P (c ∷ t) (p, h) =
    let (part, (parts, e)) = nonempty t in
    let all_parts = All-split P t h in
    let (q, qs) : All P part × All (All P) parts = rw e at all_parts in
    elim (split-cons c t part parts e) [
      | inl (dot, f) ↦ rw f (tt, (q, qs))
      | inr f ↦ rw f ((p, q), qs)
    ]

pub lower-Lower : (c : ℕ) → ¬ ((b'A' ≤ lower c) × (lower c ≤ b'Z'))
lower-Lower c = ground arith

abbrev name_byte : ℕ → Bool
name_byte byte = is_ascii_alphanumeric byte || byte == b'-' || byte == b'_'

valid_label-NameChar :
    (l : Text) → all name_byte l ≡ true → All (λ c. ¬ ((b'A' ≤ c) × (c ≤ b'Z'))) l → All NameChar l
unfolding is_ascii_alphanumeric is_ascii_digit
valid_label-NameChar [] e h = tt
valid_label-NameChar (c ∷ l) e (p, h) = (ground arith, valid_label-NameChar l (ground arith) h)

reverse_aux-snoc : (t acc : Text) (c : ℕ) → reverse_aux (t ++ c ∷ []) acc ≡ c ∷ reverse_aux t acc
reverse_aux-snoc [] acc c = refl
reverse_aux-snoc (d ∷ t) acc c = reverse_aux-snoc t (d ∷ acc) c

ends_with-dash : (t : Text) → ends_with b'-' (t ++ b'-' ∷ []) ≡ true
ends_with-dash t = rw (reverse_aux-snoc t [] b'-') refl

valid_label-ends :
    (l : Text)
    → valid_label l ≡ true
    → (1 ≤ length l)
      × (utf8_len l ≤ 63)
      × (starts_with b'-' l ≡ false)
      × (ends_with b'-' l ≡ false)
      × (all name_byte l ≡ true)
unfolding valid_label
valid_label-ends [] e = absurd (ground arith)
valid_label-ends (c ∷ l) e = ground arith

valid_label-Label :
    (l : Text) → valid_label l ≡ true → All (λ c. ¬ ((b'A' ≤ c) × (c ≤ b'Z'))) l → Label l
valid_label-Label l e h =
    let (least, short, starts, ends, chars) = valid_label-ends l e in
    record {
      least = least;
      most = omega (arith, length-utf8_len l);
      chars = valid_label-NameChar l chars h;
      first = λ t same. absurd (cc (starts, ap (starts_with b'-') same));
      last = λ t same. absurd (cc (ends, ap (ends_with b'-') same, ends_with-dash t));
    }

pub valid_labels-Label :
    (ls : List Text)
    → all valid_label ls ≡ true
    → All (All (λ c. ¬ ((b'A' ≤ c) × (c ≤ b'Z')))) ls
    → All Label ls
valid_labels-Label [] e h = tt
valid_labels-Label (l ∷ ls) e (p, h) =
    (valid_label-Label l (ground arith) p, valid_labels-Label ls (ground arith) h)

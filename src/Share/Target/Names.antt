-- ===== src/Share/Target/Names.antt =====
-- The names that `Host::parse` of crates/ket-share/src/target.rs returns.
use ket.Common.{
  ℕ, ◌≤◌, true, false, List, [], ◌∷◌, ◌++◌, Option, none, some, Text, all, any, All, length,
  same_text, ok, map, ◌≡◌, ◌≢◌, arith, ◌∙◌, ap, refl, sym, subst,
}
use ket.Common.Chars.{is_ascii_digit, utf8_len}
use ket.Net.{IpAddr}
use ket.Update.Header.{split}
use ket.Share.Target.{
  name, valid_label, local_names, last_label, lower, without_root, bracketed, single, of_inner,
  of_ipv6, of_address, parse_name, parse_host,
}
use ket.Share.Target.Labels.{
  join, Label, nonempty, valid_labels-Label, length-utf8_len, join-split, All-map, All-split,
  lower-Lower,
}

-- The top labels of names that mean something on the device or on its own network only.
abbrev pub own_network : List Text
own_network =
    (b'a' ∷ b'r' ∷ b'p' ∷ b'a' ∷ [])
    ∷ (b'h' ∷ b'o' ∷ b'm' ∷ b'e' ∷ [])
    ∷ (b'i' ∷ b'n' ∷ b't' ∷ b'e' ∷ b'r' ∷ b'n' ∷ b'a' ∷ b'l' ∷ [])
    ∷ (b'l' ∷ b'a' ∷ b'n' ∷ [])
    ∷ (b'l' ∷ b'o' ∷ b'c' ∷ b'a' ∷ b'l' ∷ [])
    ∷ (b'l' ∷ b'o' ∷ b'c' ∷ b'a' ∷ b'l' ∷ b'h' ∷ b'o' ∷ b's' ∷ b't' ∷ [])
    ∷ []

-- A name of the public Internet: labels below a top label, joined by dots, 253 characters at most.
-- The top label is neither a name of the device's own network nor a number.
pub record PublicName (n : Text) : Type 0 where
  pub below : List Text
  pub top : Text
  pub joined : n ≡ join (below ++ top ∷ [])
  pub some_below : 1 ≤ length below
  pub most : length n ≤ 253
  pub labels : All Label (below ++ top ∷ [])
  pub not_own : All (λ own. top ≢ own) own_network
  pub not_number : ¬ All (λ c. (b'0' ≤ c) × (c ≤ b'9')) top

below_of : List Text → List Text
below_of [] = []
below_of (l ∷ []) = []
below_of (l ∷ m ∷ ms) = l ∷ below_of (m ∷ ms)

below_of-last_label : (ls : List Text) → 1 ≤ length ls → ls ≡ below_of ls ++ last_label ls ∷ []
unfolding below_of
below_of-last_label [] h = absurd (omega arith)
below_of-last_label (l ∷ []) h = refl
below_of-last_label (l ∷ m ∷ ms) h = ap (λ r. l ∷ r) (below_of-last_label (m ∷ ms) (omega arith))

below_of-single : (ls : List Text) → 1 ≤ length ls → single ls ≡ false → 1 ≤ length (below_of ls)
unfolding below_of
below_of-single [] h e = absurd (omega arith)
below_of-single (l ∷ []) h e = absurd (cc)
below_of-single (l ∷ m ∷ ms) h e = omega arith

length-split : (t : Text) → 1 ≤ length (split b'.' t)
length-split t = let (part, (parts, e)) = nonempty t in rw e (omega arith)

none_same : (t : Text) (ls : List Text) → any (same_text t) ls ≡ false → All (λ own. t ≢ own) ls
none_same t [] e = tt
none_same t (l ∷ ls) e = ((λ same. absurd (ground arith)), none_same t ls (ground arith))

local_names-own_network :
    (t : Text) → any (same_text t) local_names ≡ false → All (λ own. t ≢ own) own_network
local_names-own_network t e =
    let (localhost, (local, (internal, (lan, (home, (arpa, _)))))) = none_same t local_names e in
    (arpa, (home, (internal, (lan, (local, (localhost, tt))))))

digits-number : (t : Text) → All (λ c. (b'0' ≤ c) × (c ≤ b'9')) t → all is_ascii_digit t ≡ true
unfolding is_ascii_digit
digits-number [] h = refl
digits-number (c ∷ t) (p, h) = ground (arith, digits-number t h)

-- The checks that a name has passed.
parse_name-checks :
    (n m : Text)
    → parse_name n ≡ ok (name m)
    → (m ≡ n)
      × (utf8_len n ≤ 253)
      × (all valid_label (split b'.' n) ≡ true)
      × (single (split b'.' n) ≡ false)
      × (any (same_text (last_label (split b'.' n))) local_names ≡ false)
      × (all is_ascii_digit (last_label (split b'.' n)) ≡ false)
unfolding parse_name
parse_name-checks n m e = ground arith

-- A name that parses parses again, to itself.
pub parse_name-again : (n m : Text) → parse_name n ≡ ok (name m) → parse_name m ≡ ok (name m)
parse_name-again n m e = ap parse_name ((parse_name-checks n m e).0) ∙ e

-- A lowercase name that parses is a name of the public Internet, and it is kept as it is.
pub parse_name-PublicName :
    (n m : Text)
    → All (λ c. ¬ ((b'A' ≤ c) × (c ≤ b'Z'))) n
    → parse_name n ≡ ok (name m)
    → (m ≡ n) × PublicName n
parse_name-PublicName n m lowercase e =
    let (same, short, valid, several, not_local, not_digits) = parse_name-checks n m e in
    let labels = split b'.' n in
    let apart = below_of-last_label labels (length-split n) in
    (
      same,
      record {
        below = below_of labels;
        top = last_label labels;
        joined = sym (join-split n) ∙ ap join apart;
        some_below = below_of-single labels (length-split n) several;
        most = omega (arith, length-utf8_len n);
        labels = subst (All Label) apart (
            valid_labels-Label labels valid
              (All-split (λ c. ¬ ((b'A' ≤ c) × (c ≤ b'Z'))) n lowercase));
        not_own = local_names-own_network (last_label labels) not_local;
        not_number = λ h. absurd (cc (digits-number (last_label labels) h, not_digits));
      },
    )

of_address-PublicName :
    (a : Option IpAddr) (text n : Text)
    → of_address a text ≡ ok (name n)
    → (n ≡ map lower (without_root text)) × PublicName n
of_address-PublicName (some a) text n e = absurd (ground arith)
of_address-PublicName none text n e =
    let written = map lower (without_root text) in
    let lowercase = All-map (λ c. ¬ ((b'A' ≤ c) × (c ≤ b'Z'))) lower-Lower (without_root text) in
    let (same, public) = parse_name-PublicName written n lowercase e in
    (same, subst PublicName (sym same) public)

of_ipv6-PublicName :
    (a : Option ℕ) (text n : Text)
    → of_ipv6 a ≡ ok (name n)
    → (n ≡ map lower (without_root text)) × PublicName n
of_ipv6-PublicName none text n e = absurd (ground arith)
of_ipv6-PublicName (some a) text n e = absurd (ground arith)

of_inner-PublicName :
    (parse_ipv6 : Text → Option ℕ) (inner : Option Text) (a : Option IpAddr) (text n : Text)
    → of_inner parse_ipv6 inner (of_address a text) ≡ ok (name n)
    → (n ≡ map lower (without_root text)) × PublicName n
of_inner-PublicName parse_ipv6 none a text n e = of_address-PublicName a text n e
of_inner-PublicName parse_ipv6 (some inner) a text n e =
    of_ipv6-PublicName (parse_ipv6 inner) text n e

-- The name that a text parses to is a name of the public Internet, in lowercase: two labels at least
-- of letters, digits, dashes and underscores, joined by dots, with a top label that is no number and no
-- name of the device's own network.
pub parse_host-PublicName :
    (parse_ip : Text → Option IpAddr) (parse_ipv6 : Text → Option ℕ) (text n : Text)
    → parse_host parse_ip parse_ipv6 text ≡ ok (name n)
    → (n ≡ map lower (without_root text)) × PublicName n
unfolding parse_host
parse_host-PublicName parse_ip parse_ipv6 text n e =
    of_inner-PublicName parse_ipv6 (bracketed text) (parse_ip text) text n e

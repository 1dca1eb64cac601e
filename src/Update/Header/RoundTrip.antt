-- ===== src/Update/Header/RoundTrip.antt =====
-- What an app sends in the header, the server reads back.
use ket.Common.{
  Text-discrete, ℕ, zero, suc, ◌+◌, ◌-◌, ◌*◌, ◌/◌, ◌%◌, ◌^◌, ◌≤◌, ◌<◌, ◌≡◌, refl, ◌∙◌, arith, Bool,
  true, false, List, [], ◌∷◌, ◌++◌, some, Text, inl, inr, Bool-cases, ltb, all, length,
  length-append, is_empty, ok,
}
use ket.Common.Chars.{is_ascii_digit, utf8_len, print_digits, print_u32}
use ket.Update.Release.{Version, ClientPlatform, android, linux, macos, windows}
use ket.Update.Header.{
  split, split_once, read_digits, starts_with, parse_part, parse_version, print_version, as_str,
  parse_platform, parse_identity, from_header, header_value,
}

-- The number has that many digits at most.
abbrev pub Fits : ℕ → ℕ → Type 0
Fits zero n = n ≡ 0
Fits (suc k) n = Fits k (n / 10)

read_digits-snoc :
    (a : ℕ) (t : Text) (c : ℕ) → read_digits a (t ++ c ∷ []) ≡ read_digits a t * 10 + (c - b'0')
unfolding read_digits
read_digits-snoc a [] c = refl
read_digits-snoc a (d ∷ t) c = read_digits-snoc (a * 10 + (d - b'0')) t c

read_digits-print_digits : (fuel n : ℕ) → Fits fuel n → read_digits 0 (print_digits fuel n) ≡ n
unfolding read_digits print_digits
read_digits-print_digits zero n fits = omega arith
read_digits-print_digits (suc fuel) n fits = elim (Bool-cases (ltb n 10)) [
  | inl e ↦ rw e (ground arith)
  | inr e ↦
      let rest = read_digits-print_digits fuel (n / 10) fits in
      let last = read_digits-snoc 0 (print_digits fuel (n / 10)) (b'0' + n % 10) in
      rw e (last ∙ ground arith)
]

print_digits-length : (k fuel n : ℕ) → Fits (suc k) n → length (print_digits fuel n) ≤ suc k
unfolding print_digits
print_digits-length k zero n fits = omega arith
print_digits-length zero (suc fuel) n fits = ground arith
print_digits-length (suc k) (suc fuel) n fits = elim (Bool-cases (ltb n 10)) [
  | inl e ↦ rw e (omega arith)
  | inr e ↦ rw e (
      omega (
        arith,
        length-append (print_digits fuel (n / 10)) ((b'0' + n % 10) ∷ []),
        print_digits-length k fuel (n / 10) fits,
      ))
]

all-append : (p : ℕ → Bool) (t u : Text) → all p t ≡ true → all p u ≡ true → all p (t ++ u) ≡ true
all-append p [] u h k = k
all-append p (c ∷ t) u h k = ground (arith, all-append p t u)

print_digits-is_ascii_digit : (fuel n : ℕ) → all is_ascii_digit (print_digits fuel n) ≡ true
unfolding print_digits is_ascii_digit
print_digits-is_ascii_digit zero n = refl
print_digits-is_ascii_digit (suc fuel) n = elim (Bool-cases (ltb n 10)) [
  | inl e ↦ rw e (ground arith)
  | inr e ↦ rw e (
      all-append is_ascii_digit (print_digits fuel (n / 10)) ((b'0' + n % 10) ∷ [])
        (print_digits-is_ascii_digit fuel (n / 10)) (ground arith))
]

starts_with-append :
    (c : ℕ) (t u : Text)
    → is_empty t ≡ false
    → starts_with c t ≡ false
    → (is_empty (t ++ u) ≡ false) × (starts_with c (t ++ u) ≡ false)
starts_with-append c [] u h k = absurd (cc)
starts_with-append c (d ∷ t) u h k = (refl, k)

print_digits-starts_with :
    (fuel n : ℕ)
    → Fits fuel n
    → 1 ≤ n
    → (is_empty (print_digits fuel n) ≡ false) × (starts_with b'0' (print_digits fuel n) ≡ false)
unfolding print_digits
print_digits-starts_with zero n fits one = absurd (omega arith)
print_digits-starts_with (suc fuel) n fits one = elim (Bool-cases (ltb n 10)) [
  | inl e ↦ rw e (ground arith)
  | inr e ↦
      let (a, b) = print_digits-starts_with fuel (n / 10) fits (ground arith) in
      rw e (starts_with-append b'0' (print_digits fuel (n / 10)) ((b'0' + n % 10) ∷ []) a b)
]

utf8_len-digits : (t : Text) → all is_ascii_digit t ≡ true → utf8_len t ≡ length t
unfolding utf8_len is_ascii_digit
utf8_len-digits [] h = refl
utf8_len-digits (c ∷ t) h = ground (arith, utf8_len-digits t)

accepts :
    (part : Text) (n : ℕ)
    → is_empty part ≡ false
    → starts_with b'0' part ≡ false
    → all is_ascii_digit part ≡ true
    → length part ≤ 9
    → read_digits 0 part ≡ n
    → n < 10 ^ 9
    → parse_part part ≡ some n
unfolding parse_part
accepts part n some_digit leads digits few back small =
    let bytes = utf8_len-digits part digits in
    rw (parse_part, some_digit, leads, digits, bytes, back) (ground arith)

-- A number of nine digits at most is read back.
parse_part-print_u32 : (n : ℕ) → n < 10 ^ 9 → parse_part (print_u32 n) ≡ some n
unfolding parse_part print_digits utf8_len is_ascii_digit read_digits
parse_part-print_u32 zero small = refl
parse_part-print_u32 (suc n) small =
    let (a, b) = print_digits-starts_with 10 (suc n) (omega arith) (omega arith) in
    accepts (print_u32 (suc n)) (suc n) a b (print_digits-is_ascii_digit 10 (suc n))
      (print_digits-length 8 10 (suc n) (omega arith))
      (read_digits-print_digits 10 (suc n) (omega arith)) small

-- A character that no digit is.
abbrev Apart : ℕ → Type 0
Apart c = is_ascii_digit c ≡ false

split-digits : (sep : ℕ) (t : Text) → Apart sep → all is_ascii_digit t ≡ true → split sep t ≡ t ∷ []
unfolding split is_ascii_digit
split-digits sep [] apart h = refl
split-digits sep (c ∷ t) apart h =
    rw (split, split-digits sep t apart (ground arith)) (ground arith)

split-append :
    (sep : ℕ) (t rest : Text) (part : Text) (parts : List Text)
    → Apart sep
    → all is_ascii_digit t ≡ true
    → split sep rest ≡ part ∷ parts
    → split sep (t ++ sep ∷ rest) ≡ t ∷ part ∷ parts
unfolding split is_ascii_digit
split-append sep [] rest part parts apart h e = rw (split, e) (ground arith)
split-append sep (c ∷ t) rest part parts apart h e =
    rw (split, split-append sep t rest part parts apart (ground arith) e) (ground arith)

-- The numbers of a version have nine digits at most.
abbrev pub Short : Version → Type 0
Short v = (v.major < 10 ^ 9) × (v.minor < 10 ^ 9) × (v.patch < 10 ^ 9)

-- A version whose numbers have nine digits at most is read back as it is printed.
pub parse_version-print_version : (v : Version) → Short v → parse_version (print_version v) ≡ ok v
unfolding parse_version print_version is_ascii_digit
parse_version-print_version v (a, b, c) =
    let da = print_digits-is_ascii_digit 10 v.major in
    let db = print_digits-is_ascii_digit 10 v.minor in
    let dc = print_digits-is_ascii_digit 10 v.patch in
    let last = split-digits b'.' (print_u32 v.patch) refl dc in
    let middle =
      split-append b'.' (print_u32 v.minor) (print_u32 v.patch) (print_u32 v.patch) [] refl db
        last in
    let whole =
      split-append b'.' (print_u32 v.major) (print_u32 v.minor ++ b'.' ∷ print_u32 v.patch)
        (print_u32 v.minor) (print_u32 v.patch ∷ []) refl da middle in
    rw
      (
        parse_version,
        whole,
        parse_part-print_u32 v.major a,
        parse_part-print_u32 v.minor b,
        parse_part-print_u32 v.patch c,
      )
      refl

utf8_len-append : (t u : Text) → utf8_len (t ++ u) ≡ utf8_len t + utf8_len u
unfolding utf8_len
utf8_len-append [] u = omega arith
utf8_len-append (c ∷ t) u = omega (arith, utf8_len-append t u)

print_u32-utf8_len : (n : ℕ) → n < 10 ^ 9 → utf8_len (print_u32 n) ≤ 9
print_u32-utf8_len n small = omega (
  arith,
  utf8_len-digits (print_u32 n) (print_digits-is_ascii_digit 10 n),
  print_digits-length 8 10 n (omega arith),
)

utf8_len-dot : (c : ℕ) (t : Text) → c < 0x80 → utf8_len (c ∷ t) ≡ 1 + utf8_len t
unfolding utf8_len
utf8_len-dot c t h = ground arith

print_version-utf8_len : (v : Version) → Short v → utf8_len (print_version v) ≤ 29
unfolding print_version
print_version-utf8_len v (a, b, c) =
    let tail = print_u32 v.minor ++ b'.' ∷ print_u32 v.patch in
    omega (
      arith,
      utf8_len-append (print_u32 v.major) (b'.' ∷ tail),
      utf8_len-dot b'.' tail (omega arith),
      utf8_len-append (print_u32 v.minor) (b'.' ∷ print_u32 v.patch),
      utf8_len-dot b'.' (print_u32 v.patch) (omega arith),
      print_u32-utf8_len v.major a,
      print_u32-utf8_len v.minor b,
      print_u32-utf8_len v.patch c,
    )

as_str-parse :
    (p : ClientPlatform) (t : Text)
    → (parse_platform (as_str p) ≡ ok p)
      × (split_once b'/' (as_str p ++ b'/' ∷ t) ≡ some (as_str p, t))
      × (utf8_len (as_str p) ≤ 7)
unfolding parse_platform as_str split_once utf8_len Text-discrete
as_str-parse android t = (refl, refl, omega arith)
as_str-parse linux t = (refl, refl, omega arith)
as_str-parse macos t = (refl, refl, omega arith)
as_str-parse windows t = (refl, refl, omega arith)

not_above : (n : ℕ) → n ≤ 64 → ltb 64 n ≡ false
not_above n h = ground arith

-- The server reads from the header the platform and the version of the app that sent it, where the
-- version's numbers have nine digits at most.
pub from_header-header_value :
    (p : ClientPlatform) (v : Version)
    → Short v
    → from_header (header_value (record { platform = some p; version = v }))
      ≡ record { platform = some p; version = v }
unfolding from_header header_value parse_identity
from_header-header_value p v short =
    let (platform, parts, few) = as_str-parse p (print_version v) in
    let whole = utf8_len-append (as_str p) (b'/' ∷ print_version v) in
    let slash = utf8_len-dot b'/' (print_version v) (omega arith) in
    let version = print_version-utf8_len v short in
    let fits : ltb 64 (utf8_len (as_str p ++ b'/' ∷ print_version v)) ≡ false =
      not_above (utf8_len (as_str p ++ b'/' ∷ print_version v)) (omega arith) in
    rw (from_header, parse_identity, fits, parts, platform, parse_version-print_version v short)
      refl

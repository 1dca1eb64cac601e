-- ===== src/Share/Target.antt =====
-- Where a nearby device asks to go: target.rs of crates/ket-share/src. The parsers of addresses are
-- those of `std::net`, as parameters.
pub mod Labels
pub mod Names
use ket.Common.{
  ℕ, zero, suc, Bool, true, false, not, ◌&&◌, ◌||◌, List, [], ◌∷◌, ◌+◌, Option, none, some, Text,
  Text-discrete, ltb, leb, ◌==◌, if◌then◌else◌, all, any, map, is_empty, same_text, reverse, Result,
  ok, err, ◌>>=◌, ok_or,
}
use ket.Common.Chars.{is_ascii_digit, is_ascii_alphanumeric, utf8_len}
use ket.Net.{IpAddr, v6}
use ket.Update.Header.{split, starts_with}

abbrev pub max_name_length : ℕ
max_name_length = 253

abbrev pub max_label_length : ℕ
max_label_length = 63

pub data Host : Type 0 where
  name : Text → Host
  address : IpAddr → Host

pub data TargetError : Type 0 where
  invalid : TargetError
  local_name : TargetError

-- `str::to_ascii_lowercase`
abbrev pub lower : ℕ → ℕ
lower c = if leb b'A' c && leb c b'Z' then c + 32 else c

abbrev pub ends_with : ℕ → Text → Bool
ends_with c t = starts_with c (reverse t)

-- `strip_prefix('[')` and `strip_suffix(']')`
abbrev strip_prefix : ℕ → Text → Option Text
strip_prefix c [] = none
strip_prefix c (d ∷ t) = if d == c then some t else none

abbrev strip_suffix : ℕ → Text → Option Text
strip_suffix c t = (elim (strip_prefix c (reverse t)) [
  | none ↦ none
  | some rest ↦ some (reverse rest)
])

abbrev pub bracketed : Text → Option Text
bracketed text = (elim (strip_prefix b'[' text) [
  | none ↦ none
  | some rest ↦ strip_suffix b']' rest
])

abbrev pub without_root : Text → Text
without_root text = (elim (strip_suffix b'.' text) [ none ↦ text | some rest ↦ rest ])

-- `valid_label`
unfoldable pub valid_label : Text → Bool
unfolding utf8_len is_ascii_alphanumeric
valid_label label =
    not (is_empty label)
    && leb (utf8_len label) max_label_length
    && not (starts_with b'-' label)
    && not (ends_with b'-' label)
    && all (λ byte. is_ascii_alphanumeric byte || byte == b'-' || byte == b'_') label

abbrev pub local_names : List Text
local_names =
    (b'l' ∷ b'o' ∷ b'c' ∷ b'a' ∷ b'l' ∷ b'h' ∷ b'o' ∷ b's' ∷ b't' ∷ [])
    ∷ (b'l' ∷ b'o' ∷ b'c' ∷ b'a' ∷ b'l' ∷ [])
    ∷ (b'i' ∷ b'n' ∷ b't' ∷ b'e' ∷ b'r' ∷ b'n' ∷ b'a' ∷ b'l' ∷ [])
    ∷ (b'l' ∷ b'a' ∷ b'n' ∷ [])
    ∷ (b'h' ∷ b'o' ∷ b'm' ∷ b'e' ∷ [])
    ∷ (b'a' ∷ b'r' ∷ b'p' ∷ b'a' ∷ [])
    ∷ []

-- `labels[labels.len() - 1]`
abbrev pub last_label : List Text → Text
last_label [] = []
last_label (label ∷ []) = label
last_label (_ ∷ label ∷ labels) = last_label (label ∷ labels)

abbrev pub single : List Text → Bool
single (_ ∷ []) = true
single _ = false

-- `Host::parse`, from the lowercase name on
unfoldable pub parse_name : Text → Result TargetError Host
unfolding utf8_len split valid_label is_ascii_digit Text-discrete
parse_name n =
    let labels = split b'.' n in
    if is_empty n || ltb max_name_length (utf8_len n)
    then err invalid
    else if not (all valid_label labels)
    then err invalid
    else if single labels || any (same_text (last_label labels)) local_names
    then err local_name
    else if all is_ascii_digit (last_label labels)
    then err invalid
    else ok (name n)

abbrev pub of_address : Option IpAddr → Text → Result TargetError Host
of_address (some a) text = ok (address a)
of_address none text = parse_name (map lower (without_root text))

abbrev pub of_ipv6 : Option ℕ → Result TargetError Host
of_ipv6 none = err invalid
of_ipv6 (some a) = ok (address (v6 a))

abbrev pub of_inner :
    (Text → Option ℕ) → Option Text → Result TargetError Host → Result TargetError Host
of_inner parse_ipv6 (some inner) rest = of_ipv6 (parse_ipv6 inner)
of_inner parse_ipv6 none rest = rest

-- `Host::parse`
unfoldable pub parse_host :
    (Text → Option IpAddr) → (Text → Option ℕ) → Text → Result TargetError Host
unfolding parse_name
parse_host parse_ip parse_ipv6 text =
    of_inner parse_ipv6 (bracketed text) (of_address (parse_ip text) text)

-- ===== src/Update/Header.antt =====
-- The texts of versions and of the `Ket-Client` header: version.rs and identity.rs of
-- crates/ket-update/src.
pub mod RoundTrip
use ket.Common.{
  ℕ, zero, suc, ◌+◌, ◌-◌, ◌*◌, ◌/◌, ◌%◌, ◌^◌, Bool, true, false, not, ◌&&◌, ◌||◌, List, [], ◌∷◌,
  ◌++◌, Option, none, some, Text, Text-discrete, ltb, leb, ◌==◌, if◌then◌else◌, all, take, length,
  is_empty, same_text, Result, ok, err, ◌>>=◌, ok_or,
}
use ket.Common.Chars.{is_ascii_digit, utf8_len, print_digits, print_u32}
use ket.Update.Release.{Version, ClientPlatform, android, linux, macos, windows, ClientIdentity}

pub data UpdateError : Type 0 where
  invalid_version : Text → UpdateError
  invalid_client_header : UpdateError
  invalid_manifest : Text → UpdateError
  invalid_policy : Text → UpdateError

-- `str::split` at a character: the parts, one at least.
unfoldable pub split : ℕ → Text → List Text
split sep [] = [] ∷ []
split sep (c ∷ t) = elim (split sep t) [
  | [] ↦ [] ∷ []
  | part ∷ parts ↦ if c == sep then [] ∷ part ∷ parts else (c ∷ part) ∷ parts
]

-- `str::split_once` at a character.
unfoldable pub split_once : ℕ → Text → Option (Text × Text)
split_once sep [] = none
split_once sep (c ∷ t) =
    if c == sep
    then some ([], t)
    else (elim (split_once sep t) [ none ↦ none | some (a, b) ↦ some (c ∷ a, b) ])

-- The number that digits write, after those read.
unfoldable pub read_digits : ℕ → Text → ℕ
read_digits n [] = n
read_digits n (c ∷ t) = read_digits (n * 10 + (c - b'0')) t

abbrev pub starts_with : ℕ → Text → Bool
starts_with c [] = false
starts_with c (d ∷ t) = d == c

-- The closure `next` of `from_str`, of a part; nine digits fit in a `u32`.
unfoldable pub parse_part : Text → Option ℕ
unfolding utf8_len is_ascii_digit read_digits
parse_part part =
    if is_empty part
      || ltb 9 (utf8_len part)
      || not (all is_ascii_digit part)
      || (ltb 1 (utf8_len part) && starts_with b'0' part)
    then none
    else (if ltb (read_digits 0 part) (2 ^ 32) then some (read_digits 0 part) else none)

abbrev version_of : Option ℕ → Option ℕ → Option ℕ → Option Version
version_of (some major) (some minor) (some patch) =
    some (record { major = major; minor = minor; patch = patch })
version_of _ _ _ = none

abbrev pub three_parts : List Text → Option Version
three_parts (a ∷ b ∷ c ∷ []) = version_of (parse_part a) (parse_part b) (parse_part c)
three_parts _ = none

-- `Version::from_str`
unfoldable pub parse_version : Text → Result UpdateError Version
unfolding split parse_part
parse_version value = ok_or (three_parts (split b'.' value)) (invalid_version (take 32 value))

-- `Display` of `Version`
unfoldable pub print_version : Version → Text
unfolding print_digits
print_version v = print_u32 v.major ++ b'.' ∷ (print_u32 v.minor ++ b'.' ∷ print_u32 v.patch)

-- `ClientPlatform::as_str`
unfoldable pub as_str : ClientPlatform → Text
as_str android = b'a' ∷ b'n' ∷ b'd' ∷ b'r' ∷ b'o' ∷ b'i' ∷ b'd' ∷ []
as_str linux = b'l' ∷ b'i' ∷ b'n' ∷ b'u' ∷ b'x' ∷ []
as_str macos = b'm' ∷ b'a' ∷ b'c' ∷ b'o' ∷ b's' ∷ []
as_str windows = b'w' ∷ b'i' ∷ b'n' ∷ b'd' ∷ b'o' ∷ b'w' ∷ b's' ∷ []

-- `ClientPlatform::from_str`
unfoldable pub parse_platform : Text → Result UpdateError ClientPlatform
unfolding as_str Text-discrete
parse_platform value =
    if same_text value (as_str android)
    then ok android
    else (if same_text value (as_str linux)
        then ok linux
        else (if same_text value (as_str macos)
            then ok macos
            else (if same_text value (as_str windows)
                then ok windows
                else err invalid_client_header)))

abbrev pub max_header_length : ℕ
max_header_length = 64

-- `map_err` to the header's error.
abbrev pub as_header_error : Result UpdateError Version → Result UpdateError Version
as_header_error (ok v) = ok v
as_header_error (err e) = err invalid_client_header

-- `ClientIdentity::parse`
unfoldable pub parse_identity : Text → Result UpdateError ClientIdentity
unfolding utf8_len split_once parse_platform parse_version
parse_identity value =
    if ltb max_header_length (utf8_len value) then err invalid_client_header else (do
      (platform_text, version_text) ← ok_or (split_once b'/' value) invalid_client_header
      platform ← parse_platform platform_text
      version ← as_header_error (parse_version version_text)
      ok (record { platform = some platform; version = version }))

-- `ClientIdentity::legacy`, of `LEGACY_CLIENT_VERSION`
abbrev pub legacy : ClientIdentity
legacy = record { platform = none; version = record { major = 1; minor = 0; patch = 1 } }

abbrev or_legacy : Result UpdateError ClientIdentity → ClientIdentity
or_legacy (ok identity) = identity
or_legacy (err e) = legacy

-- `ClientIdentity::from_header`
unfoldable pub from_header : Option Text → ClientIdentity
unfolding parse_identity
from_header none = legacy
from_header (some value) = or_legacy (parse_identity value)

-- `ClientIdentity::header_value`
unfoldable pub header_value : ClientIdentity → Option Text
unfolding as_str print_version
header_value identity = elim identity.platform [
  | none ↦ none
  | some platform ↦ some (as_str platform ++ b'/' ∷ print_version identity.version)
]

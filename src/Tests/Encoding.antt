-- ===== src/Tests/Encoding.antt =====
-- Items of an invite, and the update that a server asks of an app.
use ket.Common.Chars.{print_digits}
use ket.Update.Header.{from_header, header_value, as_str, print_version}
use ket.Update.Header.RoundTrip.{from_header-header_value}
use ket.Common.{ℕ, ◌≡◌, ◌↔◌, refl, true, ◌||◌, [], ◌∷◌, ◌++◌, none, some, arith, any, retain, ok}
use ket.Server.Validate.{is_some}
use ket.Capsule.Cbor.{bytes, encode_bytes, length_of, encode_head}
use ket.Capsule.Cbor.RoundTrip.{bytes-encode_bytes}
use ket.Capsule.Cbor.Canonical.{length_of-canonical}
use ket.Update.Release.{
  Version, android, linux, ClientIdentity, UpdateCategory, Release, ReleaseManifest, between,
}
use ket.Update.Policy.{enforce, security, required, ClientPolicy, new_policy, unmet, evaluate}
use ket.Update.Policy.Rating.{demands, evaluate-required_iff}

bytes-encode_bytes_example : bytes 8 (encode_bytes (1 ∷ 2 ∷ []) ++ 3 ∷ []) ≡ ok (1 ∷ 2 ∷ [], 3 ∷ [])
bytes-encode_bytes_example = bytes-encode_bytes 8 (1 ∷ 2 ∷ []) (3 ∷ []) (omega arith) (omega arith)

reads_500 : length_of 2 (0x59 ∷ 1 ∷ 244 ∷ 9 ∷ []) ≡ ok (500, 9 ∷ [])
unfolding length_of
reads_500 = refl

length_of-canonical_example : 0x59 ∷ 1 ∷ 244 ∷ 9 ∷ [] ≡ encode_head 2 500 ++ 9 ∷ []
length_of-canonical_example =
    length_of-canonical 2 500 (0x59 ∷ 1 ∷ 244 ∷ 9 ∷ []) (9 ∷ [])
      (omega arith, (omega arith, (omega arith, (omega arith, tt)))) reads_500

abbrev version : ℕ → ℕ → Version
version major minor = record { major = major; minor = minor; patch = 0 }

abbrev release : ℕ → UpdateCategory → Release
release minor category = record {
  version = version 1 minor;
  client = some category;
  server = none;
  apps = [];
  summary = 83 ∷ [];
  published_epoch_seconds = 86400;
}

abbrev manifest : ReleaseManifest
manifest = record {
  security_grace_days = 14;
  releases = release 1 UpdateCategory.recommended ∷ release 2 UpdateCategory.security ∷ [];
}

abbrev app : ClientIdentity
app = record { platform = some linux; version = version 1 0 }

abbrev policy : ClientPolicy
policy = record {
  server_version = version 1 2;
  minimum = some (version 1 0);
  enforcement = enforce;
  download_url = [];
}

-- The grace period of the security release ends at 1296000.
waits : (evaluate policy manifest app 1000000).status ≡ security
unfolding evaluate
waits = refl

must : (evaluate policy manifest app 1296000).status ≡ required
unfolding evaluate
must = refl

evaluate-required_iff_example : ((evaluate policy manifest app 1296000).status ≡ required) ↔ (
    (is_some (unmet policy.minimum app.version)
      || any
          (demands manifest app 1296000)
          (retain (between app.version policy.server_version) manifest.releases))
    ≡ true)
evaluate-required_iff_example = evaluate-required_iff policy manifest app 1296000 refl

makes : new_policy (version 1 2) (some (version 1 0)) enforce [] ≡ some policy
unfolding new_policy
makes = refl

abbrev one_two_zero : Version
one_two_zero = record { major = 1; minor = 2; patch = 0 }

-- The header of an Android app.
sends_android :
    header_value (record { platform = some android; version = one_two_zero })
    ≡ some (
        b'a' ∷ b'n' ∷ b'd' ∷ b'r' ∷ b'o' ∷ b'i' ∷ b'd' ∷ b'/' ∷ b'1' ∷ b'.' ∷ b'2' ∷ b'.' ∷ b'0'
        ∷ [])
unfolding header_value as_str print_version print_digits
sends_android = refl

from_header-header_value_example :
    from_header (header_value (record { platform = some android; version = one_two_zero }))
    ≡ record { platform = some android; version = one_two_zero }
from_header-header_value_example =
    from_header-header_value android one_two_zero (omega arith, omega arith, omega arith)

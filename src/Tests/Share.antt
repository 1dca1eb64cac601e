-- ===== src/Tests/Share.antt =====
-- Addresses, and a device that guesses the password.
use ket.Common.{
  ℕ, List, All, ◌++◌, Option, Text, ok, err, map, ◌+◌, ◌≡◌, refl, arith, true, false, not, [], ◌∷◌,
  none, some,
}
use ket.Net.{IpAddr, v4, ipv4}
use ket.Share.Policy.{requested, resolved, allowed, allowed_ipv4, range, range_contains}
use ket.Share.Policy.Public.{special_use, allowed-special_use}
use ket.Share.Limiter.{new_limiter, window, turns_away, failed}
use ket.Share.Limiter.Bounds.{Used, turns_away-after_window}
use ket.Share.Target.{valid_label, name, local_name, lower, without_root, parse_host}
use ket.Share.Target.Labels.{join, Label, valid_labels-Label}
use ket.Share.Target.Names.{PublicName, parse_host-PublicName}
use ket.Share.Dns.{query, question_of, labels_of, addresses, answer}
use ket.Share.Dns.RoundTrip.{answer-wire}
use ket.Share.Dns.Message.{ResourceRecord, pointer, wire_header, wire_records}

-- 172.32.0.0 is reached, 192.168.1.1 is not, and 198.18.0.7 only from the resolver.
reaches_172_32 : allowed (v4 (ipv4 172 32 0 0)) requested none ≡ true
unfolding allowed allowed_ipv4 range_contains
reaches_172_32 = refl

keeps_the_bridge : allowed (v4 (ipv4 198 18 0 7)) resolved (some (range 198 18 0 0 15)) ≡ true
unfolding allowed allowed_ipv4 range_contains
keeps_the_bridge = refl

allowed-special_use_example :
    allowed (v4 (ipv4 192 168 1 1)) requested none ≡ not (special_use 192 168 1)
allowed-special_use_example =
    allowed-special_use 192 168 1 1 (omega arith) (omega arith) (omega arith) (omega arith) none

turns_away-after_window_example :
    (turns_away (failed new_limiter (v4 5) 7) (v4 5) false (7 + window)).1 ≡ false
turns_away-after_window_example =
    turns_away-after_window 7 (7 + window) (failed new_limiter (v4 5) 7) (v4 5) false
      (Used.wrong (v4 5) Used.fresh) (omega arith)

-- `www.A-b.org` as a text, and the query for it.
abbrev www : Text
www = b'w' ∷ b'.' ∷ b'A' ∷ b'-' ∷ b'b' ∷ b'.' ∷ b'o' ∷ b'r' ∷ b'g' ∷ []

abbrev www_lower : Text
www_lower = b'w' ∷ b'.' ∷ b'a' ∷ b'-' ∷ b'b' ∷ b'.' ∷ b'o' ∷ b'r' ∷ b'g' ∷ []

abbrev router : Text
router = b'r' ∷ b'o' ∷ b'u' ∷ b't' ∷ b'e' ∷ b'r' ∷ []

abbrev no_address : Text → Option IpAddr
no_address _ = none

abbrev no_bits : Text → Option ℕ
no_bits _ = none

parses_www : parse_host no_address no_bits www ≡ ok (name www_lower)
unfolding parse_host
parses_www = refl

refuses_router : parse_host no_address no_bits router ≡ err local_name
unfolding parse_host
refuses_router = refl

parse_host-PublicName_example : (www_lower ≡ map lower (without_root www)) × PublicName www_lower
parse_host-PublicName_example = parse_host-PublicName no_address no_bits www www_lower parses_www

queries_www :
    query 0x1234 www_lower
    ≡ 0x12 ∷ 0x34 ∷ 1 ∷ 0 ∷ 0 ∷ 1 ∷ 0 ∷ 0 ∷ 0 ∷ 0 ∷ 0 ∷ 0 ∷ 1 ∷ b'w' ∷ 3 ∷ b'a' ∷ b'-' ∷ b'b' ∷ 3
      ∷ b'o' ∷ b'r' ∷ b'g' ∷ 0 ∷ 0 ∷ 1 ∷ 0 ∷ 1 ∷ []
unfolding query question_of labels_of
queries_www = refl

-- The labels of the name, an alias of it and its address: the alias is skipped. The question comes
-- back in other letters.
abbrev www_labels : List Text
www_labels = (b'w' ∷ []) ∷ (b'a' ∷ b'-' ∷ b'b' ∷ []) ∷ (b'o' ∷ b'r' ∷ b'g' ∷ []) ∷ []

abbrev alias : ResourceRecord
alias = record {
  labels = [];
  ending = pointer 0xc0 0x0c;
  kind = 5;
  class = 1;
  time_to_live = 60;
  contents = 1 ∷ b'x' ∷ 0xc0 ∷ 0x0c ∷ [];
}

abbrev at_address : ResourceRecord
at_address = record {
  labels = (b'x' ∷ []) ∷ [];
  ending = pointer 0xc0 0x0c;
  kind = 1;
  class = 1;
  time_to_live = 60;
  contents = 93 ∷ 184 ∷ 216 ∷ 34 ∷ [];
}

abbrev asked_back : List ℕ
asked_back = 1 ∷ b'W' ∷ 3 ∷ b'A' ∷ b'-' ∷ b'b' ∷ 3 ∷ b'O' ∷ b'r' ∷ b'g' ∷ 0 ∷ 0 ∷ 1 ∷ 0 ∷ 1 ∷ []

www_labels-Label : All Label www_labels
unfolding valid_label
www_labels-Label = valid_labels-Label www_labels refl (
  (λ h. absurd (ground arith), tt),
  (
    (λ h. absurd (ground arith), (λ h. absurd (ground arith), (λ h. absurd (ground arith), tt))),
    (
      (λ h. absurd (ground arith), (λ h. absurd (ground arith), (λ h. absurd (ground arith), tt))),
      tt,
    ),
  ),
)

answer-wire_example :
    answer 0x1234 (join www_labels) (
      wire_header 0x1234 0x81 0x80 2 (0 ∷ 0 ∷ 0 ∷ 0 ∷ [])
      ++ (asked_back ++ wire_records (alias ∷ at_address ∷ []) []))
    ≡ addresses (ipv4 93 184 216 34 ∷ [])
answer-wire_example =
    answer-wire 0x1234 0x81 0x80 www_labels asked_back (alias ∷ at_address ∷ []) 0 0 0 0 []
      (omega arith) www_labels-Label refl
      (
        (tt, (omega arith, omega arith)),
        ((((omega arith, omega arith), tt), (omega arith, omega arith)), tt),
      )
      refl refl

-- ===== src/Share/Policy.antt =====
-- The public addresses: crates/ket-share/src/policy.rs.
pub mod Public
use ket.Common.{
  ℕ, ◌-◌, ◌/◌, Bool, true, false, not, ◌&&◌, List, [], ◌∷◌, Option, none, some, ◌==◌, if◌then◌else◌,
  any, Option-cases,
}
use ket.Server.Validate.{is_some_and}
use ket.Net.{IpAddr, v4, v6, ipv4, clear_low, segment, to_ipv4_mapped}

pub record Ipv4Range : Type 0 where
  pub network : ℕ
  pub length : ℕ

-- `Ipv4Range::contains`: of a range of length 0 no bit is compared.
unfoldable pub range_contains : Ipv4Range → ℕ → Bool
range_contains range address =
    if range.length == 0
    then true
    else clear_low (32 - range.length) address == clear_low (32 - range.length) range.network

abbrev pub range : ℕ → ℕ → ℕ → ℕ → ℕ → Ipv4Range
range a b c d length = record { network = ipv4 a b c d; length = length }

-- `RESERVED_IPV4`
abbrev pub reserved_ipv4 : List Ipv4Range
reserved_ipv4 =
    range 0 0 0 0 8
    ∷ range 10 0 0 0 8
    ∷ range 100 64 0 0 10
    ∷ range 127 0 0 0 8
    ∷ range 169 254 0 0 16
    ∷ range 172 16 0 0 12
    ∷ range 192 0 0 0 24
    ∷ range 192 0 2 0 24
    ∷ range 192 168 0 0 16
    ∷ range 198 18 0 0 15
    ∷ range 198 51 100 0 24
    ∷ range 203 0 113 0 24
    ∷ range 224 0 0 0 4
    ∷ range 240 0 0 0 4
    ∷ []

pub data Origin : Type 0 where
  requested resolved : Origin

abbrev is_resolved : Origin → Bool
is_resolved requested = false
is_resolved resolved = true

-- `public_ipv6`: `segments[0] & 0xe000` are its three highest bits.
unfoldable pub public_ipv6 : ℕ → Bool
public_ipv6 address =
    segment 0 address / 0x2000 == 1
    && not (segment 0 address == 0x2001 && segment 1 address == 0x0db8)
    && not (segment 0 address == 0x2002)

-- `allowed` of an IPv4 address.
unfoldable pub allowed_ipv4 : ℕ → Origin → Option Ipv4Range → Bool
unfolding range_contains
allowed_ipv4 address origin synthetic =
    if is_resolved origin && is_some_and (λ r. range_contains r address) synthetic
    then true
    else not (any (λ r. range_contains r address) reserved_ipv4)

-- `allowed`
unfoldable pub allowed : IpAddr → Origin → Option Ipv4Range → Bool
unfolding allowed_ipv4 to_ipv4_mapped public_ipv6
allowed (v4 address) origin synthetic = allowed_ipv4 address origin synthetic
allowed (v6 address) origin synthetic = elim (to_ipv4_mapped address) [
  | some mapped ↦ allowed_ipv4 mapped origin synthetic
  | none ↦ public_ipv6 address
]

-- ===== src/Share/Policy/Public.antt =====
-- The addresses that a nearby device reaches, by their octets.
use ket.Common.{
  ℕ, ◌+◌, ◌*◌, ◌/◌, ◌%◌, ◌^◌, ◌<◌, ◌≡◌, refl, arith, Bool, not, ◌&&◌, ◌||◌, Option, none, ◌==◌, ltb,
  leb,
}
use ket.Net.{v4, v6, ipv4, to_ipv4_mapped}
use ket.Share.Policy.{
  Ipv4Range, range_contains, range, Origin, requested, allowed, allowed_ipv4, public_ipv6,
}

-- The networks that are not the public Internet, octet by octet.
pub special_use : ℕ → ℕ → ℕ → Bool
special_use a b c =
    a == 0
    || a == 10
    || a == 127
    || (a == 100 && leb 64 b && ltb b 128)
    || (a == 169 && b == 254)
    || (a == 172 && leb 16 b && ltb b 32)
    || (a == 192 && (b == 168 || (b == 0 && (c == 0 || c == 2))))
    || (a == 198 && (b == 18 || b == 19 || (b == 51 && c == 100)))
    || (a == 203 && b == 0 && c == 113)
    || leb 224 a

module _ (a b c d : ℕ) (ha : a < 256) (hb : b < 256) (hc : c < 256) (hd : d < 256) where
  in_this_network : range_contains (range 0 0 0 0 8) (ipv4 a b c d) ≡ (a == 0)
  unfolding range_contains
  in_this_network = ground arith

  in_private_10 : range_contains (range 10 0 0 0 8) (ipv4 a b c d) ≡ (a == 10)
  unfolding range_contains
  in_private_10 = ground arith

  in_shared :
      range_contains (range 100 64 0 0 10) (ipv4 a b c d) ≡ (a == 100 && leb 64 b && ltb b 128)
  unfolding range_contains
  in_shared = ground arith

  in_loopback : range_contains (range 127 0 0 0 8) (ipv4 a b c d) ≡ (a == 127)
  unfolding range_contains
  in_loopback = ground arith

  in_link_local : range_contains (range 169 254 0 0 16) (ipv4 a b c d) ≡ (a == 169 && b == 254)
  unfolding range_contains
  in_link_local = ground arith

  in_private_172 :
      range_contains (range 172 16 0 0 12) (ipv4 a b c d) ≡ (a == 172 && leb 16 b && ltb b 32)
  unfolding range_contains
  in_private_172 = ground arith

  in_protocols : range_contains (range 192 0 0 0 24) (ipv4 a b c d) ≡ (a == 192 && b == 0 && c == 0)
  unfolding range_contains
  in_protocols = ground arith

  in_documentation_1 :
      range_contains (range 192 0 2 0 24) (ipv4 a b c d) ≡ (a == 192 && b == 0 && c == 2)
  unfolding range_contains
  in_documentation_1 = ground arith

  in_private_192 : range_contains (range 192 168 0 0 16) (ipv4 a b c d) ≡ (a == 192 && b == 168)
  unfolding range_contains
  in_private_192 = ground arith

  in_benchmarks :
      range_contains (range 198 18 0 0 15) (ipv4 a b c d) ≡ (a == 198 && (b == 18 || b == 19))
  unfolding range_contains
  in_benchmarks = ground arith

  in_documentation_2 :
      range_contains (range 198 51 100 0 24) (ipv4 a b c d) ≡ (a == 198 && b == 51 && c == 100)
  unfolding range_contains
  in_documentation_2 = ground arith

  in_documentation_3 :
      range_contains (range 203 0 113 0 24) (ipv4 a b c d) ≡ (a == 203 && b == 0 && c == 113)
  unfolding range_contains
  in_documentation_3 = ground arith

  in_multicast : range_contains (range 224 0 0 0 4) (ipv4 a b c d) ≡ (leb 224 a && ltb a 240)
  unfolding range_contains
  in_multicast = ground arith

  in_reserved : range_contains (range 240 0 0 0 4) (ipv4 a b c d) ≡ (leb 240 a)
  unfolding range_contains
  in_reserved = ground arith

  -- An IPv4 address that a nearby device writes is allowed exactly if no special-use network holds it.
  pub allowed-special_use :
      (synthetic : Option Ipv4Range)
      → allowed (v4 (ipv4 a b c d)) requested synthetic ≡ not (special_use a b c)
  unfolding allowed allowed_ipv4 special_use
  allowed-special_use synthetic =
      rw
        (
          in_this_network, in_private_10, in_shared, in_loopback, in_link_local, in_private_172,
          in_protocols, in_documentation_1, in_private_192, in_benchmarks, in_documentation_2,
          in_documentation_3, in_multicast, in_reserved,
        )
        (ground arith)

-- An IPv4 address written as IPv6 is judged as the IPv4 address that it holds.
pub allowed-mapped :
    (address : ℕ) (origin : Origin) (synthetic : Option Ipv4Range)
    → address < 2 ^ 32
    → allowed (v6 (0xffff * 2 ^ 32 + address)) origin synthetic
      ≡ allowed (v4 address) origin synthetic
unfolding allowed to_ipv4_mapped
allowed-mapped address origin synthetic h =
    let top : (0xffff * 2 ^ 32 + address) / 2 ^ 32 ≡ 0xffff = omega arith in
    let rest : (0xffff * 2 ^ 32 + address) % 2 ^ 32 ≡ address = omega arith in
    rw (allowed, to_ipv4_mapped, top, rest) refl

-- Any other IPv6 address is allowed exactly if it is a global unicast address, 2000::/3, and neither
-- for documentation, 2001:db8::/32, nor 6to4, 2002::/16.
pub allowed-global :
    (address : ℕ) (origin : Origin) (synthetic : Option Ipv4Range)
    → address < 2 ^ 128
    → to_ipv4_mapped address ≡ none
    → allowed (v6 address) origin synthetic ≡ (
        leb (2 ^ 125) address
        && ltb address (2 ^ 126)
        && not (leb (0x20010db8 * 2 ^ 96) address && ltb address (0x20010db9 * 2 ^ 96))
        && not (leb (0x2002 * 2 ^ 112) address && ltb address (0x2003 * 2 ^ 112)))
unfolding allowed public_ipv6
allowed-global address origin synthetic h other = rw (allowed, other) (ground arith)

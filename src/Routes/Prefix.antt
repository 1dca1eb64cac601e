-- ===== src/Routes/Prefix.antt =====
-- Addresses with a prefix length and the bypass list: crates/ket-tunnel-protocol/src/bypass.rs.
-- Texts are left out: an entry is what the parser of `std::net` and of the length gave.
pub mod Entries
use ket.Common.{
  ℕ, ◌-◌, ◌/◌, ◌^◌, ◌≡◌, refl, ap₂, Bool, true, false, ◌&&◌, ◌||◌, List, [], ◌∷◌, Option, none,
  some, Text, ltb, leb, ◌==◌, if◌then◌else◌, holds, length, text_le, text_le_total, text_le_trans,
  sort_by, Key, text_le_antisym, arith, Result, ok, err, ◌>>=◌, ◌>>◌, guard, ℕ_discrete,
}
use ket.Net.{IpAddr, v4, v6, IpAddr-discrete, clear_low, segment}

abbrev pub max_bypass_entries : ℕ
max_bypass_entries = 64

abbrev pub min_ipv4_prefix : ℕ
min_ipv4_prefix = 8

abbrev pub min_ipv6_prefix : ℕ
min_ipv6_prefix = 16

pub record IpPrefix : Type 0 where
  pub address : IpAddr
  pub length : ℕ

unfoldable pub IpPrefix-discrete : Discrete IpPrefix
unfolding IpAddr-discrete ℕ_discrete
IpPrefix-discrete = hlevel (IpAddr-discrete, ℕ_discrete)

pub data PrefixError : Type 0 where
  invalid : PrefixError
  too_wide : ℕ → PrefixError
  special : PrefixError
  too_many : PrefixError

-- `full_length`
abbrev pub full_length : IpAddr → ℕ
full_length (v4 a) = 32
full_length (v6 a) = 128

-- `mask`
unfoldable pub mask : IpAddr → ℕ → IpAddr
mask (v4 a) length = v4 (clear_low (32 - length) a)
mask (v6 a) length = v6 (clear_low (128 - length) a)

-- `IpPrefix::host`
abbrev pub host : IpAddr → IpPrefix
host address = record { address = address; length = full_length address }

-- `IpPrefix::new`
unfoldable pub new_prefix : IpAddr → ℕ → Option IpPrefix
unfolding mask
new_prefix address length =
    if leb length (full_length address)
    then some (record { address = mask address length; length = length })
    else none

abbrev pub is_ipv4 : IpAddr → Bool
is_ipv4 (v4 a) = true
is_ipv4 (v6 a) = false

abbrev same_family : IpAddr → IpAddr → Bool
same_family (v4 a) (v4 b) = true
same_family (v4 a) (v6 b) = false
same_family (v6 a) (v4 b) = false
same_family (v6 a) (v6 b) = true

-- `IpPrefix::contains`
unfoldable pub contains : IpPrefix → IpPrefix → Bool
unfolding mask IpAddr-discrete
contains p other =
    same_family p.address other.address
    && leb p.length other.length
    && holds (IpAddr-discrete (mask other.address p.length) p.address)

-- Loopback, multicast, unspecified, and broadcast addresses.
abbrev is_special : IpAddr → Bool
is_special (v4 a) = a / 2 ^ 24 == 127 || a / 2 ^ 28 == 14 || a == 0 || a == 2 ^ 32 - 1
is_special (v6 a) = a == 1 || segment 0 a / 256 == 0xff || a == 0

abbrev minimum : IpAddr → ℕ
minimum (v4 a) = min_ipv4_prefix
minimum (v6 a) = min_ipv6_prefix

-- `IpPrefix::check_bypass`
unfoldable pub check_bypass : IpPrefix → Result PrefixError (Unit {0})
check_bypass p =
    if ltb p.length (minimum p.address)
    then err (too_wide (minimum p.address))
    else (if is_special p.address then err special else ok tt)

-- The numbers that the derived order compares: the variant, the address and the length.
abbrev address_numbers : IpAddr → ℕ → List ℕ
address_numbers (v4 a) length = 0 ∷ a ∷ length ∷ []
address_numbers (v6 a) length = 1 ∷ a ∷ length ∷ []

abbrev prefix_numbers : IpPrefix → List ℕ
prefix_numbers p = address_numbers p.address p.length

-- The derived `Ord` of `IpPrefix`.
unfoldable pub prefix_le : IpPrefix → IpPrefix → Bool
unfolding text_le
prefix_le p q = text_le (prefix_numbers p) (prefix_numbers q)

pub prefix_le_total : (p q : IpPrefix) → prefix_le p q ≡ false → prefix_le q p ≡ true
unfolding prefix_le
prefix_le_total p q h = text_le_total (prefix_numbers p) (prefix_numbers q) h

pub prefix_le_trans :
    (p q r : IpPrefix) → prefix_le p q ≡ true → prefix_le q r ≡ true → prefix_le p r ≡ true
unfolding prefix_le
prefix_le_trans p q r h k =
    text_le_trans (prefix_numbers p) (prefix_numbers q) (prefix_numbers r) h k

same_numbers :
    (a b : IpAddr) (l k : ℕ) → address_numbers a l ≡ address_numbers b k → (a ≡ b) × (l ≡ k)
same_numbers (v4 a) (v4 b) l k e = ground arith
same_numbers (v4 a) (v6 b) l k e = absurd (cc)
same_numbers (v6 a) (v4 b) l k e = absurd (cc)
same_numbers (v6 a) (v6 b) l k e = ground arith

pub prefix_le_antisym : (p q : IpPrefix) → prefix_le p q ≡ true → prefix_le q p ≡ true → p ≡ q
unfolding prefix_le
prefix_le_antisym p q h k =
    let (a, l) =
      same_numbers p.address q.address p.length q.length
        (text_le_antisym (prefix_numbers p) (prefix_numbers q) h k) in
    ap₂ (λ a l. record { address = a; length = l }) a l

instance unfoldable pub IpPrefix-Key : Key IpPrefix
unfolding IpPrefix-discrete prefix_le
IpPrefix-Key = record {
  discrete = IpPrefix-discrete;
  less_or_same = prefix_le;
  total = prefix_le_total;
  trans = prefix_le_trans;
  antisym = prefix_le_antisym;
}

-- `Vec::dedup`: of neighbours that are equal the first stays.
unfoldable pub dedup : List IpPrefix → List IpPrefix
unfolding IpPrefix-discrete
dedup [] = []
dedup (p ∷ []) = p ∷ []
dedup (p ∷ q ∷ ps) =
    let rest = dedup (q ∷ ps) in if holds (IpPrefix-discrete p q) then rest else p ∷ rest

-- Each entry may be bypassed, or the first that may not fails.
unfoldable pub check_all : List IpPrefix → Result PrefixError (Unit {0})
unfolding check_bypass
check_all [] = ok tt
check_all (p ∷ ps) = check_bypass p >> check_all ps

-- `BypassList::new`
unfoldable pub new_list : List IpPrefix → Result PrefixError (List IpPrefix)
unfolding prefix_le dedup check_all
new_list entries =
    let sorted = dedup (sort_by prefix_le entries) in
    guard (leb (length sorted) max_bypass_entries) too_many >> (check_all sorted >> ok sorted)

-- ===== src/Net.antt =====
-- Internet addresses, as `std::net` keeps them: 32 and 128 bits.
use ket.Common.{
  ℕ, ◌+◌, ◌-◌, ◌*◌, ◌/◌, ◌%◌, ◌^◌, ◌==◌, Option, none, some, if◌then◌else◌, ℕ_discrete,
}

pub data IpAddr : Type 0 where
  v4 : ℕ → IpAddr
  v6 : ℕ → IpAddr

unfoldable pub IpAddr-discrete : Discrete IpAddr
unfolding ℕ_discrete
IpAddr-discrete = hlevel ℕ_discrete

-- `Ipv4Addr::new(a, b, c, d)`
abbrev pub ipv4 : ℕ → ℕ → ℕ → ℕ → ℕ
ipv4 a b c d = ((a * 256 + b) * 256 + c) * 256 + d

-- The bits of `address & (MAX << low)`.
abbrev pub clear_low : ℕ → ℕ → ℕ
clear_low low address = address / 2 ^ low * 2 ^ low

-- `Ipv6Addr::segments()[index]`
abbrev pub segment : ℕ → ℕ → ℕ
segment index address = address / 2 ^ (16 * (7 - index)) % 2 ^ 16

-- `Ipv6Addr::to_ipv4_mapped`: the addresses ::ffff:a.b.c.d.
unfoldable pub to_ipv4_mapped : ℕ → Option ℕ
to_ipv4_mapped address = if address / 2 ^ 32 == 0xffff then some (address % 2 ^ 32) else none

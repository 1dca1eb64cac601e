-- ===== src/Guard.antt =====
-- The leak guard of Windows, as plain data: crates/ket-client-core/src/leak_guard/plan.rs.
pub mod Decide
use ket.Common.{ℕ, ◌*◌, ◌^◌, List, [], ◌∷◌, ◌++◌, map, Option, none, some}
use ket.Net.{IpAddr, v4, v6}
use ket.Routes.Prefix.{IpPrefix}
use ket.Routes.Plan.{Family, ipv4_family, ipv6_family, family_of}

pub data Action : Type 0 where
  permit block : Action

pub data Condition : Type 0 where
  tunnel_interface loopback everything : Condition
  remote_address : IpAddr → Condition
  remote_port : ℕ → Condition
  remote_ipv6_prefix : ℕ → ℕ → Condition

pub record Rule : Type 0 where
  pub family : Family
  pub action : Action
  pub condition : Condition
  pub weight : ℕ

abbrev pub rule : Family → Action → Condition → ℕ → Rule
rule family action condition weight = record {
  family = family;
  action = action;
  condition = condition;
  weight = weight;
}

-- `NAME_LOOKUP_PORTS`: DNS, DNS over TLS, LLMNR and NetBIOS.
abbrev pub name_lookup_ports : List ℕ
name_lookup_ports = 53 ∷ 853 ∷ 5355 ∷ 137 ∷ []

abbrev pub tunnel_weight : ℕ
tunnel_weight = 15

abbrev pub loopback_weight : ℕ
loopback_weight = 14

abbrev pub server_weight : ℕ
server_weight = 13

abbrev pub lookup_block_weight : ℕ
lookup_block_weight = 12

abbrev pub local_ipv6_weight : ℕ
local_ipv6_weight = 11

abbrev pub ipv6_block_weight : ℕ
ipv6_block_weight = 10

-- What the rules of a family begin with.
abbrev pub family_rules : Family → List Rule
family_rules family =
    rule family permit loopback loopback_weight
    ∷ map (λ port. rule family block (remote_port port) lookup_block_weight) name_lookup_ports

abbrev pub server_rules : List IpAddr → List Rule
server_rules servers =
    map (λ server. rule (family_of server) permit (remote_address server) server_weight) servers

-- The closure of `bypassed` and the rule that is pushed for what it gives.
abbrev pub bypass_rule : IpAddr → ℕ → List Rule
bypass_rule (v4 address) length = []
bypass_rule (v6 address) length =
    rule ipv6_family permit (remote_ipv6_prefix address length) local_ipv6_weight ∷ []

abbrev pub bypass_rules : List IpPrefix → List Rule
bypass_rules [] = []
bypass_rules (p ∷ bypass) = bypass_rule p.address p.length ++ bypass_rules bypass

-- The IPv6 rules after the servers': fe80::/10 and ff00::/8 are the local link.
abbrev pub local_rules : List IpPrefix → List Rule
local_rules bypass =
    rule ipv6_family permit (remote_ipv6_prefix (0xfe80 * 2 ^ 112) 10) local_ipv6_weight
    ∷ rule ipv6_family permit (remote_ipv6_prefix (0xff00 * 2 ^ 112) 8) local_ipv6_weight
    ∷ (bypass_rules bypass ++ rule ipv6_family block everything ipv6_block_weight ∷ [])

-- `base_rules`
unfoldable pub base_rules : List IpAddr → List IpPrefix → List Rule
base_rules servers bypass =
    family_rules ipv4_family
    ++ (family_rules ipv6_family ++ (server_rules servers ++ local_rules bypass))

-- `tunnel_rules`
unfoldable pub tunnel_rules : List Rule
tunnel_rules =
    rule ipv4_family permit tunnel_interface tunnel_weight
    ∷ rule ipv6_family permit tunnel_interface tunnel_weight
    ∷ []

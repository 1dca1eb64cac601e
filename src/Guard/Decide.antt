-- ===== src/Guard/Decide.antt =====
-- What the rules of the leak guard decide: the rule of the highest weight that applies does, and
-- without one the attempt is permitted, as the Filtering Platform does it.
pub mod Policy
use ket.Common.{
  ℕ, ◌-◌, ◌*◌, ◌^◌, ◌≤◌, ◌≡◌, refl, subst, arith, Bool, true, false, not, ◌&&◌, ◌||◌, List, [], ◌∷◌,
  ◌++◌, map, Option, none, some, inl, inr, Bool-cases, Option-cases, if◌then◌else◌, holds, ltb, leb,
  ◌==◌, any, All, All-append, All-mono, ◌⊎◌,
}
use ket.Net.{IpAddr, v4, v6, IpAddr-discrete, clear_low}
use ket.Routes.Prefix.{IpPrefix}
use ket.Routes.Plan.{Family, ipv4_family, ipv6_family, Family-discrete, family_of}
use ket.Guard.{
  Action, permit, block, Condition, tunnel_interface, loopback, everything, remote_address,
  family_rules, bypass_rule, local_rules, remote_port, remote_ipv6_prefix, ipv6_block_weight, Rule,
  rule, name_lookup_ports, server_rules, bypass_rules, base_rules, tunnel_rules,
}

-- A connection attempt.
pub record Attempt : Type 0 where
  pub tunnel : Bool
  pub loopback : Bool
  pub remote : IpAddr
  pub port : ℕ

abbrev pub in_ipv6_prefix : ℕ → ℕ → IpAddr → Bool
in_ipv6_prefix prefix length (v4 a) = false
in_ipv6_prefix prefix length (v6 a) = clear_low (128 - length) a == clear_low (128 - length) prefix

abbrev pub matches : Condition → Attempt → Bool
matches tunnel_interface a = a.tunnel
matches loopback a = a.loopback
matches everything a = true
matches (remote_address address) a = holds (IpAddr-discrete a.remote address)
matches (remote_port port) a = a.port == port
matches (remote_ipv6_prefix prefix length) a = in_ipv6_prefix prefix length a.remote

abbrev pub applies : Attempt → Rule → Bool
applies a r = holds (Family-discrete r.family (family_of a.remote)) && matches r.condition a

-- Of the rules that apply, one of the highest weight.
pub highest : Attempt → List Rule → Option Rule
highest a [] = none
highest a (r ∷ rules) =
    let rest = highest a rules in
    if applies a r
    then elim rest [ none ↦ some r | some s ↦ if leb s.weight r.weight then some r else some s ]
    else rest

pub decide : List Rule → Attempt → Action
unfolding highest
decide rules a = elim (highest a rules) [ none ↦ permit | some r ↦ r.action ]

-- The attempt goes to a server of Ket.
abbrev pub to_server : List IpAddr → Attempt → Bool
to_server servers a = any (λ s. holds (IpAddr-discrete a.remote s)) servers

-- The attempt goes to an IPv6 network that the user keeps outside the tunnel.
abbrev bypassed_by : IpAddr → ℕ → Attempt → Bool
bypassed_by (v4 address) length a = false
bypassed_by (v6 address) length a = in_ipv6_prefix address length a.remote

abbrev pub bypassed : List IpPrefix → Attempt → Bool
bypassed bypass a = any (λ p. bypassed_by p.address p.length a) bypass

-- fe80::/10 and ff00::/8.
abbrev pub stays_local : Attempt → Bool
stays_local a =
    in_ipv6_prefix (0xfe80 * 2 ^ 112) 10 a.remote || in_ipv6_prefix (0xff00 * 2 ^ 112) 8 a.remote

abbrev pub is_lookup : Attempt → Bool
is_lookup a = any (λ port. a.port == port) name_lookup_ports

-- The policy, in the order of its exceptions.
pub policy : List IpAddr → List IpPrefix → Attempt → Action
policy servers bypass a =
    if a.tunnel || (a.loopback || to_server servers a)
    then permit
    else (if is_lookup a
        then block
        else (if holds (Family-discrete (family_of a.remote) ipv4_family)
            then permit
            else (if stays_local a || bypassed bypass a then permit else block)))

pub highest-All {κ} :
    (P : Rule → Type κ) (a : Attempt) (rules : List Rule) (r : Rule)
    → All (λ r. applies a r ≡ true → P r) rules
    → highest a rules ≡ some r
    → P r
unfolding highest
highest-All P a [] r h e = absurd (cc)
highest-All P a (s ∷ rules) r (h, hs) e = elim (Bool-cases (applies a s)) [
  | inl on ↦ elim (Option-cases (highest a rules)) [
    | inl n ↦ let same : s ≡ r = ground arith in subst P same (h on)
    | inr (t, n) ↦
        let rest = highest-All P a rules t hs n in
        elim (Bool-cases (leb t.weight s.weight)) [
          | inl c ↦ let same : s ≡ r = ground arith in subst P same (h on)
          | inr c ↦ let same : t ≡ r = ground arith in subst P same rest
        ]
  ]
  | inr off ↦ highest-All P a rules r hs (rw off at e)
]

-- The rule that decides weighs at least what any that applies does.
pub highest-weight :
    (a : Attempt) (weight : ℕ) (rules : List Rule)
    → any (λ r. applies a r && leb weight r.weight) rules ≡ true
    → (r : Rule) × (highest a rules ≡ some r) × (weight ≤ r.weight)
unfolding highest
highest-weight a weight [] h = absurd (cc)
highest-weight a weight (s ∷ rules) h = elim (Bool-cases (applies a s)) [
  | inl on ↦ elim (Bool-cases (leb weight s.weight)) [
    | inl heavy ↦ elim (Option-cases (highest a rules)) [
      | inl n ↦ (s, rw (on, n) refl, ground arith)
      | inr (t, n) ↦ either s t on n (λ c. ground arith) (λ c. ground arith)
    ]
    | inr light ↦
        let (t, n, w) = highest-weight a weight rules (rw (on, light) at h) in
        either s t on n (λ c. ground arith) (λ c. w)
  ]
  | inr off ↦
      let (r, e, w) = highest-weight a weight rules (rw off at h) in (r, rw (off, e) refl, w)
]
  where
    either :
        (s t : Rule)
        → applies a s ≡ true
        → highest a rules ≡ some t
        → (leb t.weight s.weight ≡ true → weight ≤ s.weight)
        → (leb t.weight s.weight ≡ false → weight ≤ t.weight)
        → (r : Rule) × (highest a (s ∷ rules) ≡ some r) × (weight ≤ r.weight)
    either s t on n here there = elim (Bool-cases (leb t.weight s.weight)) [
      | inl c ↦ (s, rw (highest, on, n, c) refl, here c)
      | inr c ↦ (t, rw (highest, on, n, c) refl, there c)
    ]

-- The rule applies for one of the reasons that the policy names.
pub Reason : List IpAddr → List IpPrefix → Attempt → Rule → Type 0
Reason servers bypass a r =
    ((r.weight ≡ 15) × (r.action ≡ permit) × (a.tunnel ≡ true))
    ⊎ (((r.weight ≡ 14) × (r.action ≡ permit) × (a.loopback ≡ true))
        ⊎ (((r.weight ≡ 13) × (r.action ≡ permit) × (to_server servers a ≡ true))
            ⊎ (((r.weight ≡ 12) × (r.action ≡ block) × (is_lookup a ≡ true))
                ⊎ (((r.weight ≡ 11)
                      × (r.action ≡ permit)
                      × ((stays_local a || bypassed bypass a) ≡ true))
                    ⊎ ((r.weight ≡ 10)
                        × (r.action ≡ block)
                        × (family_of a.remote ≡ ipv6_family))))))

module _ (a : Attempt) where
  server_rules-Reason :
      (servers : List IpAddr)
      → All
          (λ r.
            applies a r ≡ true
            → (r.weight ≡ 13) × (r.action ≡ permit) × (to_server servers a ≡ true))
          (server_rules servers)
  server_rules-Reason [] = tt
  server_rules-Reason (s ∷ servers) = (
    λ on. ground arith,
    All-mono (λ r h on. let (w, p, t) = h on in (w, p, ground arith)) (server_rules servers)
        (server_rules-Reason servers),
  )

  bypass_rules-Reason :
      (bypass : List IpPrefix)
      → All
          (λ r.
            applies a r ≡ true → (r.weight ≡ 11) × (r.action ≡ permit) × (bypassed bypass a ≡ true))
          (bypass_rules bypass)
  bypass_rules-Reason [] = tt
  bypass_rules-Reason (p ∷ bypass) =
      All-append
        (λ r.
          applies a r ≡ true
          → (r.weight ≡ 11) × (r.action ≡ permit) × (bypassed (p ∷ bypass) a ≡ true))
        (bypass_rule p.address p.length) (bypass_rules bypass)
        (All-mono (λ r h on. let (w, q, t) = h on in (w, q, ground arith))
          (bypass_rule p.address p.length) (one p.address p.length))
        (All-mono (λ r h on. let (w, q, t) = h on in (w, q, ground arith)) (bypass_rules bypass)
          (bypass_rules-Reason bypass))
    where
      one :
          (address : IpAddr) (length : ℕ)
          → All
              (λ r.
                applies a r ≡ true
                → (r.weight ≡ 11) × (r.action ≡ permit) × (bypassed_by address length a ≡ true))
              (bypass_rule address length)
      one (v4 address) length = tt
      one (v6 address) length = (λ on. ground arith, tt)

  module _ (servers : List IpAddr) (bypass : List IpPrefix) where
    abbrev Reasoned : Rule → Type 0
    Reasoned r = applies a r ≡ true → Reason servers bypass a r

    family_rules-Reason : (family : Family) → All Reasoned (family_rules family)
    unfolding Reason
    family_rules-Reason family = (
      λ on. inr (inl (refl, refl, ground arith)),
      (
        λ on. inr (inr (inr (inl (refl, refl, ground arith)))),
        (
          λ on. inr (inr (inr (inl (refl, refl, ground arith)))),
          (
            λ on. inr (inr (inr (inl (refl, refl, ground arith)))),
            (λ on. inr (inr (inr (inl (refl, refl, ground arith)))), tt),
          ),
        ),
      ),
    )

    local_rules-Reason : All Reasoned (local_rules bypass)
    unfolding Reason
    local_rules-Reason = (
      λ on. inr (inr (inr (inr (inl (refl, refl, ground arith))))),
      (
        λ on. inr (inr (inr (inr (inl (refl, refl, ground arith))))),
        All-append Reasoned (bypass_rules bypass)
            (rule ipv6_family block everything ipv6_block_weight ∷ [])
            (All-mono
              (λ r h on. let (w, p, t) = h on in inr (inr (inr (inr (inl (w, p, ground arith))))))
              (bypass_rules bypass) (bypass_rules-Reason bypass))
            (λ on. inr (inr (inr (inr (inr (refl, refl, ground arith))))), tt),
      ),
    )

    pub all_rules-Reason : All Reasoned (base_rules servers bypass ++ tunnel_rules)
    unfolding base_rules tunnel_rules Reason
    all_rules-Reason =
        let rest = server_rules servers ++ local_rules bypass in
        let on_servers : All Reasoned (server_rules servers) =
          All-mono (λ r h on. inr (inr (inl (h on)))) (server_rules servers)
            (server_rules-Reason servers) in
        All-append Reasoned (base_rules servers bypass) tunnel_rules
          (All-append Reasoned (family_rules ipv4_family) (family_rules ipv6_family ++ rest)
            (family_rules-Reason ipv4_family)
            (All-append Reasoned (family_rules ipv6_family) rest (family_rules-Reason ipv6_family) (
              All-append Reasoned (server_rules servers) (local_rules bypass) on_servers
                local_rules-Reason)))
          (λ on. inl (refl, refl, ground arith), (λ on. inl (refl, refl, ground arith), tt))

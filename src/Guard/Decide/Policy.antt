-- ===== src/Guard/Decide/Policy.antt =====
-- The rules of the leak guard, judged together, are the policy.
use ket.Common.{
  ℕ, ◌≤◌, ◌≡◌, refl, ap, sym, subst, ◌∙◌, arith, Bool, true, false, ◌&&◌, ◌||◌, List, [], ◌∷◌, ◌++◌,
  inl, inr, ◌⊎◌, Bool-cases, Option-cases, holds, leb, any,
}
use ket.Net.{IpAddr, v4, v6, IpAddr-discrete}
use ket.Routes.Prefix.{IpPrefix}
use ket.Routes.Plan.{Family, ipv4_family, ipv6_family, Family-discrete, family_of}
use ket.Guard.{
  permit, block, rule, everything, ipv6_block_weight, Rule, server_rules, bypass_rules, bypass_rule,
  local_rules, family_rules, base_rules, tunnel_rules,
}
use ket.Guard.Decide.{
  Attempt, applies, highest, decide, policy, to_server, is_lookup, stays_local, bypassed,
  highest-All, highest-weight, Reason, all_rules-Reason, bypassed_by,
}

any-append {ℓ} :
    {A : Type ℓ} (p : A → Bool) (xs ys : List A) → any p (xs ++ ys) ≡ (any p xs || any p ys)
any-append p [] ys = refl
any-append p (x ∷ xs) ys = ground (arith, any-append p xs ys)

module _ (a : Attempt) where
  -- Some rule of at least the weight applies.
  abbrev Weighs : ℕ → List Rule → Type 0
  Weighs weight rules = any (λ r. applies a r && leb weight r.weight) rules ≡ true

  server_rules-Weighs :
      (servers : List IpAddr) → to_server servers a ≡ true → Weighs 13 (server_rules servers)
  unfolding Family-discrete IpAddr-discrete
  server_rules-Weighs [] h = absurd (cc)
  server_rules-Weighs (s ∷ servers) h = elim (IpAddr-discrete a.remote s) [
    | yes same ↦
        let family : family_of s ≡ family_of a.remote = ap family_of (sym same) in ground arith
    | no other ↦ let rest = server_rules-Weighs servers (ground arith) in ground arith
  ]

  family_rules-Weighs :
      (family : Family)
      → is_lookup a ≡ true
      → family ≡ family_of a.remote
      → Weighs 12 (family_rules family)
  family_rules-Weighs family h same = ground arith

  bypass_rule-Weighs :
      (address : IpAddr) (length : ℕ)
      → bypassed_by address length a ≡ true
      → Weighs 11 (bypass_rule address length)
  bypass_rule-Weighs (v4 address) length h = absurd (cc)
  bypass_rule-Weighs (v6 address) length h = ground arith

  bypass_rules-Weighs :
      (bypass : List IpPrefix) → bypassed bypass a ≡ true → Weighs 11 (bypass_rules bypass)
  bypass_rules-Weighs [] h = absurd (cc)
  bypass_rules-Weighs (p ∷ bypass) h =
      let at =
        any-append (λ r. applies a r && leb 11 r.weight) (bypass_rule p.address p.length)
          (bypass_rules bypass) in
      elim (Bool-cases (bypassed_by p.address p.length a)) [
        | inl e ↦ rw at (ground (arith, bypass_rule-Weighs p.address p.length e))
        | inr e ↦ rw at (ground (arith, bypass_rules-Weighs bypass (rw e at h)))
      ]

  local_rules-Weighs_11 :
      (bypass : List IpPrefix)
      → (stays_local a || bypassed bypass a) ≡ true
      → Weighs 11 (local_rules bypass)
  local_rules-Weighs_11 bypass h =
      let at =
        any-append (λ r. applies a r && leb 11 r.weight) (bypass_rules bypass)
          (rule ipv6_family block everything ipv6_block_weight ∷ []) in
      elim (Bool-cases (stays_local a)) [
        | inl e ↦ ground arith
        | inr e ↦ let b = bypass_rules-Weighs bypass (rw e at h) in rw at (ground arith)
      ]

  local_rules-Weighs_10 :
      (bypass : List IpPrefix) → family_of a.remote ≡ ipv6_family → Weighs 10 (local_rules bypass)
  local_rules-Weighs_10 bypass h =
      let at =
        any-append (λ r. applies a r && leb 10 r.weight) (bypass_rules bypass)
          (rule ipv6_family block everything ipv6_block_weight ∷ []) in
      rw at (ground arith)

module _ (servers : List IpAddr) (bypass : List IpPrefix) (a : Attempt) where
  abbrev all_rules : List Rule
  all_rules = base_rules servers bypass ++ tunnel_rules

  any-all_rules :
      (p : Rule → Bool)
      → any p all_rules ≡ (
          (any p (family_rules ipv4_family)
            || (any p (family_rules ipv6_family)
                || (any p (server_rules servers) || any p (local_rules bypass))))
          || any p tunnel_rules)
  unfolding base_rules
  any-all_rules p =
      let rest = server_rules servers ++ local_rules bypass in
      rw
        (
          any-append p (base_rules servers bypass) tunnel_rules,
          base_rules,
          any-append p (family_rules ipv4_family) (family_rules ipv6_family ++ rest),
          any-append p (family_rules ipv6_family) rest,
          any-append p (server_rules servers) (local_rules bypass),
        )
        refl

  -- The rule that decides has a reason, and weighs at least what some rule that applies does.
  decides :
      (weight : ℕ)
      → Weighs a weight all_rules
      → (r : Rule) × (decide all_rules a ≡ r.action)
        × (weight ≤ r.weight)
        × Reason servers bypass a r
  unfolding decide
  decides weight some_apply =
      let (r, e, w) = highest-weight a weight all_rules some_apply in
      (
        r,
        rw (decide, e) refl,
        w,
        highest-All (Reason servers bypass a) a all_rules r (all_rules-Reason a servers bypass) e,
      )

  part :
      (weight : ℕ)
      → (any (λ r. applies a r && leb weight r.weight) (family_rules (family_of a.remote))
          || (any (λ r. applies a r && leb weight r.weight) (server_rules servers)
              || (any (λ r. applies a r && leb weight r.weight) (local_rules bypass)
                  || any (λ r. applies a r && leb weight r.weight) tunnel_rules)))
        ≡ true
      → Weighs a weight all_rules
  part weight h =
      let p : Rule → Bool = λ r. applies a r && leb weight r.weight in
      let at = any-all_rules p in
      elim (family_cases (family_of a.remote)) [
        | inl four ↦
            let h' =
              subst
                (λ f.
                  (any p (family_rules f)
                    || (any p (server_rules servers)
                        || (any p (local_rules bypass) || any p tunnel_rules)))
                  ≡ true)
                four h in
            at
            ∙ either_family (any p (family_rules ipv4_family)) (any p (family_rules ipv6_family))
                (any p (server_rules servers)) (any p (local_rules bypass)) (any p tunnel_rules)
                (inl h')
        | inr six ↦
            let h' =
              subst
                (λ f.
                  (any p (family_rules f)
                    || (any p (server_rules servers)
                        || (any p (local_rules bypass) || any p tunnel_rules)))
                  ≡ true)
                six h in
            at
            ∙ either_family (any p (family_rules ipv4_family)) (any p (family_rules ipv6_family))
                (any p (server_rules servers)) (any p (local_rules bypass)) (any p tunnel_rules)
                (inr h')
      ]
    where
      family_cases : (f : Family) → (f ≡ ipv4_family) ⊎ (f ≡ ipv6_family)
      family_cases ipv4_family = inl refl
      family_cases ipv6_family = inr refl

      either_family :
          (x y s l t : Bool)
          → ((x || (s || (l || t))) ≡ true) ⊎ ((y || (s || (l || t))) ≡ true)
          → ((x || (y || (s || l))) || t) ≡ true
      either_family x y s l t h = ground arith

  tunnel_rules-Weighs : a.tunnel ≡ true → Weighs a 13 tunnel_rules
  unfolding tunnel_rules
  tunnel_rules-Weighs h = ground arith

  family_rules-Weighs_loopback : a.loopback ≡ true → Weighs a 13 (family_rules (family_of a.remote))
  family_rules-Weighs_loopback h = ground arith

  heavy :
      (r : Rule)
      → decide all_rules a ≡ r.action
      → 13 ≤ r.weight
      → Reason servers bypass a r
      → decide all_rules a ≡ permit
  unfolding Reason
  heavy r d w why = ground arith

  or_second : (x s l : Bool) → s ≡ true → (x || (s || l)) ≡ true
  or_second x s l h = ground arith

  or_last : (x s l t : Bool) → t ≡ true → (x || (s || (l || t))) ≡ true
  or_last x s l t h = ground arith

  permitted : (a.tunnel || (a.loopback || to_server servers a)) ≡ true → decide all_rules a ≡ permit
  permitted h =
      let p : Rule → Bool = λ r. applies a r && leb 13 r.weight in
      elim (Bool-cases a.tunnel) [
        | inl e ↦ by_weight (
            part 13 (
              or_last (any p (family_rules (family_of a.remote))) (any p (server_rules servers))
                (any p (local_rules bypass)) (any p tunnel_rules) (tunnel_rules-Weighs e)))
        | inr e ↦ elim (Bool-cases a.loopback) [
          | inl l ↦ by_weight (part 13 (rw (family_rules-Weighs_loopback l) refl))
          | inr l ↦
              let to = server_rules-Weighs a servers (rw (e, l) at h) in
              by_weight (
                part 13 (
                  or_second (any p (family_rules (family_of a.remote)))
                    (any p (server_rules servers))
                    (any p (local_rules bypass) || any p tunnel_rules) to))
        ]
      ]
    where
      by_weight : Weighs a 13 all_rules → decide all_rules a ≡ permit
      by_weight some_apply = let (r, d, w, why) = decides 13 some_apply in heavy r d w why

  module _ (out : (a.tunnel || (a.loopback || to_server servers a)) ≡ false) where
    lookup_blocked : is_lookup a ≡ true → decide all_rules a ≡ block
    unfolding Reason
    lookup_blocked h =
        let at = family_rules-Weighs a (family_of a.remote) h refl in
        let (r, d, w, why) = decides 12 (part 12 (ground arith)) in ground arith

    module _ (no_lookup : is_lookup a ≡ false) where
      ipv4_permitted : family_of a.remote ≡ ipv4_family → decide all_rules a ≡ permit
      unfolding decide Reason
      ipv4_permitted four = elim (Option-cases (highest a all_rules)) [
        | inl e ↦ rw (decide, e) refl
        | inr (r, e) ↦
            let why =
              highest-All (Reason servers bypass a) a all_rules r
                (all_rules-Reason a servers bypass) e in
            let decided : decide all_rules a ≡ r.action = rw (decide, e) refl in ground arith
      ]

      local_permitted : (stays_local a || bypassed bypass a) ≡ true → decide all_rules a ≡ permit
      unfolding Reason
      local_permitted h =
          let at = local_rules-Weighs_11 a bypass h in
          let (r, d, w, why) = decides 11 (part 11 (ground arith)) in ground arith

      ipv6_blocked :
          family_of a.remote ≡ ipv6_family
          → (stays_local a || bypassed bypass a) ≡ false
          → decide all_rules a ≡ block
      unfolding Reason
      ipv6_blocked six h =
          let at = local_rules-Weighs_10 a bypass six in
          let (r, d, w, why) = decides 10 (part 10 (ground arith)) in ground arith

  -- The rules decide every attempt as the policy: the tunnel, loopback and Ket's servers are reached;
  -- other name lookups are blocked, to whatever address; other IPv4 is left to the routes; and
  -- other IPv6 stays on the local link or goes to the networks kept outside the tunnel.
  pub decide-policy : decide (base_rules servers bypass ++ tunnel_rules) a ≡ policy servers bypass a
  unfolding policy
  decide-policy = elim (Bool-cases (a.tunnel || (a.loopback || to_server servers a))) [
    | inl e ↦ rw (policy, e) (permitted e)
    | inr e ↦ elim (Bool-cases (is_lookup a)) [
      | inl l ↦ rw (policy, e, l) (lookup_blocked e l)
      | inr l ↦ elim (Bool-cases (holds (Family-discrete (family_of a.remote) ipv4_family))) [
        | inl four ↦ rw (policy, e, l, four) (ipv4_permitted e l (ground arith))
        | inr six ↦ elim (Bool-cases (stays_local a || bypassed bypass a)) [
          | inl b ↦ rw (policy, e, l, six, b) (local_permitted e l b)
          | inr b ↦ rw (policy, e, l, six, b) (ipv6_blocked e l (ground arith) b)
        ]
      ]
    ]
  ]

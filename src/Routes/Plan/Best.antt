-- ===== src/Routes/Plan/Best.antt =====
-- The way of a destination: the best physical route of its family, never the tunnel.
use ket.Common.{
  ◌≡◌, ◌≢◌, ◌⊎◌, refl, subst, arith, Bool, true, false, List, [], ◌∷◌, none, some, Text, inl, inr,
  Bool-cases, All, All-mono, any, retain, holds,
}
use ket.Routes.Prefix.{IpPrefix}
use ket.Routes.Plan.{
  family_of, DefaultRoute, DefaultRoute-discrete, via, unreachable, cheaper, physical, least,
  best_default, desired,
}

-- The route is one of the list.
abbrev pub listed : DefaultRoute → List DefaultRoute → Bool
listed r routes = any (λ s. holds (DefaultRoute-discrete s r)) routes

least-cases :
    (routes : List DefaultRoute)
    → ((least routes ≡ none) × (routes ≡ []))
      ⊎ ((r : DefaultRoute) × (least routes ≡ some r)
          × (listed r routes ≡ true)
          × All (λ s. cheaper r s ≡ true) routes)
unfolding least DefaultRoute-discrete
least-cases [] = inl (refl, refl)
least-cases (s ∷ routes) = elim (least-cases routes) [
  | inl (e, empty) ↦ inr (s, rw e refl, ground arith, rw empty (ground arith, tt))
  | inr (r, e, there, low) ↦ elim (Bool-cases (cheaper s r)) [
    | inl c ↦ inr (
      s,
      rw (e, c) refl,
      ground arith,
      (ground arith, All-mono (λ t h. cheaper_trans s r t c h) routes low),
    )
    | inr c ↦ inr (r, rw (e, c) refl, ground arith, (ground arith, low))
  ]
]
  where
    cheaper_trans :
        (r s t : DefaultRoute) → cheaper r s ≡ true → cheaper s t ≡ true → cheaper r t ≡ true
    cheaper_trans r s t h k = ground arith

listed-retain :
    (p : DefaultRoute → Bool) (r : DefaultRoute) (routes : List DefaultRoute)
    → listed r (retain p routes) ≡ true
    → (listed r routes ≡ true) × (p r ≡ true)
listed-retain p r [] h = absurd (cc)
listed-retain p r (s ∷ routes) h = elim (Bool-cases (p s)) [
  | inl e ↦ elim (DefaultRoute-discrete s r) [
    | yes same ↦ (ground arith, subst (λ x. p x ≡ true) same e)
    | no n ↦ let (a, b) = listed-retain p r routes (ground arith) in (ground arith, b)
  ]
  | inr e ↦ let (a, b) = listed-retain p r routes (rw e at h) in (ground arith, b)
]

retain_empty :
    (p : DefaultRoute → Bool) (routes : List DefaultRoute)
    → retain p routes ≡ []
    → All (λ s. p s ≡ false) routes
retain_empty p [] h = tt
retain_empty p (s ∷ routes) h = elim (Bool-cases (p s)) [
  | inl e ↦ absurd (cc (rw e at h))
  | inr e ↦ (e, retain_empty p routes (rw e at h))
]

-- The way of a destination is a default route of the table, of the destination's family, outside
-- the tunnel's interface, with no cheaper one among those; or there is none, and it is unreachable.
pub desired-cases :
    (routes : List DefaultRoute) (tunnel_interface : Text) (d : IpPrefix)
    → ((r : DefaultRoute) × (desired routes tunnel_interface d ≡ via r)
        × (listed r routes ≡ true)
        × (r.family ≡ family_of d.address)
        × (r.interface ≢ tunnel_interface)
        × All
            (λ s. cheaper r s ≡ true)
            (retain (physical (family_of d.address) tunnel_interface) routes))
      ⊎ ((desired routes tunnel_interface d ≡ unreachable)
          × All (λ s. physical (family_of d.address) tunnel_interface s ≡ false) routes)
unfolding desired best_default
desired-cases routes tunnel_interface d =
    let p = physical (family_of d.address) tunnel_interface in
    elim (least-cases (retain p routes)) [
      | inl (e, empty) ↦ inr (rw (desired, best_default, e) refl, retain_empty p routes empty)
      | inr (r, e, there, low) ↦
          let (in_table, passes) = listed-retain p r routes there in
          inl (r, rw (desired, best_default, e) refl, in_table, ground arith, ground arith, low)
    ]

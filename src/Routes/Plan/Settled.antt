-- ===== src/Routes/Plan/Settled.antt =====
-- Once its actions are applied, a plan has nothing left to do.
use ket.Common.{
  ◌≡◌, ◌≢◌, ◌⊎◌, refl, sym, subst, ◌∙◌, arith, if◌then◌else◌, List, [], ◌∷◌, Option, none, some,
  Text, inl, inr, Bool-cases, Option-cases, All, Map, lookup, Ascending, insert-Ascending,
  remove-Ascending, lookup-insert_same, lookup-insert_other, lookup-remove_same,
  lookup-remove_other,
}
use ket.Routes.Prefix.{IpPrefix, IpPrefix-discrete, IpPrefix-Key}
use ket.Routes.Plan.{
  DefaultRoute, OnLinkNetwork, ServerPath, ServerPath-discrete, RouteAction, install, uninstall,
  attached, desired, action_for, plan, note_action,
}

-- The routes applied after some actions in a row.
pub note_actions : Map IpPrefix ServerPath → List RouteAction → Map IpPrefix ServerPath
note_actions applied [] = applied
note_actions applied (a ∷ actions) = note_actions (note_action applied a) actions

acted_by : Map IpPrefix ServerPath → Option RouteAction → Map IpPrefix ServerPath
acted_by now none = now
acted_by now (some a) = note_action now a

module _ (routes : List DefaultRoute) (on_link : List OnLinkNetwork) (tunnel_interface : Text) where
  -- The route that a destination is to have.
  pub wanted : IpPrefix → Option ServerPath
  wanted d =
      if attached on_link tunnel_interface d then none else some (desired routes tunnel_interface d)

  -- What the plan does about a destination.
  action_for-cases :
      (applied : Map IpPrefix ServerPath) (d : IpPrefix)
      → ((action_for routes on_link applied tunnel_interface d ≡ none)
          × (lookup d applied ≡ wanted d))
        ⊎ (((path : ServerPath) × (action_for routes on_link applied tunnel_interface d
                ≡ some (install d path (lookup d applied)))
              × (wanted d ≡ some path))
            ⊎ ((path : ServerPath) × (action_for routes on_link applied tunnel_interface d
                  ≡ some (uninstall d path))
                × (wanted d ≡ none)))
  unfolding wanted action_for
  action_for-cases applied d = elim (Bool-cases (attached on_link tunnel_interface d)) [
    | inl near ↦ elim (Option-cases (lookup d applied)) [
      | inl e ↦ inl (rw (action_for, near, e) refl, rw (near, e) refl)
      | inr (path, e) ↦ inr (inr (path, rw (action_for, near, e) refl, rw near refl))
    ]
    | inr far ↦ elim (Option-cases (lookup d applied)) [
      | inl e ↦
          inr (inl (desired routes tunnel_interface d, rw (action_for, far, e) refl, rw far refl))
      | inr (path, e) ↦ elim (ServerPath-discrete path (desired routes tunnel_interface d)) [
        | yes same ↦ inl (rw (action_for, far, e) (ground arith), rw (far, e) (ground arith))
        | no other ↦ inr (
            inl (
              desired routes tunnel_interface d,
              rw (action_for, far, e) (ground arith),
              rw far refl,
            ))
      ]
    ]
  ]

  -- What the action for a destination, if there is one, does to the routes.
  acted : Map IpPrefix ServerPath → Map IpPrefix ServerPath → IpPrefix → Map IpPrefix ServerPath
  acted applied now d = acted_by now (action_for routes on_link applied tunnel_interface d)

  note_actions-plan :
      (applied now : Map IpPrefix ServerPath) (d : IpPrefix) (ds : List IpPrefix)
      → note_actions now (plan routes on_link (d ∷ ds) applied tunnel_interface)
        ≡ note_actions (acted applied now d) (plan routes on_link ds applied tunnel_interface)
  unfolding note_actions plan acted acted_by
  note_actions-plan applied now d ds =
      elim (Option-cases (action_for routes on_link applied tunnel_interface d)) [
        | inl e ↦ rw (plan, e) refl
        | inr (a, e) ↦ rw (plan, e) refl
      ]

  -- A route is as it was, or as it is to be.
  abbrev OnTheWay : Map IpPrefix ServerPath → Map IpPrefix ServerPath → IpPrefix → Type 0
  OnTheWay applied now d = (lookup d now ≡ lookup d applied) ⊎ (lookup d now ≡ wanted d)

  acted-lookup :
      (applied now : Map IpPrefix ServerPath) (d : IpPrefix)
      → Ascending now
      → OnTheWay applied now d
      → (lookup d (acted applied now d) ≡ wanted d)
        × ((e : IpPrefix) → e ≢ d → lookup e (acted applied now d) ≡ lookup e now)
        × Ascending (acted applied now d)
  unfolding note_action acted acted_by
  acted-lookup applied now d up from = elim (action_for-cases applied d) [
    | inl (none_left, set) ↦ rw none_left (settled from set, λ e n. refl, up)
    | inr (inl (path, at, is)) ↦ rw at (
      lookup-insert_same d path now ∙ sym is,
      λ e n. lookup-insert_other d e path now n,
      insert-Ascending d path now up,
    )
    | inr (inr (path, at, is)) ↦ rw at (
      lookup-remove_same d now up ∙ sym is,
      λ e n. lookup-remove_other d e now n,
      remove-Ascending d now up,
    )
  ]
    where
      settled : OnTheWay applied now d → lookup d applied ≡ wanted d → lookup d now ≡ wanted d
      settled (inl same) set = same ∙ set
      settled (inr done) set = done

  settles :
      (applied : Map IpPrefix ServerPath) (destinations : List IpPrefix)
      (now : Map IpPrefix ServerPath)
      → Ascending now
      → ((d : IpPrefix) → OnTheWay applied now d)
      → All
          (λ d.
            lookup d (note_actions now (plan routes on_link destinations applied tunnel_interface))
            ≡ wanted d)
          destinations
        × ((d : IpPrefix)
            → lookup d now ≡ wanted d
            → lookup d
                (note_actions now (plan routes on_link destinations applied tunnel_interface))
              ≡ wanted d)
  unfolding plan note_actions
  settles applied [] now up from = (tt, λ d set. set)
  settles applied (d ∷ ds) now up from =
      let (set, others, up') = acted-lookup applied now d up (from d) in
      let (all_set, stay) = settles applied ds (acted applied now d) up' (further set others) in
      let next = note_actions-plan applied now d ds in
      (
        (rw next (stay d set), subst (λ m. All (λ x. lookup x m ≡ wanted x) ds) (sym next) all_set),
        λ e at. rw next (stay e (kept e set others at)),
      )
    where
      further :
          lookup d (acted applied now d) ≡ wanted d
          → ((e : IpPrefix) → e ≢ d → lookup e (acted applied now d) ≡ lookup e now)
          → (e : IpPrefix) → OnTheWay applied (acted applied now d) e
      further set others e = elim (IpPrefix-discrete e d) [
        | yes same ↦ inr (subst (λ x. lookup x (acted applied now d) ≡ wanted x) (sym same) set)
        | no n ↦ elim (from e) [ inl f ↦ inl (others e n ∙ f) | inr f ↦ inr (others e n ∙ f) ]
      ]

      kept :
          (e : IpPrefix)
          → lookup d (acted applied now d) ≡ wanted d
          → ((e : IpPrefix) → e ≢ d → lookup e (acted applied now d) ≡ lookup e now)
          → lookup e now ≡ wanted e
          → lookup e (acted applied now d) ≡ wanted e
      kept e set others at = elim (IpPrefix-discrete e d) [
        | yes same ↦ subst (λ x. lookup x (acted applied now d) ≡ wanted x) (sym same) set
        | no n ↦ others e n ∙ at
      ]

  action_for-wanted :
      (applied : Map IpPrefix ServerPath) (d : IpPrefix)
      → lookup d applied ≡ wanted d
      → action_for routes on_link applied tunnel_interface d ≡ none
  unfolding wanted action_for ServerPath-discrete
  action_for-wanted applied d set = elim (Bool-cases (attached on_link tunnel_interface d)) [
    | inl near ↦ let gone = rw near at set in rw (action_for, near, gone) refl
    | inr far ↦ let there = rw far at set in rw (action_for, far, there) (ground arith)
  ]

  plan_settled :
      (applied : Map IpPrefix ServerPath) (destinations : List IpPrefix)
      → All (λ d. lookup d applied ≡ wanted d) destinations
      → plan routes on_link destinations applied tunnel_interface ≡ []
  unfolding plan
  plan_settled applied [] h = refl
  plan_settled applied (d ∷ ds) (h, hs) =
      rw (plan, action_for-wanted applied d h) (plan_settled applied ds hs)

  -- Once the actions of a plan are applied in order, every destination has the route that it is to
  -- have, or none where the device is attached to its network, and a new plan has no action.
  pub plan-note_actions :
      (applied : Map IpPrefix ServerPath) (destinations : List IpPrefix)
      → Ascending applied
      → All
          (λ d.
            lookup d
              (note_actions applied (plan routes on_link destinations applied tunnel_interface))
            ≡ wanted d)
          destinations
        × (plan routes on_link destinations
              (note_actions applied (plan routes on_link destinations applied tunnel_interface))
              tunnel_interface
            ≡ [])
  plan-note_actions applied destinations up =
      let (set, stay) = settles applied destinations applied up (λ d. inl refl) in
      (
        set,
        plan_settled
            (note_actions applied (plan routes on_link destinations applied tunnel_interface))
            destinations set,
      )

-- ===== src/Routes/Plan/Keeper/Tracks.antt =====
-- The keeper knows what is in the routing table, and takes all of it out again.
use ket.Common.{
  ◌≡◌, ◌≢◌, ◌⊎◌, refl, sym, subst, arith, Bool, true, false, ◌||◌, List, [], ◌∷◌, none, some, Text,
  inl, inr, Bool-cases, Option-cases, All, lookup, remove, remove-Ascending,
}
use ket.Routes.Prefix.{IpPrefix, IpPrefix-Key}
use ket.Routes.Plan.{ServerPath, RouteAction, uninstall, plan, release, note_action}
use ket.Routes.Plan.Keeper.{
  Outcome, done, refused, half_done, RouteAnswers, KeeperState, Table, apply_action, carry_out,
  follow, moves, refresh, apply_each, release_routes, new_state, engage_with,
}
use ket.Routes.Plan.Keeper.Known.{
  Known, done-note_action, refused-apply_action, kept_route, done-Known, half_done-Known,
}

outcome-cases : (o : Outcome) → (o ≡ done) ⊎ ((o ≡ refused) ⊎ (o ≡ half_done))
outcome-cases done = inl refl
outcome-cases refused = inr (inl refl)
outcome-cases half_done = inr (inr refl)

module _ (outcome : RouteAction → Outcome) where
  carry_out-Known :
      (actions : List RouteAction) (applied table : Table) (moved : Bool)
      → Known applied table
      → Known
          (carry_out outcome actions table applied moved).1
          (carry_out outcome actions table applied moved).0
  unfolding carry_out
  carry_out-Known [] applied table moved k = k
  carry_out-Known (a ∷ actions) applied table moved k = elim (outcome-cases (outcome a)) [
    | inl e ↦ rw e (
        carry_out-Known actions (note_action applied a) (apply_action table a done)
          (moved || moves a) (done-Known a applied table k))
    | inr (inl e) ↦ rw e (subst (Known applied) (sym (refused-apply_action table a)) k)
    | inr (inr e) ↦ rw e (half_done-Known a applied table k)
  ]

  carry_out-tracks :
      (actions : List RouteAction) (table : Table) (moved : Bool)
      → ((a : RouteAction) → outcome a ≢ half_done)
      → (carry_out outcome actions table table moved).1
        ≡ (carry_out outcome actions table table moved).0
  unfolding carry_out
  carry_out-tracks [] table moved whole = refl
  carry_out-tracks (a ∷ actions) table moved whole = elim (outcome-cases (outcome a)) [
    | inl e ↦
        rw (e, done-note_action table a)
          (carry_out-tracks actions (note_action table a) (moved || moves a) whole)
    | inr (inl e) ↦ rw e (sym (refused-apply_action table a))
    | inr (inr e) ↦ absurd (whole a e)
  ]

-- What the loop over any actions keeps, a refresh keeps.
module _ (P : Table → Table → Type 0) (answers : RouteAnswers) (state : KeeperState) (table : Table)
    (start : P state.applied table)
    (keeps : (actions : List RouteAction)
      → P
          (carry_out answers.outcome actions table state.applied false).1
          (carry_out answers.outcome actions table state.applied false).0) where
  follow-keeps :
      (actions : List RouteAction)
      → P
          (follow answers.outcome actions state table).0.applied
          (follow answers.outcome actions state table).1
  unfolding follow
  follow-keeps actions =
      elim (Bool-cases (carry_out answers.outcome actions table state.applied false).3) [
        | inl e ↦ rw e (keeps actions)
        | inr e ↦ rw e (keeps actions)
      ]

  refresh-keeps : P (refresh answers state table).0.applied (refresh answers state table).1
  unfolding refresh
  refresh-keeps = elim (Option-cases answers.default_routes) [
    | inl e ↦ rw e start
    | inr (routes, e) ↦ elim (Option-cases answers.on_link_networks) [
      | inl f ↦ rw (e, f) start
      | inr (on_link, f) ↦
          rw (e, f)
            (follow-keeps
              (plan routes on_link state.destinations state.applied state.tunnel_interface))
    ]
  ]

-- Where every action works or changes nothing, a keeper whose routes applied are those in the table
-- has, after a refresh, those in the table again, also where the refresh fails halfway.
pub refresh-tracks :
    (answers : RouteAnswers) (state : KeeperState) (table : Table)
    → ((a : RouteAction) → answers.outcome a ≢ half_done)
    → state.applied ≡ table
    → (refresh answers state table).0.applied ≡ (refresh answers state table).1
refresh-tracks answers state table whole same =
    refresh-keeps (λ applied t. applied ≡ t) answers state table same
      (λ actions.
        subst
          (λ t.
            (carry_out answers.outcome actions t state.applied false).1
            ≡ (carry_out answers.outcome actions t state.applied false).0)
          same (carry_out-tracks answers.outcome actions state.applied false whole))

-- Whatever becomes of the actions, a keeper that knows each of Ket's routes in the table knows each
-- after a refresh, also where an action fails and the route that it replaces is gone already.
pub refresh-Known :
    (answers : RouteAnswers) (state : KeeperState) (table : Table)
    → Known state.applied table
    → Known (refresh answers state table).0.applied (refresh answers state table).1
refresh-Known answers state table k =
    refresh-keeps Known answers state table k
      (λ actions. carry_out-Known answers.outcome actions state.applied table false k)

Known-nil : (table : Table) → Known [] table → table ≡ []
Known-nil [] k = refl
Known-nil (e ∷ table) k =
    let first : lookup e.0 (e ∷ table) ≡ some e.1 = ground arith in
    absurd (cc (k.known e.0 e.1 first))

-- Once the first route is out of the table, the keeper need not know it.
tail-Known :
    (e : IpPrefix × ServerPath) (m table : Table) → Known (e ∷ m) table → Known m (remove e.0 table)
tail-Known e m table k = record {
  known = λ x q at. let (other, listed) = kept_route e.0 x q (e ∷ m) table k at in ground arith;
  ascending = remove-Ascending e.0 table k.ascending;
}

apply_action-uninstall :
    (d : IpPrefix) (p : ServerPath) (table : Table)
    → apply_action table (uninstall d p) done ≡ remove d table
unfolding apply_action
apply_action-uninstall d p table = refl

apply_each-release :
    (outcome : RouteAction → Outcome) (applied table : Table)
    → All (λ a. outcome a ≡ done) (release applied)
    → Known applied table
    → apply_each outcome (release applied) table ≡ []
unfolding apply_each release
apply_each-release outcome [] table h k = Known-nil table k
apply_each-release outcome (e ∷ m) table (h, hs) k =
    rw (apply_each, h, apply_action-uninstall e.0 e.1 table)
      (apply_each-release outcome m (remove e.0 table) hs (tail-Known e m table k))

All-release :
    (outcome : RouteAction → Outcome) (applied : Table)
    → ((destination : IpPrefix) (path : ServerPath) → outcome (uninstall destination path) ≡ done)
    → All (λ a. outcome a ≡ done) (release applied)
unfolding release
All-release outcome [] h = tt
All-release outcome (e ∷ m) h = (h e.0 e.1, All-release outcome m h)

-- Where removals work, a keeper that knows each of Ket's routes in the table takes all of them out when
-- it is dropped, and knows of none.
pub release_routes-clears :
    (outcome : RouteAction → Outcome) (state : KeeperState) (table : Table)
    → Known state.applied table
    → All (λ a. outcome a ≡ done) (release state.applied)
    → ((release_routes outcome state table).0.applied ≡ [])
      × ((release_routes outcome state table).1 ≡ [])
unfolding release_routes
release_routes-clears outcome state table k h =
    (refl, apply_each-release outcome state.applied table h k)

-- Where removals work, a keeper that cannot engage leaves no route behind.
pub engage_with-refused :
    (answers : RouteAnswers) (destinations : List IpPrefix) (tunnel_interface : Text)
    (stale : Table)
    → ((destination : IpPrefix) (path : ServerPath)
        → answers.outcome (uninstall destination path) ≡ done)
    → (engage_with answers true destinations tunnel_interface stale).0 ≡ none
    → (engage_with answers true destinations tunnel_interface stale).1 ≡ []
unfolding engage_with
engage_with-refused answers destinations tunnel_interface stale removes failed =
    let state = new_state destinations tunnel_interface in
    let k = refresh-Known answers state [] (record { known = λ d p e. e; ascending = tt }) in
    elim (Bool-cases (refresh answers state []).2) [
      | inl e ↦ absurd (cc (rw e at failed))
      | inr e ↦
          let (a, b) =
            release_routes-clears answers.outcome (refresh answers state []).0
              (refresh answers state []).1 k
              (All-release answers.outcome (refresh answers state []).0.applied removes) in
          rw e b
    ]

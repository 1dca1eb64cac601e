-- ===== src/Routes/Plan/Keeper.antt =====
-- `KeeperState` of crates/ket-client-core/src/route_keeper/mod.rs. What the routing table answers is
-- an input of a call. An action that fails leaves the table as it was, or, as on Windows, has already
-- taken out the route that it was to replace.
pub mod Known
pub mod Tracks
use ket.Common.{
  ℕ, ◌+◌, Bool, true, false, not, ◌&&◌, ◌||◌, List, [], ◌∷◌, ◌++◌, Option, none, some, Text,
  if◌then◌else◌, holds, any, all, map, Map, insert, remove, is_empty,
}
use ket.Server.Validate.{is_some}
use ket.Net.{IpAddr}
use ket.Routes.Prefix.{IpPrefix, IpPrefix-discrete, IpPrefix-Key, host}
use ket.Routes.Plan.{
  DefaultRoute, OnLinkNetwork, ServerPath, via, unreachable, RouteAction, install, uninstall, plan,
  release, note_action,
}

pub record NetworkReport : Type 0 where
  pub generation : ℕ
  pub offline : Bool

pub record KeeperState : Type 0 where
  pub destinations : List IpPrefix
  pub tunnel_interface : Text
  pub applied : Map IpPrefix ServerPath
  pub report : NetworkReport

-- What becomes of an action: it works, it changes nothing, or only the route it replaces is gone.
pub data Outcome : Type 0 where
  done refused half_done : Outcome

abbrev pub works : Outcome → Bool
works done = true
works refused = false
works half_done = false

-- What the routing table answers in one call: none is an error.
pub record RouteAnswers : Type 0 where
  pub default_routes : Option (List DefaultRoute)
  pub on_link_networks : Option (List OnLinkNetwork)
  pub outcome : RouteAction → Outcome

-- The routes of Ket in the routing table.
abbrev pub Table : Type 0
Table = Map IpPrefix ServerPath

-- `RouteSystem::apply`: on Windows a route that is replaced is deleted before the new one is made.
unfoldable pub apply_action : Table → RouteAction → Outcome → Table
apply_action table (install destination path replacing) done = insert destination path table
apply_action table (install destination path (some previous)) half_done = remove destination table
apply_action table (install destination path none) half_done = table
apply_action table (install destination path replacing) refused = table
apply_action table (uninstall destination path) done = remove destination table
apply_action table (uninstall destination path) half_done = table
apply_action table (uninstall destination path) refused = table

abbrev pub moves : RouteAction → Bool
moves (install destination path replacing) = is_some replacing
moves (uninstall destination path) = true

-- The loop of `refresh`: the table, the routes applied, whether one moved, and whether all worked.
unfoldable pub carry_out :
    (RouteAction → Outcome)
    → List RouteAction
    → Table
    → Map IpPrefix ServerPath
    → Bool
    → Table × Map IpPrefix ServerPath × Bool × Bool
unfolding note_action apply_action
carry_out outcome [] table applied moved = (table, applied, moved, true)
carry_out outcome (a ∷ actions) table applied moved =
    let table' = apply_action table a (outcome a) in
    let rest = carry_out outcome actions table' (note_action applied a) (moved || moves a) in
    if works (outcome a) then rest else (table', applied, moved, false)

abbrev is_unreachable : ServerPath → Bool
is_unreachable (via r) = false
is_unreachable unreachable = true

-- `offline` and the report that follows from it.
unfoldable pub next_report : Map IpPrefix ServerPath → Bool → NetworkReport → NetworkReport
next_report applied moved report = record {
  generation = report.generation + (if moved then 1 else 0);
  offline = not (is_empty applied) && all (λ e. is_unreachable e.1) applied;
}

-- `refresh` from the plan on.
unfoldable pub follow :
    (RouteAction → Outcome) → List RouteAction → KeeperState → Table → KeeperState × Table × Bool
unfolding carry_out next_report
follow outcome actions state table =
    let (table', applied, moved, worked) = carry_out outcome actions table state.applied false in
    if worked
    then (
      record state { applied = applied; report = next_report applied moved state.report },
      table',
      true,
    )
    else (record state { applied = applied }, table', false)

-- `KeeperState::refresh`: the state, the table, and whether it succeeded. An error leaves what was
-- applied before it, and the report.
unfoldable pub refresh : RouteAnswers → KeeperState → Table → KeeperState × Table × Bool
unfolding plan follow
refresh answers state table = elim answers.default_routes [
  | none ↦ (state, table, false)
  | some routes ↦ elim answers.on_link_networks [
    | none ↦ (state, table, false)
    | some on_link ↦
        follow answers.outcome
          (plan routes on_link state.destinations state.applied state.tunnel_interface) state table
  ]
]

unfoldable pub apply_each : (RouteAction → Outcome) → List RouteAction → Table → Table
unfolding apply_action
apply_each outcome [] table = table
apply_each outcome (a ∷ actions) table =
    apply_each outcome actions (apply_action table a (outcome a))

-- `release`
unfoldable pub release_routes : (RouteAction → Outcome) → KeeperState → Table → KeeperState × Table
unfolding release apply_each
release_routes outcome state table =
    (record state { applied = [] }, apply_each outcome (release state.applied) table)

-- `destinations`
unfoldable pub add_bypass : List IpPrefix → List IpPrefix → List IpPrefix
unfolding IpPrefix-discrete
add_bypass destinations [] = destinations
add_bypass destinations (p ∷ bypass) =
    if any (λ d. holds (IpPrefix-discrete d p)) destinations
    then add_bypass destinations bypass
    else add_bypass (destinations ++ p ∷ []) bypass

unfoldable pub destinations_of : List IpAddr → List IpPrefix → List IpPrefix
unfolding add_bypass
destinations_of servers bypass = add_bypass (map host servers) bypass

abbrev pub new_state : List IpPrefix → Text → KeeperState
new_state destinations tunnel_interface = record {
  destinations = destinations;
  tunnel_interface = tunnel_interface;
  applied = [];
  report = record { generation = 0; offline = false };
}

-- `RouteKeeper::engage_with` up to the later refreshes: the state if it engaged, and the table.
-- `cleared` says that the routes a process before left behind, `stale`, were removed.
unfoldable pub engage_with :
    RouteAnswers → Bool → List IpPrefix → Text → Table → Option KeeperState × Table
unfolding refresh release_routes
engage_with answers cleared destinations tunnel_interface stale =
    let (state, table, worked) = refresh answers (new_state destinations tunnel_interface) [] in
    if cleared
    then (if worked
        then (some state, table)
        else (none, (release_routes answers.outcome state table).1))
    else (none, stale)

-- ===== src/Routes/Plan.antt =====
-- Which way each destination outside the tunnel leaves the device, and how the keeper follows it:
-- crates/ket-client-core/src/route_keeper, plan.rs and the state of mod.rs.
pub mod Best
pub mod Settled
pub mod Keeper
use mathlib.Core.Option
use ket.Common.{
  ℕ, ◌+◌, Bool, true, false, not, ◌&&◌, ◌||◌, List, [], ◌∷◌, ◌++◌, Option, none, some, Text, ltb,
  leb, ◌==◌, if◌then◌else◌, holds, any, all, retain, map, same_text, Text-discrete, Map, lookup,
  insert, remove, is_empty, ℕ_discrete,
}
use ket.Net.{IpAddr, v4, v6, IpAddr-discrete}
use ket.Routes.Prefix.{IpPrefix, IpPrefix-discrete, IpPrefix-Key, contains, host}

pub data Family : Type 0 where
  ipv4_family ipv6_family : Family

unfoldable pub Family-discrete : Discrete Family
Family-discrete = hlevel

-- `Family::of`
abbrev pub family_of : IpAddr → Family
family_of (v4 a) = ipv4_family
family_of (v6 a) = ipv6_family

pub record DefaultRoute : Type 0 where
  pub family : Family
  pub interface : Text
  pub interface_index : ℕ
  pub gateway : Option IpAddr
  pub metric : ℕ

unfoldable pub OptionIpAddr-discrete : Discrete (Option IpAddr)
unfolding IpAddr-discrete
OptionIpAddr-discrete = hlevel IpAddr-discrete

unfoldable pub DefaultRoute-discrete : Discrete DefaultRoute
unfolding Family-discrete Text-discrete OptionIpAddr-discrete ℕ_discrete
DefaultRoute-discrete = hlevel (Family-discrete, Text-discrete, OptionIpAddr-discrete, ℕ_discrete)

pub record OnLinkNetwork : Type 0 where
  pub prefix : IpPrefix
  pub interface : Text

pub data ServerPath : Type 0 where
  via : DefaultRoute → ServerPath
  unreachable : ServerPath

unfoldable pub ServerPath-discrete : Discrete ServerPath
unfolding DefaultRoute-discrete
ServerPath-discrete = hlevel DefaultRoute-discrete

pub data RouteAction : Type 0 where
  install : IpPrefix → ServerPath → Option ServerPath → RouteAction
  uninstall : IpPrefix → ServerPath → RouteAction

-- The key of the least: `(route.metric, route.interface_index)`.
abbrev pub cheaper : DefaultRoute → DefaultRoute → Bool
cheaper r s =
    ltb r.metric s.metric || (r.metric == s.metric && leb r.interface_index s.interface_index)

abbrev pub physical : Family → Text → DefaultRoute → Bool
physical family tunnel_interface r =
    holds (Family-discrete r.family family) && not (same_text r.interface tunnel_interface)

-- `min_by_key`: of the least the first.
unfoldable pub least : List DefaultRoute → Option DefaultRoute
least [] = none
least (r ∷ rs) = elim (least rs) [ none ↦ some r | some s ↦ if cheaper r s then some r else some s ]

-- `best_default`
unfoldable pub best_default : List DefaultRoute → Family → Text → Option DefaultRoute
unfolding least Family-discrete
best_default routes family tunnel_interface =
    least (retain (physical family tunnel_interface) routes)

-- The destination lies in a network that the device is attached to.
unfoldable pub attached : List OnLinkNetwork → Text → IpPrefix → Bool
unfolding contains
attached on_link tunnel_interface destination =
    any
      (λ n.
        not (same_text n.interface tunnel_interface)
        && ltb 0 n.prefix.length
        && contains n.prefix destination)
      on_link

abbrev path_of : Option DefaultRoute → ServerPath
path_of none = unreachable
path_of (some r) = via r

-- `desired`: the current default route of the destination's family.
unfoldable pub desired : List DefaultRoute → Text → IpPrefix → ServerPath
unfolding best_default
desired routes tunnel_interface destination =
    path_of (best_default routes (family_of destination.address) tunnel_interface)

abbrev is_path : Option ServerPath → ServerPath → Bool
is_path none path = false
is_path (some p) path = holds (ServerPath-discrete p path)

-- The closure of `plan`.
unfoldable pub action_for :
    List DefaultRoute
    → List OnLinkNetwork
    → Map IpPrefix ServerPath
    → Text
    → IpPrefix
    → Option RouteAction
unfolding attached desired ServerPath-discrete
action_for routes on_link applied tunnel_interface destination =
    if attached on_link tunnel_interface destination
    then Option.map (uninstall destination) (lookup destination applied)
    else (if is_path (lookup destination applied) (desired routes tunnel_interface destination)
        then none
        else some (
            install destination (desired routes tunnel_interface destination)
              (lookup destination applied)))

-- `plan`
unfoldable pub plan :
    List DefaultRoute
    → List OnLinkNetwork
    → List IpPrefix
    → Map IpPrefix ServerPath
    → Text
    → List RouteAction
unfolding action_for
plan routes on_link [] applied tunnel_interface = []
plan routes on_link (d ∷ ds) applied tunnel_interface =
    let rest = plan routes on_link ds applied tunnel_interface in
    elim (action_for routes on_link applied tunnel_interface d) [ none ↦ rest | some a ↦ a ∷ rest ]

-- `plan::release`
unfoldable pub release : Map IpPrefix ServerPath → List RouteAction
release applied = map (λ e. uninstall e.0 e.1) applied

-- What one action does to the routes applied: the match in `KeeperState::refresh`.
unfoldable pub note_action : Map IpPrefix ServerPath → RouteAction → Map IpPrefix ServerPath
note_action applied (install destination path replacing) = insert destination path applied
note_action applied (uninstall destination path) = remove destination applied

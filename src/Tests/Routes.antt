-- ===== src/Tests/Routes.antt =====
-- Networks outside the tunnel, the routes to them, and what the leak guard decides.
use ket.Common.{
  arith, ◌≡◌, ◌≢◌, ◌≤◌, ◌⊎◌, ◌++◌, refl, true, false, [], ◌∷◌, some, Text, ok, All, lookup, retain,
}
use ket.Net.{v4, ipv4}
use ket.Routes.Prefix.{
  IpPrefix, IpPrefix-discrete, IpPrefix-Key, check_bypass, check_all, new_list, max_bypass_entries,
  dedup, prefix_le, host,
}
use ket.Routes.Prefix.Entries.{Strict, listed, new_list-entries}
use ket.Routes.Plan.{
  RouteAction, DefaultRoute, OnLinkNetwork, ipv4_family, via, unreachable, install, uninstall, plan,
  desired, cheaper, physical, family_of,
}
use ket.Routes.Plan.Settled.{note_actions, wanted, plan-note_actions}
use ket.Routes.Plan.Best.{desired-cases}
use ket.Routes.Plan.Keeper.{
  RouteAnswers, done, refused, half_done, KeeperState, new_state, refresh, apply_action,
  engage_with,
}
use ket.Routes.Plan.Keeper.Known.{Known}
use ket.Routes.Plan.Keeper.Tracks.{refresh-tracks, refresh-Known, engage_with-refused}
use ket.Guard.{base_rules, tunnel_rules}
use ket.Guard.Decide.{Attempt, decide, policy}
use ket.Guard.Decide.Policy.{decide-policy}

abbrev server : IpPrefix
server = host (v4 (ipv4 203 0 113 5))

abbrev work : IpPrefix
work = record { address = v4 (ipv4 198 51 100 0); length = 24 }

accepts_two : new_list (server ∷ work ∷ server ∷ []) ≡ ok (work ∷ server ∷ [])
unfolding new_list check_all check_bypass dedup prefix_le IpPrefix-discrete
accepts_two = refl

new_list-entries_example :
    Strict (work ∷ server ∷ [])
    × (2 ≤ max_bypass_entries)
    × All (λ q. check_bypass q ≡ ok tt) (work ∷ server ∷ [])
    × ((p : IpPrefix) → listed p (work ∷ server ∷ []) ≡ listed p (server ∷ work ∷ server ∷ []))
new_list-entries_example =
    new_list-entries (server ∷ work ∷ server ∷ []) (work ∷ server ∷ []) accepts_two

abbrev wifi : DefaultRoute
wifi = record {
  family = ipv4_family;
  interface = b'w' ∷ [];
  interface_index = 600;
  gateway = some (v4 (ipv4 192 168 1 1));
  metric = 600;
}

abbrev tunnel : Text
tunnel = b'k' ∷ []

plan-note_actions_example :
    All
      (λ d.
        lookup d (note_actions [] (plan (wifi ∷ []) [] (server ∷ work ∷ []) [] tunnel))
        ≡ wanted (wifi ∷ []) [] tunnel d)
      (server ∷ work ∷ [])
    × (plan
          (wifi ∷ [])
          []
          (server ∷ work ∷ [])
          (note_actions [] (plan (wifi ∷ []) [] (server ∷ work ∷ []) [] tunnel))
          tunnel
        ≡ [])
plan-note_actions_example = plan-note_actions (wifi ∷ []) [] tunnel [] (server ∷ work ∷ []) tt

desired-cases_example :
    ((r : DefaultRoute) × (desired (wifi ∷ []) tunnel server ≡ via r)
      × (ket.Routes.Plan.Best.listed r (wifi ∷ []) ≡ true)
      × (r.family ≡ ipv4_family)
      × (r.interface ≢ tunnel)
      × All (λ s. cheaper r s ≡ true) (retain (physical ipv4_family tunnel) (wifi ∷ [])))
    ⊎ ((desired (wifi ∷ []) tunnel server ≡ unreachable)
        × All (λ s. physical ipv4_family tunnel s ≡ false) (wifi ∷ []))
desired-cases_example = desired-cases (wifi ∷ []) tunnel server

-- A table that answers, and installs nothing.
abbrev stubborn : RouteAnswers
stubborn = record {
  default_routes = some (wifi ∷ []);
  on_link_networks = some [];
  outcome = λ a. elim a [ install d p r ↦ refused | uninstall d p ↦ done ];
}

never_half_done : (a : RouteAction) → stubborn.outcome a ≢ half_done
never_half_done (install d p r) e = ground arith
never_half_done (uninstall d p) e = ground arith

refresh-tracks_example :
    (refresh stubborn (new_state (server ∷ []) tunnel) []).0.applied
    ≡ (refresh stubborn (new_state (server ∷ []) tunnel) []).1
refresh-tracks_example =
    refresh-tracks stubborn (new_state (server ∷ []) tunnel) [] never_half_done refl

-- The network changes, and the route that was to move is taken out but not made again.
abbrev cable : DefaultRoute
cable = record wifi { interface = b'c' ∷ []; metric = 100 }

abbrev breaking : RouteAnswers
breaking = record {
  default_routes = some (cable ∷ wifi ∷ []);
  on_link_networks = some [];
  outcome = λ a. half_done;
}

abbrev over_wifi : KeeperState
over_wifi = record (new_state (server ∷ []) tunnel) { applied = (server, via wifi) ∷ [] }

refresh-Known_example :
    Known
      (refresh breaking over_wifi over_wifi.applied).0.applied
      (refresh breaking over_wifi over_wifi.applied).1
refresh-Known_example =
    refresh-Known breaking over_wifi over_wifi.applied
      (record { known = λ d p e. e; ascending = (tt, tt) })

-- Back on the old network, the keeper does not see that the route is gone.
leaves_it_out :
    ((refresh breaking over_wifi over_wifi.applied).1 ≡ [])
    × (plan
          (wifi ∷ [])
          []
          (server ∷ [])
          (refresh breaking over_wifi over_wifi.applied).0.applied
          tunnel
        ≡ [])
unfolding refresh plan apply_action IpPrefix-discrete IpPrefix-Key
leaves_it_out = (refl, refl)

engage_with-refused_example : (engage_with stubborn true (server ∷ []) tunnel []).1 ≡ []
unfolding engage_with
engage_with-refused_example =
    engage_with-refused stubborn (server ∷ []) tunnel [] (λ d p. refl) refl

abbrev resolver : Attempt
resolver = record { tunnel = false; loopback = false; remote = v4 (ipv4 192 168 1 1); port = 53 }

decide-policy_example : decide (base_rules [] [] ++ tunnel_rules) resolver ≡ policy [] [] resolver
decide-policy_example = decide-policy [] [] resolver

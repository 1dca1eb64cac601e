-- ===== src/Update/Release/Urgency.antt =====
-- The urgency of an update is that of its most urgent release.
use ket.Common.{ℕ, ◌+◌, ◌≤◌, List, [], ◌∷◌, Option, none, some, arith, retain, All, All-mono}
use ket.Update.Release.{
  Version, UpdateCategory, urgency, Release, ReleaseManifest, between, more_urgent, most_urgent,
  ratings, server_update_category,
}

-- The urgency of a rating, above none at all.
abbrev pub urgency_of : Option UpdateCategory → ℕ
urgency_of none = 0
urgency_of (some c) = urgency c + 1

more_urgent-bounds :
    (c best : Option UpdateCategory)
    → (urgency_of c ≤ urgency_of (more_urgent c best))
      × (urgency_of best ≤ urgency_of (more_urgent c best))
more_urgent-bounds c best = ground arith

most_urgent-bounds :
    (cs : List (Option UpdateCategory)) → All (λ o. urgency_of o ≤ urgency_of (most_urgent cs)) cs
unfolding most_urgent
most_urgent-bounds [] = tt
most_urgent-bounds (c ∷ cs) =
    let (own, rest) = more_urgent-bounds c (most_urgent cs) in
    (
      own,
      All-mono (λ o (h : urgency_of o ≤ urgency_of (most_urgent cs)). omega arith) cs
          (most_urgent-bounds cs),
    )

ratings-bounds :
    (bound : ℕ) (rs : List Release)
    → All (λ o. urgency_of o ≤ bound) (ratings rs)
    → All (λ (r : Release). (urgency_of r.server ≤ bound) × (urgency_of r.client ≤ bound)) rs
unfolding ratings
ratings-bounds bound [] h = tt
ratings-bounds bound (r ∷ rs) (a, (b, h)) = ((a, b), ratings-bounds bound rs h)

-- No release after the installed version, up to the target, is rated more urgent for servers or for
-- apps than the update.
pub server_update_category-bounds :
    (m : ReleaseManifest) (installed target : Version)
    → All
        (λ (r : Release).
          (urgency_of r.server ≤ urgency_of (server_update_category m installed target))
          × (urgency_of r.client ≤ urgency_of (server_update_category m installed target)))
        (retain (between installed target) m.releases)
unfolding server_update_category
server_update_category-bounds m installed target =
    let cs = ratings (retain (between installed target) m.releases) in
    ratings-bounds (urgency_of (most_urgent cs)) (retain (between installed target) m.releases)
      (most_urgent-bounds cs)

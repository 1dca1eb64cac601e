-- ===== src/Update/Policy.antt =====
-- crates/ket-update/src/policy.rs: what a server tells an app about its update.
pub mod Rating
use mathlib.Core.Option
use ket.Common.{
  ℕ, ◌+◌, ◌^◌, ◌≡◌, min, saturating_add, Bool, true, false, ◌&&◌, List, [], ◌∷◌, Option, none, some,
  Text, ltb, leb, if◌then◌else◌, retain, Result, ok, err,
}
use ket.Server.Validate.{is_some_and}
use ket.Update.Release.{
  Version, older_than, at_most, ClientIdentity, UpdateCategory, critical, Release, client_rating,
  ReleaseManifest, security_grace_seconds, between,
}

pub data Enforcement : Type 0 where
  enforce warn : Enforcement

-- `ClientUpdateStatus` of crates/ket-core/src/update.rs
pub data ClientUpdateStatus : Type 0 where
  current optional recommended security required : ClientUpdateStatus

-- The order of the constructors, from least to most urgent.
abbrev pub rank : ClientUpdateStatus → ℕ
rank current = 0
rank optional = 1
rank recommended = 2
rank security = 3
rank required = 4

-- The text that an app shows: of the minimum version, or of a release.
pub data Summary : Type 0 where
  requires : Version → Summary
  of_release : Text → Summary

pub record ClientUpdate : Type 0 where
  pub status : ClientUpdateStatus
  pub latest_version : Version
  pub required_after_epoch_seconds : Option ℕ
  pub summary : Option Summary
  pub download_url : Text

pub record ClientPolicy : Type 0 where
  pub server_version : Version
  pub minimum : Option Version
  pub enforcement : Enforcement
  pub download_url : Text

-- `ClientPolicy::new`; `none` is the error that the minimum is newer than the server.
unfoldable pub new_policy : Version → Option Version → Enforcement → Text → Option ClientPolicy
unfolding older_than
new_policy server_version minimum enforcement download_url =
    if is_some_and (older_than server_version) minimum
    then none
    else some (record {
      server_version = server_version;
      minimum = minimum;
      enforcement = enforcement;
      download_url = download_url;
    })

-- The variables of `evaluate` that its loop changes.
pub record Rated : Type 0 where
  pub status : ClientUpdateStatus
  pub summary : Option Summary
  pub required_after : Option ℕ

abbrev pub deadline_of : ℕ → Release → ℕ
deadline_of grace r = saturating_add r.published_epoch_seconds grace

-- The rating of a release for an app, and the deadline that it sets.
abbrev pub rate : ℕ → ℕ → Release → UpdateCategory → ClientUpdateStatus × Option ℕ
rate grace now r UpdateCategory.optional = (optional, none)
rate grace now r UpdateCategory.recommended = (recommended, none)
rate grace now r critical = (required, none)
rate grace now r UpdateCategory.security =
    if leb (deadline_of grace r) now
    then (required, none)
    else (security, some (deadline_of grace r))

abbrev pub earlier : Option ℕ → Option ℕ → Option ℕ
earlier due none = due
earlier none (some deadline) = some deadline
earlier (some due) (some deadline) = some (min due deadline)

-- The body of the loop, for a release that has a rating.
abbrev pub raise : Rated → Release → ClientUpdateStatus × Option ℕ → Rated
raise x r (rated, deadline) =
    if leb (rank x.status) (rank rated)
    then record {
      status = rated;
      summary = some (of_release r.summary);
      required_after = earlier x.required_after deadline;
    }
    else record x { required_after = earlier x.required_after deadline }

-- The loop over the newer releases.
unfoldable pub rate_all : ℕ → ℕ → ClientIdentity → Rated → List Release → Rated
unfolding client_rating
rate_all grace now client x [] = x
rate_all grace now client x (r ∷ rs) = elim (client_rating r client.platform) [
  | none ↦ rate_all grace now client x rs
  | some category ↦ rate_all grace now client (raise x r (rate grace now r category)) rs
]

-- `self.minimum.filter(|minimum| client.version < *minimum)`
abbrev pub unmet : Option Version → Version → Option Version
unmet none version = none
unmet (some minimum) version = if older_than version minimum then some minimum else none

abbrev pub nothing_rated : Rated
nothing_rated = record { status = current; summary = none; required_after = none }

-- What `evaluate` has found before it looks at the enforcement.
unfoldable pub rated : ClientPolicy → ReleaseManifest → ClientIdentity → ℕ → Rated
unfolding rate_all older_than at_most
rated p manifest client now = elim (unmet p.minimum client.version) [
  | some minimum ↦ record {
    status = required;
    summary = some (requires minimum);
    required_after = none;
  }
  | none ↦
      rate_all (security_grace_seconds manifest) now client nothing_rated
        (retain (between client.version p.server_version) manifest.releases)
]

abbrev pub is_required : ClientUpdateStatus → Bool
is_required required = true
is_required _ = false

abbrev pub is_security : ClientUpdateStatus → Bool
is_security security = true
is_security _ = false

abbrev pub soften : Enforcement → Rated → Rated
soften enforce x = x
soften warn x =
    if is_required x.status then record x { status = security; required_after = none } else x

abbrev pub only_security : Rated → Rated
only_security x = if is_security x.status then x else record x { required_after = none }

-- `evaluate`
unfoldable pub evaluate : ClientPolicy → ReleaseManifest → ClientIdentity → ℕ → ClientUpdate
unfolding rated
evaluate p manifest client now =
    let x = only_security (soften p.enforcement (rated p manifest client now)) in
    record {
      status = x.status;
      latest_version = p.server_version;
      required_after_epoch_seconds = x.required_after;
      summary = x.summary;
      download_url = p.download_url;
    }

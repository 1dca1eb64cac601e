-- ===== src/Update/Policy/Rating.antt =====
-- When an app must update, and until when it may wait.
use ket.Common.{
  ℕ, ◌<◌, ◌≡◌, ◌≢◌, ◌↔◌, refl, ◌∙◌, ap, Bool, true, false, ◌||◌, List, [], ◌∷◌, Option, none, some,
  Text, arith, leb, Option-cases, inl, inr, any, retain, OnSome,
}
use ket.Server.Validate.{is_some}
use ket.Update.Release.{
  Version, older_than, at_most, ClientIdentity, UpdateCategory, critical, Release, client_rating,
  ReleaseManifest, security_grace_seconds, between,
}
use ket.Update.Policy.{
  Enforcement, enforce, warn, current, security, required, ClientPolicy, new_policy, Rated,
  deadline_of, rate, raise, rate_all, unmet, nothing_rated, rated, is_required, is_security,
  evaluate,
}

-- A release demands its update: it is critical, or its security grace period is over.
abbrev pub demands_as : ℕ → ℕ → Release → Option UpdateCategory → Bool
demands_as grace now r (some critical) = true
demands_as grace now r (some UpdateCategory.security) = leb (deadline_of grace r) now
demands_as grace now r _ = false

unfoldable pub demands : ReleaseManifest → ClientIdentity → ℕ → Release → Bool
unfolding client_rating
demands m client now r =
    demands_as (security_grace_seconds m) now r (client_rating r client.platform)

module _ (grace now : ℕ) (client : ClientIdentity) where
  raise-required :
      (x : Rated) (r : Release) (c : UpdateCategory)
      → is_required (raise x r (rate grace now r c)).status
        ≡ (is_required x.status || demands_as grace now r (some c))
  raise-required x r c = ground arith

  rate_all-required :
      (x : Rated) (rs : List Release)
      → is_required (rate_all grace now client x rs).status ≡ (
          is_required x.status
          || any (λ r. demands_as grace now r (client_rating r client.platform)) rs)
  unfolding rate_all
  rate_all-required x [] = ground arith
  rate_all-required x (r ∷ rs) = elim (Option-cases (client_rating r client.platform)) [
    | inl n ↦ rw (rate_all, n) (rate_all-required x rs)
    | inr (c, n) ↦
        let one = raise-required x r c in
        let more = rate_all-required (raise x r (rate grace now r c)) rs in
        rw (rate_all, n) (ground arith)
  ]

  -- While an app may wait, there is a deadline, and every deadline is still ahead.
  record Waits (x : Rated) : Type 0 where
    ahead : OnSome (λ d. now < d) x.required_after
    named : is_security x.status ≡ true → is_some x.required_after ≡ true

  raise-Waits :
      (x : Rated) (r : Release) (c : UpdateCategory)
      → Waits x
      → Waits (raise x r (rate grace now r c))
  raise-Waits x r c w = record {
    ahead = raise-ahead x r c w.ahead;
    named = raise-named x r c w.named;
  }
    where
      raise-ahead :
          (x : Rated) (r : Release) (c : UpdateCategory)
          → OnSome (λ d. now < d) x.required_after
          → OnSome (λ d. now < d) (raise x r (rate grace now r c)).required_after
      raise-ahead x r c h = ground arith

      raise-named :
          (x : Rated) (r : Release) (c : UpdateCategory)
          → (is_security x.status ≡ true → is_some x.required_after ≡ true)
          → is_security (raise x r (rate grace now r c)).status ≡ true
          → is_some (raise x r (rate grace now r c)).required_after ≡ true
      raise-named x r c h = ground arith

  rate_all-Waits :
      (x : Rated) (rs : List Release) → Waits x → Waits (rate_all grace now client x rs)
  unfolding rate_all
  rate_all-Waits x [] w = w
  rate_all-Waits x (r ∷ rs) w = elim (Option-cases (client_rating r client.platform)) [
    | inl n ↦ rw (rate_all, n) (rate_all-Waits x rs w)
    | inr (c, n) ↦
        rw (rate_all, n) (rate_all-Waits (raise x r (rate grace now r c)) rs (raise-Waits x r c w))
  ]

module _ (p : ClientPolicy) (m : ReleaseManifest) (client : ClientIdentity) (now : ℕ) where
  -- A server that enforces updates requires one exactly if the app is older than the operator's
  -- minimum, or a release after the app's version and up to the server's demands it.
  pub evaluate-required_iff :
      p.enforcement ≡ enforce
      → ((evaluate p m client now).status ≡ required) ↔ (
          (is_some (unmet p.minimum client.version)
            || any
                (demands m client now)
                (retain (between client.version p.server_version) m.releases))
          ≡ true)
  unfolding evaluate rated demands
  evaluate-required_iff e = elim (Option-cases (unmet p.minimum client.version)) [
    | inr (v, n) ↦ ground arith
    | inl n ↦
        let all =
          rate_all-required (security_grace_seconds m) now client nothing_rated
            (retain (between client.version p.server_version) m.releases) in
        ground arith
  ]

  -- A server that only warns never requires an update.
  pub evaluate-warn : p.enforcement ≡ warn → (evaluate p m client now).status ≢ required
  unfolding evaluate
  evaluate-warn e = ground arith

  -- A server that enforces updates and rates one as a security update names a deadline that is
  -- still ahead.
  pub evaluate-deadline :
      p.enforcement ≡ enforce
      → (evaluate p m client now).status ≡ security
      → (d : ℕ) × ((evaluate p m client now).required_after_epoch_seconds ≡ some d) × (now < d)
  unfolding evaluate rated
  evaluate-deadline e h = elim (Option-cases (unmet p.minimum client.version)) [
    | inr (v, n) ↦ absurd (ground arith)
    | inl n ↦
        let x =
          rate_all (security_grace_seconds m) now client nothing_rated
            (retain (between client.version p.server_version) m.releases) in
        let w =
          rate_all-Waits (security_grace_seconds m) now client nothing_rated
            (retain (between client.version p.server_version) m.releases)
            (record { ahead = tt; named = λ t. absurd (ground arith) }) in
        let a = w.ahead in
        let k = w.named in
        elim (Option-cases x.required_after) [
          | inl z ↦ absurd (ground arith)
          | inr (d, z) ↦ (d, ground arith, ground arith)
        ]
  ]

rated_met :
    (p : ClientPolicy) (m : ReleaseManifest) (client : ClientIdentity) (now : ℕ)
    → unmet p.minimum client.version ≡ none
    → rated p m client now
      ≡ rate_all
          (security_grace_seconds m)
          now
          client
          nothing_rated
          (retain (between client.version p.server_version) m.releases)
unfolding rated
rated_met p m client now h = rw (rated, h) refl

none_between :
    (v w : Version) (rs : List Release) → at_most w v ≡ true → retain (between v w) rs ≡ []
unfolding at_most older_than
none_between v w [] h = refl
none_between v w (r ∷ rs) h = ground (arith, none_between v w rs)

-- An app at least as new as the server is current, whatever the manifest says, under a policy
-- that `ClientPolicy::new` made.
pub evaluate-current :
    (server : Version) (minimum : Option Version) (e : Enforcement) (url : Text) (p : ClientPolicy)
    (m : ReleaseManifest) (client : ClientIdentity) (now : ℕ)
    → new_policy server minimum e url ≡ some p
    → at_most server client.version ≡ true
    → (evaluate p m client now).status ≡ current
unfolding new_policy evaluate rated at_most older_than rate_all
evaluate-current server minimum e url p m client now made new =
    let is : (p.server_version ≡ server) × (p.enforcement ≡ e) × (p.minimum ≡ minimum) =
      ground arith in
    let met : unmet minimum client.version ≡ none = ground arith in
    let nothing = none_between client.version server m.releases new in
    let all : rated p m client now ≡ nothing_rated =
      rated_met p m client now (rw is.2 met)
      ∙ ap (λ rs. rate_all (security_grace_seconds m) now client nothing_rated rs)
          (ap (λ v. retain (between client.version v) m.releases) is.0 ∙ nothing) in
    ground arith

-- ===== src/Update/Release.antt =====
-- Versions, platforms, urgency and the release manifest: version.rs, identity.rs, category.rs and
-- manifest.rs of crates/ket-update/src.
pub mod Urgency
use ket.Common.{
  ℕ, ◌+◌, ◌*◌, ◌≡◌, Bool, true, false, ◌&&◌, ◌||◌, List, [], ◌∷◌, ◌++◌, Option, none, some, Text,
  ltb, leb, ◌==◌, if◌then◌else◌, retain, is_empty,
}

pub record Version : Type 0 where
  pub major : ℕ
  pub minor : ℕ
  pub patch : ℕ

-- `<` and `<=`, derived from the order of the fields.
unfoldable pub older_than : Version → Version → Bool
older_than v w =
    ltb v.major w.major
    || (v.major == w.major && (ltb v.minor w.minor || (v.minor == w.minor && ltb v.patch w.patch)))

abbrev pub same_version : Version → Version → Bool
same_version v w = v.major == w.major && v.minor == w.minor && v.patch == w.patch

unfoldable pub at_most : Version → Version → Bool
unfolding older_than
at_most v w = older_than v w || same_version v w

pub data ClientPlatform : Type 0 where
  android linux macos windows : ClientPlatform

abbrev pub same_platform : ClientPlatform → ClientPlatform → Bool
same_platform android android = true
same_platform linux linux = true
same_platform macos macos = true
same_platform windows windows = true
same_platform _ _ = false

pub record ClientIdentity : Type 0 where
  pub platform : Option ClientPlatform
  pub version : Version

pub data UpdateCategory : Type 0 where
  optional recommended security critical : UpdateCategory

-- The order of the constructors, from least to most urgent.
abbrev pub urgency : UpdateCategory → ℕ
urgency optional = 0
urgency recommended = 1
urgency security = 2
urgency critical = 3

-- `apps` is a map.
pub record Release : Type 0 where
  pub version : Version
  pub client : Option UpdateCategory
  pub server : Option UpdateCategory
  pub apps : List (ClientPlatform × UpdateCategory)
  pub summary : Text
  pub published_epoch_seconds : ℕ

-- `apps.get(&platform)`
unfoldable pub app_rating :
    List (ClientPlatform × UpdateCategory) → ClientPlatform → Option UpdateCategory
app_rating [] platform = none
app_rating ((p, category) ∷ apps) platform =
    if same_platform p platform then some category else app_rating apps platform

-- `client_rating`
unfoldable pub client_rating : Release → Option ClientPlatform → Option UpdateCategory
unfolding app_rating
client_rating r none = r.client
client_rating r (some platform) = if is_empty r.apps then r.client else app_rating r.apps platform

pub record ReleaseManifest : Type 0 where
  pub security_grace_days : ℕ
  pub releases : List Release

abbrev pub seconds_per_day : ℕ
seconds_per_day = 86400

-- `security_grace_seconds`
abbrev pub security_grace_seconds : ReleaseManifest → ℕ
security_grace_seconds m = m.security_grace_days * seconds_per_day

-- The releases after one version, up to another.
abbrev pub between : Version → Version → Release → Bool
between installed target r = older_than installed r.version && at_most r.version target

-- `flatten().max()` over options: the most urgent category.
abbrev pub more_urgent : Option UpdateCategory → Option UpdateCategory → Option UpdateCategory
more_urgent none best = best
more_urgent (some c) none = some c
more_urgent (some c) (some best) = if ltb (urgency best) (urgency c) then some c else some best

unfoldable pub most_urgent : List (Option UpdateCategory) → Option UpdateCategory
most_urgent [] = none
most_urgent (c ∷ cs) = more_urgent c (most_urgent cs)

-- `flat_map(|release| [release.server, release.client])`
unfoldable pub ratings : List Release → List (Option UpdateCategory)
ratings [] = []
ratings (r ∷ rs) = r.server ∷ r.client ∷ ratings rs

unfoldable pub app_ratings : ClientPlatform → List Release → List (Option UpdateCategory)
unfolding client_rating
app_ratings platform [] = []
app_ratings platform (r ∷ rs) = client_rating r (some platform) ∷ app_ratings platform rs

-- `server_update_category`
unfoldable pub server_update_category : ReleaseManifest → Version → Version → Option UpdateCategory
unfolding most_urgent ratings older_than at_most
server_update_category m installed target =
    most_urgent (ratings (retain (between installed target) m.releases))

-- `app_update_category`
unfoldable pub app_update_category :
    ReleaseManifest → Version → Version → ClientPlatform → Option UpdateCategory
unfolding most_urgent app_ratings older_than at_most
app_update_category m installed target platform =
    most_urgent (app_ratings platform (retain (between installed target) m.releases))

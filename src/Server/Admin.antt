-- ===== src/Server/Admin.antt =====
-- `apply` of crates/ket-server/src/grant_admin.rs, with `UpdateAccessGrantRequest` of
-- crates/ket-core/src/grant.rs.
use mathlib.Core.Option
use ket.Common.{
  ℕ, ◌+◌, min, Bool, true, false, not, ◌&&◌, ◌||◌, List, [], ◌∷◌, Option, none, some, Text, ltb,
  leb, ◌==◌, if◌then◌else◌, any, find, retain, same_text, text_le, holds, Result, ok, ◌>>=◌, ok_or,
}
use ket.Allowance.Period.{AllowancePeriod, DataAllowance}
use ket.Server.Model.{
  AccessGrantRecord, SessionRecord, PersistedState, ProtocolAccess, ProtocolAccess-discrete,
}
use ket.Server.Usage.{used_up_until}
use ket.Server.Validate.{is_some}
use ket.Server.Errors.{ServiceError, not_found, SessionAllocation}
use ket.Server.Slots.{allocations, is_live}

-- An absent field stays as it is; `allowance = some none` removes the allowance.
pub record UpdateAccessGrantRequest : Type 0 where
  pub label : Option Text
  pub max_connections : Option ℕ
  pub expires_at_epoch_seconds : Option ℕ
  pub paused : Option Bool
  pub protocols : Option ProtocolAccess
  pub allowance : Option (Option DataAllowance)
  pub reset_usage : Bool

-- `UpdateAccessGrantRequest::is_empty`
unfoldable pub is_empty_request : UpdateAccessGrantRequest → Bool
is_empty_request r =
    not (is_some r.label)
    && not (is_some r.max_connections)
    && not (is_some r.expires_at_epoch_seconds)
    && not (is_some r.paused)
    && not (is_some r.protocols)
    && not (is_some r.allowance)
    && not r.reset_usage

unfoldable pub OptionPeriod-discrete : Discrete (Option AllowancePeriod)
OptionPeriod-discrete = hlevel

abbrev or_keep {ℓ} : {A : Type ℓ} → Option A → A → A
or_keep none old = old
or_keep (some new) old = new

abbrev pauses : Option Bool → Bool → Bool
pauses none old = false
pauses (some paused) old = paused && not old

abbrev changes_protocols : Option ProtocolAccess → ProtocolAccess → Bool
changes_protocols none old = false
changes_protocols (some new) old = not (holds (ProtocolAccess-discrete new old))

abbrev change_expiry : Option ℕ → Option ℕ → Option ℕ
change_expiry none old = old
change_expiry (some e) old = some e

-- A different period, or none, starts the count again.
unfoldable pub change_allowance :
    Option (Option DataAllowance) → ℕ → AccessGrantRecord → AccessGrantRecord
change_allowance none now g = g
change_allowance (some new) now g =
    if holds (
      OptionPeriod-discrete (Option.map (λ (a : DataAllowance). a.period) new)
        (Option.map (λ (a : DataAllowance). a.period) g.allowance))
    then record g { allowance = new }
    else record g {
      allowance = new;
      allowance_since_epoch_seconds = Option.map (λ (a : DataAllowance). now) new;
      usage = none;
    }

abbrev reset : Bool → AccessGrantRecord → AccessGrantRecord
reset true g = record g { usage = none }
reset false g = g

-- The grant after the change.
unfoldable pub changed_grant : UpdateAccessGrantRequest → ℕ → AccessGrantRecord → AccessGrantRecord
unfolding change_allowance
changed_grant r now g = reset r.reset_usage (
    change_allowance r.allowance now (record g {
      label = or_keep r.label g.label;
      paused = or_keep r.paused g.paused;
      protocols = or_keep r.protocols g.protocols;
      max_connections = or_keep r.max_connections g.max_connections;
      expires_at_epoch_seconds =
          change_expiry r.expires_at_epoch_seconds g.expires_at_epoch_seconds;
    }))

-- `end_all`
unfoldable pub ends_all : UpdateAccessGrantRequest → ℕ → AccessGrantRecord → Bool
unfolding changed_grant
ends_all r now g =
    pauses r.paused g.paused
    || changes_protocols r.protocols g.protocols
    || is_some (used_up_until (changed_grant r now g) now)

-- A lease is cut to the grant's end.
abbrev pub cut : Option ℕ → SessionRecord → SessionRecord
cut none s = s
cut (some e) s = record s { expires_at_epoch_seconds = min s.expires_at_epoch_seconds e }

-- The order of the keys `(issued_at_epoch_seconds, id)`.
unfoldable pub older : SessionRecord → SessionRecord → Bool
unfolding text_le
older s t =
    ltb s.issued_at_epoch_seconds t.issued_at_epoch_seconds
    || (s.issued_at_epoch_seconds == t.issued_at_epoch_seconds && text_le s.id t.id)

-- `sort_by_key`, stable.
unfoldable pub insert_sorted : SessionRecord → List SessionRecord → List SessionRecord
unfolding older
insert_sorted s [] = s ∷ []
insert_sorted s (t ∷ ts) = if older s t then s ∷ t ∷ ts else t ∷ insert_sorted s ts

unfoldable pub sort_sessions : List SessionRecord → List SessionRecord
unfolding insert_sorted
sort_sessions [] = []
sort_sessions (s ∷ ss) = insert_sorted s (sort_sessions ss)

-- The loop that fills `ending`, oldest session first, with `active` live sessions kept before.
unfoldable pub ending_ids : Bool → ℕ → ℕ → ℕ → List SessionRecord → List Text
ending_ids end_all max_connections now active [] = []
ending_ids end_all max_connections now active (s ∷ ss) =
    let ends = end_all || (is_live now s && leb max_connections active) in
    let rest =
      ending_ids end_all max_connections now
        (if not ends && is_live now s then active + 1 else active) ss in
    if ends then s.id ∷ rest else rest

abbrev pub of_grant : Text → SessionRecord → Bool
of_grant id s = same_text s.grant_id id

-- `iter_mut().find(|grant| grant.id == id)` and the changes through it.
unfoldable pub replace_grant :
    Text → AccessGrantRecord → List AccessGrantRecord → List AccessGrantRecord
replace_grant id new [] = []
replace_grant id new (g ∷ gs) = if same_text g.id id then new ∷ gs else g ∷ replace_grant id new gs

-- The sessions with the grant's own cut to its end.
unfoldable pub cut_sessions : Text → Option ℕ → List SessionRecord → List SessionRecord
cut_sessions id expiry [] = []
cut_sessions id expiry (s ∷ ss) =
    (if of_grant id s then cut expiry s else s) ∷ cut_sessions id expiry ss

-- What the change does to the sessions: those that end, and those that stay.
unfoldable pub ending_of : Text → AccessGrantRecord → Bool → ℕ → List SessionRecord → List Text
unfolding ending_ids sort_sessions
ending_of id new end_all now sessions =
    ending_ids end_all new.max_connections now 0 (sort_sessions (retain (of_grant id) sessions))

-- `apply`
unfoldable pub apply :
    PersistedState
    → Text
    → UpdateAccessGrantRequest
    → ℕ
    → Result ServiceError (PersistedState × List SessionAllocation)
unfolding changed_grant ends_all replace_grant cut_sessions ending_of allocations
apply st id changes now = do
  grant ← ok_or (find (λ g. same_text g.id id) st.grants) not_found
  let new = changed_grant changes now grant
  let sessions = cut_sessions id new.expires_at_epoch_seconds st.sessions
  let ending = ending_of id new (ends_all changes now grant) now sessions
  ended ← allocations (retain (λ s. any (λ i. same_text i s.id) ending) sessions)
  ok (
    record st {
      grants = replace_grant id new st.grants;
      sessions = retain (λ s. not (any (λ i. same_text i s.id) ending)) sessions;
    },
    ended,
  )

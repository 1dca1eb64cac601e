-- ===== src/Server/Activity.antt =====
-- crates/ket-server/src/activity.rs: what devices recently did with each grant, and the events of
-- crates/ket-core/src/grant.rs.
pub mod Bounded
use ket.Common.{
  ℕ, ◌+◌, ◌-◌, ◌^◌, min, Bool, ◌&&◌, List, [], ◌∷◌, ◌++◌, reverse, Option, none, some, Text,
  Text-discrete, leb, length, drop, same_text, holds, if◌then◌else◌, ℕ_discrete,
}
use ket.Server.Model.{TransportProtocol, TransportProtocol-discrete}

pub data GrantActivityEvent : Type 0 where
  enrolled checked_in left lease_ended ended_by_change ended_allowance_used refused_wrong_code
        refused_expired refused_paused refused_allowance_used refused_device_limit
        refused_server_full refused_update_required refused_no_protocol refused_server_unavailable
        signed_in sign_in_refused sign_in_refused_protocol :
      GrantActivityEvent

unfoldable pub GrantActivityEvent-discrete : Discrete GrantActivityEvent
GrantActivityEvent-discrete = hlevel

unfoldable pub OptionText-discrete : Discrete (Option Text)
unfolding Text-discrete
OptionText-discrete = hlevel Text-discrete

unfoldable pub OptionProtocol-discrete : Discrete (Option TransportProtocol)
unfolding TransportProtocol-discrete
OptionProtocol-discrete = hlevel TransportProtocol-discrete

-- `Activity`: one thing that happened, before it is counted.
pub record Activity : Type 0 where
  pub event : GrantActivityEvent
  pub session_id : Option Text
  pub client_name : Text
  pub protocol : Option TransportProtocol

pub record GrantActivity : Type 0 where
  pub event : GrantActivityEvent
  pub session_id : Option Text
  pub client_name : Text
  pub protocol : Option TransportProtocol
  pub count : ℕ
  pub first_at_epoch_seconds : ℕ
  pub last_at_epoch_seconds : ℕ

-- `Activity::session`, `Activity::enrollment` and `Activity::over`
abbrev pub session : GrantActivityEvent → Text → Text → Activity
session event session_id client_name = record {
  event = event;
  session_id = some session_id;
  client_name = client_name;
  protocol = none;
}

abbrev pub enrollment : GrantActivityEvent → Text → Activity
enrollment event client_name = record {
  event = event;
  session_id = none;
  client_name = client_name;
  protocol = none;
}

abbrev pub over : Activity → TransportProtocol → Activity
over a protocol = record a { protocol = some protocol }

abbrev pub max_entries_per_grant : ℕ
max_entries_per_grant = 24

unfoldable pub same_as : Activity → GrantActivity → Bool
same_as a e =
    holds (GrantActivityEvent-discrete a.event e.event)
    && holds (OptionText-discrete a.session_id e.session_id)
    && same_text a.client_name e.client_name
    && holds (OptionProtocol-discrete a.protocol e.protocol)

-- `position` and `remove`: the first entry of the same thing, and the others.
unfoldable pub remove_same :
    Activity → List GrantActivity → Option (GrantActivity × List GrantActivity)
unfolding same_as
remove_same a [] = none
remove_same a (e ∷ es) =
    if same_as a e
    then some (e, es)
    else elim (remove_same a es) [ none ↦ none | some (f, rest) ↦ some (f, e ∷ rest) ]

-- `u32::saturating_add(1)`
abbrev pub count_up : ℕ → ℕ
count_up n = min (n + 1) (2 ^ 32 - 1)

abbrev pub first_entry : Activity → ℕ → GrantActivity
first_entry a now = record {
  event = a.event;
  session_id = a.session_id;
  client_name = a.client_name;
  protocol = a.protocol;
  count = 1;
  first_at_epoch_seconds = now;
  last_at_epoch_seconds = now;
}

-- `ActivityLog::record` on the entries of one grant, oldest first.
unfoldable pub record_entry : Activity → ℕ → List GrantActivity → List GrantActivity
unfolding remove_same
record_entry a now entries = elim (remove_same a entries) [
  | some (e, rest) ↦
      rest ++ (record e { count = count_up e.count; last_at_epoch_seconds = now } ∷ [])
  | none ↦
      (if leb max_entries_per_grant (length entries) then drop 1 entries else entries)
      ++ (first_entry a now ∷ [])
]

-- `ActivityLog`, a map from grant IDs.
abbrev pub ActivityLog : Type 0
ActivityLog = List (Text × List GrantActivity)

-- `get`, `unwrap_or_default`
unfoldable pub entries_of : ActivityLog → Text → List GrantActivity
entries_of [] id = []
entries_of ((i, es) ∷ log) id = if same_text i id then es else entries_of log id

-- `ActivityLog::record`, with `entry(grant_id).or_default()`
unfoldable pub record_activity : ActivityLog → Text → Activity → ℕ → ActivityLog
unfolding record_entry
record_activity [] id a now = (id, record_entry a now []) ∷ []
record_activity ((i, es) ∷ log) id a now =
    if same_text i id
    then (i, record_entry a now es) ∷ log
    else (i, es) ∷ record_activity log id a now

-- `ActivityLog::recent`, newest first.
unfoldable pub recent : ActivityLog → Text → List GrantActivity
unfolding entries_of
recent log id = reverse (entries_of log id)

-- `ActivityLog::retain`
unfoldable pub retain_grants : (Text → Bool) → ActivityLog → ActivityLog
retain_grants keep [] = []
retain_grants keep ((i, es) ∷ log) =
    if keep i then (i, es) ∷ retain_grants keep log else retain_grants keep log

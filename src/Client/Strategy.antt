-- ===== src/Client/Strategy.antt =====
-- The transports' records and the order in which a connection tries them:
-- crates/ket-client-core/src/strategy.rs. `TransportAdapter::supports` is a parameter.
pub mod History
pub mod Ranking
use mathlib.Core.Option
use ket.Common.{
  Text-Key, ℕ, ◌+◌, ◌-◌, ◌*◌, ◌^◌, min, max, saturating_add, Bool, true, false, not, ◌&&◌, List, [],
  ◌∷◌, Option, none, some, Text, ltb, leb, if◌then◌else◌, holds, any, retain, length, take, text_le,
  sort_by, Map, lookup, insert,
}
use ket.Server.Model.{TransportProtocol, TransportProtocol-discrete}
use ket.Server.Validate.{is_some_and, is_none_or}
use ket.Client.Transport.{SessionTransport}

abbrev pub max_records : ℕ
max_records = 32

pub record TransportRecord : Type 0 where
  pub consecutive_failures : ℕ
  pub last_latency_ms : Option ℕ
  pub cooldown_until_epoch_seconds : ℕ
  pub worked : Bool

-- `TransportRecord::default()`
abbrev pub default_record : TransportRecord
default_record = record {
  consecutive_failures = 0;
  last_latency_ms = none;
  cooldown_until_epoch_seconds = 0;
  worked = false;
}

pub record TransportHistory : Type 0 where
  pub records : Map Text TransportRecord

-- `TransportHistory::default()`
abbrev pub default_history : TransportHistory
default_history = record { records = [] }

-- The loop of `bound`: while there are too many records, the one of the first key goes.
unfoldable pub bound_records : Map Text TransportRecord → Map Text TransportRecord
bound_records [] = []
bound_records (e ∷ m) =
    let rest = bound_records m in if ltb max_records (length (e ∷ m)) then rest else e ∷ m

-- `TransportHistory::bound`
unfoldable pub bound : TransportHistory → TransportHistory
unfolding bound_records
bound h = record { records = bound_records h.records }

abbrev pub success_record : ℕ → TransportRecord
success_record latency_ms = record {
  consecutive_failures = 0;
  last_latency_ms = some latency_ms;
  cooldown_until_epoch_seconds = 0;
  worked = true;
}

-- `TransportHistory::record_success`
unfoldable pub record_success : TransportHistory → Text → ℕ → TransportHistory
unfolding bound
record_success h id latency_ms =
    bound (record { records = insert id (success_record latency_ms) h.records })

-- `u64::saturating_mul`
abbrev pub saturating_mul : ℕ → ℕ → ℕ
saturating_mul a b = min (a * b) (2 ^ 64 - 1)

-- `entry(id).or_default()`
abbrev pub or_default : Option TransportRecord → TransportRecord
or_default none = default_record
or_default (some r) = r

-- The failures of a `u32`, counted up.
abbrev pub failed_once_more : ℕ → ℕ
failed_once_more failures = min (failures + 1) (2 ^ 32 - 1)

-- The record after one more failure.
unfoldable pub failure_record : ℕ → ℕ → TransportRecord → TransportRecord
failure_record now base_cooldown_seconds r =
    let failures = failed_once_more r.consecutive_failures in
    let multiplier = 2 ^ min (failures - 1) 3 in
    record r {
      consecutive_failures = failures;
      cooldown_until_epoch_seconds =
          saturating_add now (min (saturating_mul base_cooldown_seconds multiplier) 120);
    }

-- `TransportHistory::record_failure`
unfoldable pub record_failure : TransportHistory → Text → ℕ → ℕ → TransportHistory
unfolding bound failure_record
record_failure h id now base_cooldown_seconds = bound (record {
  records =
      insert id (failure_record now base_cooldown_seconds (or_default (lookup id h.records)))
        h.records;
})

pub record SelectionPolicy : Type 0 where
  pub max_attempts : ℕ
  pub preferred_protocol : Option TransportProtocol
  pub failure_cooldown_seconds : ℕ

-- `SelectionPolicy::default()`
abbrev pub default_policy : SelectionPolicy
default_policy = record {
  max_attempts = 3;
  preferred_protocol = none;
  failure_cooldown_seconds = 15;
}

abbrev pub same_protocol : TransportProtocol → TransportProtocol → Bool
same_protocol p q = holds (TransportProtocol-discrete p q)

-- The preference that ranks: the connection's own, else the policy's.
abbrev pub or_policy :
    Option TransportProtocol → Option TransportProtocol → Option TransportProtocol
or_policy none preferred = preferred
or_policy (some p) preferred = some p

-- The transports some adapter supports, of the explicit protocol if there is one.
abbrev pub usable :
    List (SessionTransport → Bool) → Option TransportProtocol → SessionTransport → Bool
usable adapters explicit t =
    any (λ supports. supports t) adapters
    && is_none_or (λ p. same_protocol p t.profile.protocol) explicit

abbrev pub included : List TransportProtocol → SessionTransport → Bool
included excluded t = not (any (λ p. same_protocol p t.profile.protocol) excluded)

-- The candidates of `rank_for` before they are sorted.
unfoldable pub candidates :
    List SessionTransport
    → List (SessionTransport → Bool)
    → Option TransportProtocol
    → List TransportProtocol
    → List SessionTransport
candidates transports adapters explicit excluded =
    let all = retain (usable adapters explicit) transports in
    elim explicit [
      | some p ↦ all
      | none ↦ if any (included excluded) all then retain (included excluded) all else all
    ]

-- `false` sorts before `true`.
abbrev pub rank_bool : Bool → ℕ
rank_bool b = if b then 1 else 0

abbrev pub latency_or_500 : Option ℕ → ℕ
latency_or_500 none = 500
latency_or_500 (some ms) = ms

-- The key of the sort: a tuple that ends in the ID, compared from its first member on, as one list
-- of numbers.
unfoldable pub rank_key :
    TransportHistory → ℕ → Option TransportProtocol → SessionTransport → List ℕ
rank_key h now preference t =
    let r = or_default (lookup t.profile.id h.records) in
    rank_bool (ltb now r.cooldown_until_epoch_seconds)
    ∷ rank_bool (not (is_some_and (λ p. same_protocol p t.profile.protocol) preference))
    ∷ r.consecutive_failures
    ∷ rank_bool (not r.worked)
    ∷ t.profile.priority
    ∷ latency_or_500 r.last_latency_ms
    ∷ t.profile.id

-- The order of the attempts.
unfoldable pub before :
    TransportHistory → ℕ → Option TransportProtocol → SessionTransport → SessionTransport → Bool
unfolding rank_key text_le
before h now preference s t = text_le (rank_key h now preference s) (rank_key h now preference t)

-- `TransportSelector::rank_for`
unfoldable pub rank_for :
    SelectionPolicy
    → List SessionTransport
    → List (SessionTransport → Bool)
    → TransportHistory
    → ℕ
    → Option TransportProtocol
    → List TransportProtocol
    → List SessionTransport
unfolding candidates before
rank_for policy transports adapters h now explicit excluded = take (max policy.max_attempts 1) (
    sort_by (before h now (or_policy explicit policy.preferred_protocol))
      (candidates transports adapters explicit excluded))

-- `TransportSelector::rank_with_preference`
unfoldable pub rank_with_preference :
    SelectionPolicy
    → List SessionTransport
    → List (SessionTransport → Bool)
    → TransportHistory
    → ℕ
    → Option TransportProtocol
    → List SessionTransport
unfolding rank_for
rank_with_preference policy transports adapters h now explicit =
    rank_for policy transports adapters h now explicit []

-- `TransportSelector::rank`
unfoldable pub rank :
    SelectionPolicy
    → List SessionTransport
    → List (SessionTransport → Bool)
    → TransportHistory
    → ℕ
    → List SessionTransport
unfolding rank_with_preference
rank policy transports adapters h now = rank_with_preference policy transports adapters h now none

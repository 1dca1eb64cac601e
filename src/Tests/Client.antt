-- ===== src/Tests/Client.antt =====
-- Transports to try, and a history that a network kept.
use ket.Common.{
  ℕ, zero, suc, Map, Text-Key, ◌≡◌, refl, arith, Bool, true, false, List, [], ◌∷◌, none, some, Text,
  inr, text_le, ◌++◌, Sorted, length, min, max, ◌≤◌,
}
use mathlib.Core.List.{Perm}
use ket.Server.Model.{TransportProtocol, hysteria2, vless_xtls_reality, TransportProtocol-discrete}
use ket.Client.Transport.{SessionTransport, udp}
use ket.Client.Strategy.{
  TransportHistory, default_history, or_policy, default_policy, same_protocol, record_success,
  record_failure, rank_for, candidates, before, rank_key,
}
use ket.Client.Strategy.History.{Recorded, Bounded, Recorded-Bounded}
use ket.Client.Strategy.Ranking.{rank_for-best, record_success-before, record_failure-before}
use ket.Client.Memory.{
  Codecs, MemoryFile, RememberedNetwork, remembered, load, save, evict, max_networks, read,
  network_key, read_file,
}
use ket.Client.Memory.Kept.{load-save, evict-length}

abbrev transport : Text → TransportProtocol → ℕ → SessionTransport
transport id protocol priority = record {
  profile = record {
    id = id;
    display_name = id;
    protocol = protocol;
    endpoint = [];
    port = 443;
    network = udp;
    priority = priority;
    tls_server_name = none;
    options = [];
  };
  credential = none;
}

abbrev fast : SessionTransport
fast = transport (b'f' ∷ []) hysteria2 10

abbrev fresh_one : SessionTransport
fresh_one = transport (b'e' ∷ []) hysteria2 1

abbrev reality : SessionTransport
reality = transport (b'r' ∷ []) vless_xtls_reality 0

abbrev offered : List SessionTransport
offered = fresh_one ∷ fast ∷ reality ∷ []

abbrev hysteria_only : List (SessionTransport → Bool)
hysteria_only = (λ t. same_protocol hysteria2 t.profile.protocol) ∷ []

abbrev history : TransportHistory
history = record {
  records =
      (
        b'f' ∷ [],
        record {
          consecutive_failures = 0;
          last_latency_ms = some 5;
          cooldown_until_epoch_seconds = 0;
          worked = true;
        },
      )
      ∷ [];
}

-- One that worked comes before one that was never tried, and an unsupported one is left out.
ranks_fast_first :
    rank_for default_policy offered hysteria_only history 100 none [] ≡ fast ∷ fresh_one ∷ []
unfolding rank_for candidates before rank_key text_le TransportProtocol-discrete Text-Key
ranks_fast_first = refl

rank_for-best_example :
    (rest : List SessionTransport) × (Perm
      (rank_for default_policy offered hysteria_only history 100 none [] ++ rest)
      (candidates offered hysteria_only none []))
    × (Sorted
        (before history 100 (or_policy none default_policy.preferred_protocol))
        (rank_for default_policy offered hysteria_only history 100 none [] ++ rest))
    × (length (rank_for default_policy offered hysteria_only history 100 none [])
        ≡ min (max 3 1) (length (candidates offered hysteria_only none [])))
rank_for-best_example = rank_for-best default_policy offered hysteria_only history 100 none []

record_success-before_example :
    (before (record_success history (b'e' ∷ []) 40) 100 none fresh_one reality ≡ true)
    × (before (record_success history (b'e' ∷ []) 40) 100 none reality fresh_one ≡ false)
unfolding Text-Key
record_success-before_example =
    record_success-before history (omega arith) none reality fresh_one (λ e. absurd (ground arith))
      100 40 refl (inr (inr refl))

record_failure-before_example :
    (before (record_failure history (b'e' ∷ []) 100 15) 110 none reality fresh_one ≡ true)
    × (before (record_failure history (b'e' ∷ []) 100 15) 110 none fresh_one reality ≡ false)
unfolding Text-Key
record_failure-before_example =
    record_failure-before history (omega arith) none reality fresh_one (λ e. absurd (ground arith))
      100 110 15 (omega arith) (omega arith) (omega arith)

Recorded-Bounded_example :
    Bounded 100 (record_failure (record_success default_history (b'e' ∷ []) 40) (b'f' ∷ []) 100 15)
Recorded-Bounded_example =
    Recorded-Bounded
      (Recorded.failure (b'f' ∷ []) 15 (Recorded.success (b'e' ∷ []) 40 Recorded.nothing))

-- A parser that knows one file, and a printer that fits it.
abbrev saved : MemoryFile
saved = record { salt = []; networks = [] }

abbrev hash : Codecs
hash = record {
  sha256 = λ bytes. bytes;
  from_slice = λ bytes. none;
  to_vec = λ file. some (1 ∷ []);
}

-- A parser that reads what a save without a file leaves.
abbrev codecs : Codecs
codecs = record {
  sha256 = λ bytes. bytes;
  from_slice = λ bytes. some (remembered hash (7 ∷ []) 500 saved (b'w' ∷ []) history);
  to_vec = λ file. some (1 ∷ []);
}

load-save_example :
    load codecs (save codecs (7 ∷ []) 500 true none (some (b'w' ∷ [])) history) (some (b'w' ∷ []))
    ≡ history
unfolding read remembered network_key read_file
load-save_example =
    load-save codecs (7 ∷ []) 500 none (b'w' ∷ []) history (1 ∷ []) tt tt refl refl (omega arith)

-- That many networks, the last seen first.
abbrev seen_at : ℕ → Map Text RememberedNetwork
seen_at zero = []
seen_at (suc n) = (n ∷ [], record { seen_at_epoch_seconds = n; history = history }) ∷ seen_at n

evict-length_example : length (evict 20 (seen_at 18)) ≤ max_networks
evict-length_example = evict-length 20 (seen_at 18) (omega arith)

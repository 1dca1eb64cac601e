-- ===== src/Client/Memory.antt =====
-- What a client remembers of each network: crates/ket-client-core/src/transport_memory.rs. SHA-256
-- and the JSON are parameters; the salt, the clock and the file system are inputs of a call.
pub mod Kept
use ket.Common.{
  Text-Key, ℕ, zero, suc, ◌*◌, ◌/◌, ◌%◌, ◌+◌, ◌-◌, ◌==◌, Bool, List, [], ◌∷◌, ◌++◌, Option, none,
  some, Text, ltb, leb, if◌then◌else◌, length, take, Map, lookup, insert, remove,
}
use ket.Common.Chars.{utf8_len, as_bytes}
use ket.Client.Strategy.{TransportHistory, default_history}

abbrev pub max_networks : ℕ
max_networks = 16

abbrev pub max_file_bytes : ℕ
max_file_bytes = 256 * 1024

pub record RememberedNetwork : Type 0 where
  pub seen_at_epoch_seconds : ℕ
  pub history : TransportHistory

pub record MemoryFile : Type 0 where
  pub salt : Text
  pub networks : Map Text RememberedNetwork

-- What the memory calls: SHA-256, and `serde_json` both ways.
pub record Codecs : Type 0 where
  pub sha256 : List ℕ → List ℕ
  pub from_slice : List ℕ → Option MemoryFile
  pub to_vec : MemoryFile → Option (List ℕ)

-- `hex`
abbrev digit : ℕ → ℕ
digit n = if ltb n 10 then b'0' + n else b'a' + n - 10

unfoldable pub hex : List ℕ → Text
hex [] = []
hex (byte ∷ bytes) = digit (byte / 16) ∷ digit (byte % 16) ∷ hex bytes

-- `network_key`
unfoldable pub network_key : Codecs → Text → Text → Text
unfolding hex as_bytes
network_key o salt network = hex (take 16 (o.sha256 (as_bytes salt ++ 0 ∷ as_bytes network)))

-- `read_file`, of the bytes at the path, if there are any.
unfoldable pub read_file : Codecs → Option (List ℕ) → Option MemoryFile
read_file o none = none
read_file o (some bytes) = if ltb max_file_bytes (length bytes) then none else o.from_slice bytes

abbrev or_new : Option MemoryFile → MemoryFile
or_new none = record { salt = []; networks = [] }
or_new (some file) = file

-- `NetworkTransportMemory::read`
unfoldable pub read : Codecs → Option (List ℕ) → MemoryFile
unfolding read_file
read o disk = or_new (read_file o disk)

abbrev or_default : Option RememberedNetwork → TransportHistory
or_default none = default_history
or_default (some n) = n.history

-- `NetworkTransportMemory::load`, on the network that the device is on.
unfoldable pub load : Codecs → Option (List ℕ) → Option Text → TransportHistory
unfolding read network_key
load o disk none = default_history
load o disk (some network) =
    let file = read o disk in or_default (lookup (network_key o file.salt network) file.networks)

-- `min_by_key`: of the entries seen first, the first.
unfoldable pub oldest : Map Text RememberedNetwork → Option (Text × RememberedNetwork)
oldest [] = none
oldest (e ∷ m) = elim (oldest m) [
  | none ↦ some e
  | some b ↦ if leb e.1.seen_at_epoch_seconds b.1.seen_at_epoch_seconds then some e else some b
]

-- The loop of `save`, on fuel: while there are too many networks, the one seen first goes.
unfoldable pub evict : ℕ → Map Text RememberedNetwork → Map Text RememberedNetwork
unfolding oldest
evict zero m = m
evict (suc fuel) m =
    if ltb max_networks (length m)
    then elim (oldest m) [ none ↦ m | some e ↦ evict fuel (remove e.0 m) ]
    else m

-- The file with a salt; a new salt forgets the networks of the old one.
unfoldable pub salted : List ℕ → MemoryFile → MemoryFile
unfolding hex utf8_len
salted salt file =
    if utf8_len file.salt == 64 then file else record { salt = hex salt; networks = [] }

-- The file that `save` writes. Each pass of the loop removes an entry, so as many as there are do.
unfoldable pub remembered : Codecs → List ℕ → ℕ → MemoryFile → Text → TransportHistory → MemoryFile
unfolding salted network_key evict
remembered o salt now file network history =
    let salted_file = salted salt file in
    let networks =
      insert (network_key o salted_file.salt network)
        (record { seen_at_epoch_seconds = now; history = history }) salted_file.networks in
    record salted_file { networks = evict (length networks) networks }

-- `write_file`: what is at the path afterwards, where `works` says that the file system did its part.
unfoldable pub write_file : Codecs → Bool → Option (List ℕ) → MemoryFile → Option (List ℕ)
write_file o works disk file = elim (o.to_vec file) [
  | none ↦ disk
  | some bytes ↦ if works then some bytes else disk
]

-- `NetworkTransportMemory::save`, with 32 bytes for a salt, should one be drawn.
unfoldable pub save :
    Codecs → List ℕ → ℕ → Bool → Option (List ℕ) → Option Text → TransportHistory → Option (List ℕ)
unfolding read remembered write_file
save o salt now works disk none history = disk
save o salt now works disk (some network) history =
    write_file o works disk (remembered o salt now (read o disk) network history)

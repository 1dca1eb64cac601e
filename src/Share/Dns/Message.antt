-- ===== src/Share/Dns/Message.antt =====
-- Answers of resolvers as RFC 1035 lays them out, for the reader in dns.rs of crates/ket-share/src.
use ket.Common.{
  ℕ, ◌≤◌, ◌<◌, ◌/◌, ◌%◌, ◌^◌, ◌==◌, ◌&&◌, List, [], ◌∷◌, ◌++◌, Option, none, some, if◌then◌else◌,
  length, All,
}
use ket.Net.{ipv4}

-- Labels, each after its length (4.1.2).
abbrev pub wire_labels : List (List ℕ) → List ℕ
wire_labels [] = []
wire_labels (l ∷ ls) = length l ∷ (l ++ wire_labels ls)

-- The name's labels and the root, the type A and the class IN.
abbrev pub wire_question : List (List ℕ) → List ℕ
wire_question labels = wire_labels labels ++ 0 ∷ 0 ∷ 1 ∷ 0 ∷ 1 ∷ []

-- The end of a name: the root, or a pointer to the rest (4.1.4).
pub data NameEnd : Type 0 where
  root : NameEnd
  pointer : ℕ → ℕ → NameEnd

abbrev pub wire_end : NameEnd → List ℕ
wire_end root = 0 ∷ []
wire_end (pointer high low) = high ∷ low ∷ []

-- A resource record (4.1.3).
pub record ResourceRecord : Type 0 where
  pub labels : List (List ℕ)
  pub ending : NameEnd
  pub kind : ℕ
  pub class : ℕ
  pub time_to_live : ℕ
  pub contents : List ℕ

abbrev pub wire_fixed : ResourceRecord → List ℕ
wire_fixed r =
    r.kind / 256
    ∷ r.kind % 256
    ∷ r.class / 256
    ∷ r.class % 256
    ∷ r.time_to_live / 2 ^ 24
    ∷ r.time_to_live / 2 ^ 16 % 256
    ∷ r.time_to_live / 256 % 256
    ∷ r.time_to_live % 256
    ∷ length r.contents / 256
    ∷ length r.contents % 256
    ∷ []

abbrev pub wire_records : List ResourceRecord → List ℕ → List ℕ
wire_records [] more = more
wire_records (r ∷ rs) more =
    wire_labels r.labels
    ++ (wire_end r.ending ++ (wire_fixed r ++ (r.contents ++ wire_records rs more)))

-- Labels have 1 to 63 bytes, and the first byte of a pointer starts with two ones.
abbrev pub IsPointer : NameEnd → Type 0
IsPointer root = Unit
IsPointer (pointer high low) = (192 ≤ high) × (high < 256)

abbrev pub Readable : ResourceRecord → Type 0
Readable r = All (λ l. (1 ≤ length l) × (length l ≤ 63)) r.labels × IsPointer r.ending

-- The header (4.1.1) of an answer to one question: its second and third bytes have the flags and the
-- code, and `others` are the counts of the other sections.
abbrev pub wire_header : ℕ → ℕ → ℕ → ℕ → List ℕ → List ℕ
wire_header id flags code count others =
    id / 256 ∷ id % 256 ∷ flags ∷ code ∷ 0 ∷ 1 ∷ count / 256 ∷ count % 256 ∷ others

-- The four bytes of an address.
abbrev pub four : List ℕ → Option ℕ
four (a ∷ b ∷ c ∷ d ∷ []) = some (ipv4 a b c d)
four _ = none

-- The address of a record of the type A and the class IN.
abbrev pub address_in : ResourceRecord → Option ℕ
address_in r = if r.kind == 1 && r.class == 1 then four r.contents else none

abbrev pub kept : Option ℕ → List ℕ → List ℕ
kept none found = found
kept (some a) found = a ∷ found

abbrev pub addresses_in : List ResourceRecord → List ℕ
addresses_in [] = []
addresses_in (r ∷ rs) = kept (address_in r) (addresses_in rs)

-- ===== src/Client/Memory/Kept.antt =====
-- The memory stays small, and what was saved on a network is what is loaded there.
use ket.Common.{
  Text-Key, ℕ, zero, suc, ◌≤◌, ◌<◌, ◌≡◌, ◌≢◌, refl, sym, subst, ap, ◌∙◌, arith, le, le_refl, true,
  false, ltb, leb, ◌==◌, List, [], ◌∷◌, Option, some, Text, inl, inr, ◌⊎◌, Bool-cases, Option-cases,
  length, All, All-mono, Map, lookup, insert, remove, lookup-insert_same, lookup-remove_other,
  Ascending, insert-Ascending, remove-Ascending, All-insert_others, All-remove,
}
use ket.Common.Chars.{utf8_len}
use ket.Client.Strategy.{TransportHistory}
use ket.Client.Memory.{
  RememberedNetwork, MemoryFile, Codecs, max_networks, max_file_bytes, network_key, read_file, read,
  load, oldest, evict, salted, remembered, write_file, save,
}

-- The entry that goes is one of the map.
oldest-lookup :
    (m : Map Text RememberedNetwork) (e : Text × RememberedNetwork)
    → oldest m ≡ some e
    → suc (length (remove e.0 m)) ≡ length m
unfolding oldest
oldest-lookup [] e h = absurd (cc)
oldest-lookup (x ∷ m) e h = elim (Option-cases (oldest m)) [
  | inl n ↦ ground arith
  | inr (b, n) ↦ let rest = oldest-lookup m b n in ground arith
]

oldest-some :
    (e : Text × RememberedNetwork) (m : Map Text RememberedNetwork)
    → (f : Text × RememberedNetwork) × (oldest (e ∷ m) ≡ some f)
unfolding oldest
oldest-some e m = elim (Option-cases (oldest m)) [
  | inl n ↦ (e, rw n refl)
  | inr (b, n) ↦ elim (Bool-cases (leb e.1.seen_at_epoch_seconds b.1.seen_at_epoch_seconds)) [
    | inl c ↦ (e, rw (n, c) refl)
    | inr c ↦ (b, rw (n, c) refl)
  ]
]

-- The loop of `save` ends within as many passes as there are networks, with at most 16 left.
pub evict-length :
    (fuel : ℕ) (m : Map Text RememberedNetwork)
    → length m ≤ fuel
    → length (evict fuel m) ≤ max_networks
unfolding evict
evict-length zero m h = omega arith
evict-length (suc fuel) [] h = omega arith
evict-length (suc fuel) (e ∷ m) h = elim (Bool-cases (ltb max_networks (length (e ∷ m)))) [
  | inl many ↦
      let (f, at) = oldest-some e m in
      let shorter = oldest-lookup (e ∷ m) f at in
      rw (many, at) (evict-length fuel (remove f.0 (e ∷ m)) (omega arith))
  | inr few ↦ rw few (ground arith)
]

evict_fits :
    (fuel : ℕ) (m : Map Text RememberedNetwork) → length m ≤ max_networks → evict fuel m ≡ m
unfolding evict
evict_fits zero m h = refl
evict_fits (suc fuel) m h = ground arith

-- No entry was seen before the oldest.
oldest-All :
    (m : Map Text RememberedNetwork) (e : Text × RememberedNetwork)
    → oldest m ≡ some e
    → All (λ f. e.1.seen_at_epoch_seconds ≤ f.1.seen_at_epoch_seconds) m
unfolding oldest
oldest-All [] e h = absurd (cc)
oldest-All (x ∷ []) e h = ground arith
oldest-All (x ∷ y ∷ m) e h =
    let (b, n) = oldest-some y m in
    let low = oldest-All (y ∷ m) b n in
    elim (Bool-cases (leb x.1.seen_at_epoch_seconds b.1.seen_at_epoch_seconds)) [
      | inl c ↦
          let same : x ≡ e = ground arith in
          let lower : x.1.seen_at_epoch_seconds ≤ b.1.seen_at_epoch_seconds = ground arith in
          let at : x.1.seen_at_epoch_seconds ≡ e.1.seen_at_epoch_seconds =
            ap (λ f. f.1.seen_at_epoch_seconds) same in
          (omega arith, All-mono (λ f le. omega arith) (y ∷ m) low)
      | inr c ↦
          let same : b ≡ e = ground arith in
          subst (λ f. All (λ g. f.1.seen_at_epoch_seconds ≤ g.1.seen_at_epoch_seconds) (x ∷ y ∷ m))
            same (ground arith, low)
    ]

-- The entry of the key was seen at the time, and every other one before.
NewestAt : Text → ℕ → Text × RememberedNetwork → Type 0
NewestAt key now f =
    ((f.0 ≡ key) × (f.1.seen_at_epoch_seconds ≡ now))
    ⊎ ((f.0 ≢ key) × (f.1.seen_at_epoch_seconds < now))

oldest-holds {κ} :
    (P : Text × RememberedNetwork → Type κ) (m : Map Text RememberedNetwork)
    (e : Text × RememberedNetwork)
    → oldest m ≡ some e
    → All P m
    → P e
unfolding oldest
oldest-holds P [] e h a = absurd (cc)
oldest-holds P (x ∷ m) e h (p, a) = elim (Option-cases (oldest m)) [
  | inl n ↦ let same : x ≡ e = ground arith in subst P same p
  | inr (b, n) ↦
      let rest = oldest-holds P m b n a in
      elim (Bool-cases (leb x.1.seen_at_epoch_seconds b.1.seen_at_epoch_seconds)) [
        | inl c ↦ let same : x ≡ e = ground arith in subst P same p
        | inr c ↦ let same : b ≡ e = ground arith in subst P same rest
      ]
]

same_keys :
    (key : Text) (now : ℕ) (m : Map Text RememberedNetwork)
    → Ascending m
    → All (NewestAt key now) m
    → All (λ f. now ≤ f.1.seen_at_epoch_seconds) m
    → length m ≤ 1
unfolding NewestAt
same_keys key now [] a n l = omega arith
same_keys key now (e ∷ []) a n l = omega arith
same_keys key now (e ∷ f ∷ m) ((low, lows), a) (n, (k, ns)) (le, (ge, ls)) =
    let one : e.0 ≡ key = ground arith in
    let two : f.0 ≡ key = ground arith in absurd (cc (low, le_refl key, one, two))

-- The newest entry is never the one that goes.
oldest-other :
    (key : Text) (now : ℕ) (m : Map Text RememberedNetwork) (e : Text × RememberedNetwork)
    → Ascending m
    → All (NewestAt key now) m
    → 1 < length m
    → oldest m ≡ some e
    → key ≢ e.0
unfolding NewestAt
oldest-other key now m e a n many h same =
    let newest : e.1.seen_at_epoch_seconds ≡ now = elim (oldest-holds (NewestAt key now) m e h n) [
      | inl (k, s) ↦ s
      | inr (k, s) ↦ absurd (k (sym same))
    ] in
    let low = oldest-All m e h in
    omega (
      arith,
      same_keys key now m a n (subst (λ t. All (λ f. t ≤ f.1.seen_at_epoch_seconds) m) newest low),
    )

evict-lookup :
    (key : Text) (now fuel : ℕ) (m : Map Text RememberedNetwork)
    → Ascending m
    → All (NewestAt key now) m
    → lookup key (evict fuel m) ≡ lookup key m
unfolding evict
evict-lookup key now zero m a n = refl
evict-lookup key now (suc fuel) [] a n = refl
evict-lookup key now (suc fuel) (e ∷ m) a n =
    elim (Bool-cases (ltb max_networks (length (e ∷ m)))) [
      | inl many ↦
          let (f, at) = oldest-some e m in
          let other = oldest-other key now (e ∷ m) f a n (ground arith) at in
          let rest =
            evict-lookup key now fuel (remove f.0 (e ∷ m)) (remove-Ascending f.0 (e ∷ m) a)
              (All-remove (NewestAt key now) f.0 (e ∷ m) n) in
          rw (many, at) (rest ∙ lookup-remove_other f.0 key (e ∷ m) other)
      | inr few ↦ rw few refl
    ]

module _ (o : Codecs) (salt : List ℕ) (now : ℕ) (file : MemoryFile) (network : Text)
    (history : TransportHistory) where
  -- A file that `save` writes has at most 16 networks.
  pub remembered-length :
      length (remembered o salt now file network history).networks ≤ max_networks
  unfolding remembered
  remembered-length =
      let f = salted salt file in
      let m =
        insert (network_key o f.salt network)
          (record { seen_at_epoch_seconds = now; history = history }) f.networks in
      evict-length (length m) m (omega arith)

  salted-networks {κ} :
      (P : Map Text RememberedNetwork → Type κ)
      → P []
      → P file.networks
      → P (salted salt file).networks
  unfolding salted
  salted-networks P new old = elim (Bool-cases (utf8_len file.salt == 64)) [
    | inl e ↦ rw e old
    | inr e ↦ rw e new
  ]

  remembered-lookup :
      Ascending file.networks
      → All (λ f. f.1.seen_at_epoch_seconds < now) file.networks
      → lookup
          (network_key o (salted salt file).salt network)
          (remembered o salt now file network history).networks
        ≡ some (record { seen_at_epoch_seconds = now; history = history })
  unfolding remembered NewestAt
  remembered-lookup a before =
      let f = salted salt file in
      let key = network_key o f.salt network in
      let new : RememberedNetwork = record { seen_at_epoch_seconds = now; history = history } in
      let m = insert key new f.networks in
      let up = salted-networks Ascending tt a in
      let seen = salted-networks (All (λ f. f.1.seen_at_epoch_seconds < now)) tt before in
      let newest =
        All-insert_others (NewestAt key now) key new f.networks up (inl (refl, refl))
          (All-mono (λ f b n. inr (n, b)) f.networks seen) in
      evict-lookup key now (length m) m (insert-Ascending key new f.networks up) newest
      ∙ lookup-insert_same key new f.networks

-- What was saved on a network is what is loaded there next, in the state file that the write left:
-- the networks of the file before were seen earlier, and the new file is written in full, within
-- the size limit, and read back by the JSON parser.
pub load-save :
    (o : Codecs) (salt : List ℕ) (now : ℕ) (disk : Option (List ℕ)) (network : Text)
    (history : TransportHistory) (bytes : List ℕ)
    → Ascending (read o disk).networks
    → All (λ f. f.1.seen_at_epoch_seconds < now) (read o disk).networks
    → o.to_vec (remembered o salt now (read o disk) network history) ≡ some bytes
    → o.from_slice bytes ≡ some (remembered o salt now (read o disk) network history)
    → length bytes ≤ max_file_bytes
    → load o (save o salt now true disk (some network) history) (some network) ≡ history
unfolding load save write_file read_file
load-save o salt now disk network history bytes a before writes reads small =
    let file = remembered o salt now (read o disk) network history in
    let fits : ltb max_file_bytes (length bytes) ≡ false = ground arith in
    let found = remembered-lookup o salt now (read o disk) network history a before in
    rw (writes, read, read_file, fits, reads, found) refl

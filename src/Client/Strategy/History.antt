-- ===== src/Client/Strategy/History.antt =====
-- The history stays small whatever is recorded, and what is recorded last is found.
use ket.Common.{
  Text-Key, ℕ, ◌+◌, ◌^◌, ◌≤◌, ◌<◌, ◌≡◌, ◌≢◌, refl, arith, [], ◌∷◌, some, Text, length, All, Map,
  lookup, insert, lookup-insert_same, lookup-insert_other, length-insert_le, All-insert,
}
use ket.Client.Strategy.{
  TransportRecord, TransportHistory, max_records, default_history, bound_records, record_success,
  record_failure, success_record, failure_record, or_default,
}

bound_records_le : (m : Map Text TransportRecord) → length (bound_records m) ≤ max_records
unfolding bound_records
bound_records_le [] = omega arith
bound_records_le (e ∷ m) = ground (arith, bound_records_le m)

All-bound_records {κ} :
    (P : Text × TransportRecord → Type κ) (m : Map Text TransportRecord)
    → All P m
    → All P (bound_records m)
unfolding bound_records
All-bound_records P [] h = tt
All-bound_records P (e ∷ m) (p, h) = ground (arith, All-bound_records P m h)

-- A map that is small enough loses nothing.
bound_records_fits : (m : Map Text TransportRecord) → length m ≤ max_records → bound_records m ≡ m
unfolding bound_records
bound_records_fits [] h = refl
bound_records_fits (e ∷ m) h = ground arith

-- A cooldown ends within two minutes of `now`, and the failures are a `u32`.
abbrev pub Recent : ℕ → Text × TransportRecord → Type 0
Recent now e = (e.1.cooldown_until_epoch_seconds ≤ now + 120) × (e.1.consecutive_failures < 2 ^ 32)

pub Bounded : ℕ → TransportHistory → Type 0
Bounded now h = (length h.records ≤ max_records) × All (Recent now) h.records

-- What a client can have recorded up to a time.
pub data Recorded : ℕ → TransportHistory → Type 0 where
  nothing : {now : ℕ} → Recorded now default_history
  later : {t now : ℕ} {h : TransportHistory} → Recorded t h → t ≤ now → Recorded now h
  success :
      {now : ℕ} {h : TransportHistory} (id : Text) (latency_ms : ℕ)
      → Recorded now h
      → Recorded now (record_success h id latency_ms)
  failure :
      {now : ℕ} {h : TransportHistory} (id : Text) (base_cooldown_seconds : ℕ)
      → Recorded now h
      → Recorded now (record_failure h id now base_cooldown_seconds)

Recent-mono :
    {t now : ℕ} (m : Map Text TransportRecord) → t ≤ now → All (Recent t) m → All (Recent now) m
Recent-mono [] le h = tt
Recent-mono (e ∷ m) le ((a, b), h) = ((omega arith, b), Recent-mono m le h)

record_success-Bounded :
    (now : ℕ) (h : TransportHistory) (id : Text) (latency_ms : ℕ)
    → Bounded now h
    → Bounded now (record_success h id latency_ms)
unfolding Bounded record_success
record_success-Bounded now h id latency_ms (a, b) =
    let m = insert id (success_record latency_ms) h.records in
    (
      bound_records_le m,
      All-bound_records (Recent now) m (
          All-insert (Recent now) id (success_record latency_ms) h.records
            (omega arith, omega arith) b),
    )

record_failure-Bounded :
    (now : ℕ) (h : TransportHistory) (id : Text) (base : ℕ)
    → Bounded now h
    → Bounded now (record_failure h id now base)
unfolding Bounded record_failure failure_record
record_failure-Bounded now h id base (a, b) =
    let r = failure_record now base (or_default (lookup id h.records)) in
    let m = insert id r h.records in
    (
      bound_records_le m,
      All-bound_records (Recent now) m
          (All-insert (Recent now) id r h.records (omega arith, omega arith) b),
    )

-- Whatever was recorded up to a time, the history has at most 32 records, and every cooldown ends
-- at most 120 seconds after that time.
pub Recorded-Bounded : {now : ℕ} {h : TransportHistory} → Recorded now h → Bounded now h
unfolding Bounded
Recorded-Bounded nothing = (omega arith, tt)
Recorded-Bounded (later {t} {now} {h} r le) =
    let (a, b) = Recorded-Bounded r in (a, Recent-mono h.records le b)
Recorded-Bounded (success {now} {h} id latency_ms r) =
    record_success-Bounded now h id latency_ms (Recorded-Bounded r)
Recorded-Bounded (failure {now} {h} id base r) =
    record_failure-Bounded now h id base (Recorded-Bounded r)

module _ (h : TransportHistory) (id : Text) (room : length h.records < max_records) where
  pub lookup-record_success :
      (latency_ms : ℕ)
      → lookup id (record_success h id latency_ms).records ≡ some (success_record latency_ms)
  unfolding record_success
  lookup-record_success latency_ms =
      let r = success_record latency_ms in
      rw
        (
          bound_records_fits (insert id r h.records)
              (omega (arith, length-insert_le id r h.records)),
          lookup-insert_same id r h.records,
        )
        refl

  pub lookup-record_failure :
      (now base : ℕ)
      → lookup id (record_failure h id now base).records
        ≡ some (failure_record now base (or_default (lookup id h.records)))
  unfolding record_failure
  lookup-record_failure now base =
      let r = failure_record now base (or_default (lookup id h.records)) in
      rw
        (
          bound_records_fits (insert id r h.records)
              (omega (arith, length-insert_le id r h.records)),
          lookup-insert_same id r h.records,
        )
        refl

  pub lookup-record_success_other :
      (latency_ms : ℕ) (j : Text)
      → j ≢ id
      → lookup j (record_success h id latency_ms).records ≡ lookup j h.records
  unfolding record_success
  lookup-record_success_other latency_ms j n =
      let r = success_record latency_ms in
      rw
        (bound_records_fits (insert id r h.records)
          (omega (arith, length-insert_le id r h.records)))
        (lookup-insert_other id j r h.records n)

  pub lookup-record_failure_other :
      (now base : ℕ) (j : Text)
      → j ≢ id
      → lookup j (record_failure h id now base).records ≡ lookup j h.records
  unfolding record_failure
  lookup-record_failure_other now base j n =
      let r = failure_record now base (or_default (lookup id h.records)) in
      rw
        (bound_records_fits (insert id r h.records)
          (omega (arith, length-insert_le id r h.records)))
        (lookup-insert_other id j r h.records n)

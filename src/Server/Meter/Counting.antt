-- ===== src/Server/Meter/Counting.antt =====
-- The meter counts every byte of a climbing counter once, however its readings are spread over
-- calls, and whatever other counters are read between them.
use ket.Common.{
  ℕ, ◌+◌, ◌-◌, ◌^◌, ◌≤◌, ◌<◌, ◌≡◌, refl, ◌∙◌, Bool, true, ◌&&◌, List, [], ◌∷◌, Option, none, some,
  Text, arith, if◌then◌else◌, leb, ◌==◌, Bool-cases, Option-cases, inl, inr, retain, same_text,
}
use ket.Server.Validate.{is_some}
use ket.Server.Service.Upkeep.{Moved, moved_by, count_bytes}
use ket.Server.Effects.Counts.{bytes_of, count_bytes-bytes_of}
use ket.Server.Meter.{
  UsageReading, MeteredSession, Counter, UsageMeter, session_by_id, last_reading, insert_reading,
  delta, take_readings, take,
}

insert_reading-last_reading :
    (ks : List Counter) (r : UsageReading) (e : ℕ) (id : Text)
    → last_reading (insert_reading ks r) e id ≡ (
        if r.engine == e && same_text r.session_id id
        then some (r.since, r.bytes)
        else last_reading ks e id)
unfolding last_reading insert_reading
insert_reading-last_reading [] r e id = ground arith
insert_reading-last_reading (k ∷ ks) r e id = ground (arith, insert_reading-last_reading ks r e id)

retain-last_reading :
    (p : Text → Bool) (ks : List Counter) (e : ℕ) (id : Text)
    → p id ≡ true
    → last_reading (retain (λ k. p k.session_id) ks) e id ≡ last_reading ks e id
unfolding last_reading
retain-last_reading p [] e id h = refl
retain-last_reading p (k ∷ ks) e id h = ground (arith, retain-last_reading p ks e id)

-- The end of a climb from `b`: every reading of the session is of one engine's counter, with one
-- start, and at least the one before.
unfoldable pub climb : ℕ → Text → ℕ → ℕ → List UsageReading → Option ℕ
climb e id since b [] = some b
climb e id since b (r ∷ rs) =
    let up = climb e id since r.bytes rs in
    let on = climb e id since b rs in
    if same_text r.session_id id
    then (if r.engine == e && (r.since == since && leb b r.bytes) then up else none)
    else on

climb_le :
    (e : ℕ) (id : Text) (since b b' : ℕ) (rs : List UsageReading)
    → climb e id since b rs ≡ some b'
    → b ≤ b'
unfolding climb
climb_le e id since b b' [] h = ground arith
climb_le e id since b b' (r ∷ rs) h =
    ground (arith, climb_le e id since r.bytes b' rs, climb_le e id since b b' rs)

delta-climb :
    (started_at : ℕ) (s : MeteredSession) (r : UsageReading) (since b : ℕ)
    → r.since ≡ since
    → b ≤ r.bytes
    → delta started_at s (some (since, b)) r ≡ r.bytes - b
unfolding delta
delta-climb started_at s r since b q h = ground arith

take_readings-listed :
    (started_at : ℕ) (ss : List MeteredSession) (last : List Counter) (moved : Moved)
    (r : UsageReading) (rs : List UsageReading) (s : MeteredSession) (before : Option (ℕ × ℕ))
    → session_by_id ss r.session_id ≡ some s
    → last_reading last r.engine r.session_id ≡ before
    → take_readings started_at ss last moved (r ∷ rs)
      ≡ take_readings started_at ss
          (insert_reading last r)
          (count_bytes moved r.session_id (delta started_at s before r))
          rs
unfolding take_readings
take_readings-listed started_at ss last moved r rs s before h k = rw (take_readings, h, k) refl

module _ (started_at : ℕ) (ss : List MeteredSession) (s : MeteredSession) (e : ℕ) (id : Text)
    (since b' : ℕ) (listed : session_by_id ss id ≡ some s) where
  take_readings-climb :
      (last : List Counter) (moved : Moved) (rs : List UsageReading) (b : ℕ)
      → last_reading last e id ≡ some (since, b)
      → climb e id since b rs ≡ some b'
      → bytes_of moved id + b' < 2 ^ 64 + b
      → (bytes_of (take_readings started_at ss last moved rs).1 id + b ≡ bytes_of moved id + b')
        × (last_reading (take_readings started_at ss last moved rs).0 e id ≡ some (since, b'))
  unfolding take_readings climb
  take_readings-climb last moved [] b l k f = ground arith
  take_readings-climb last moved (r ∷ rs) b l k f = elim (Bool-cases (same_text r.session_id id)) [
    | inr other ↦ elim (Option-cases (session_by_id ss r.session_id)) [
      | inl n ↦ rw (take_readings, n) (take_readings-climb last moved rs b l (rw other at k) f)
      | inr (t, n) ↦
          let new = delta started_at t (last_reading last r.engine r.session_id) r in
          let found = insert_reading-last_reading last r e id in
          let counted = count_bytes-bytes_of moved r.session_id new id in
          rw
            (take_readings-listed started_at ss last moved r rs t
              (last_reading last r.engine r.session_id) n refl)
            (ground (
              arith,
              take_readings-climb (insert_reading last r) (count_bytes moved r.session_id new) rs b,
            ))
    ]
    | inl own ↦
        let is : r.session_id ≡ id = ground arith in
        let at : (r.engine ≡ e)
            × (r.since ≡ since)
            × (b ≤ r.bytes)
            × (climb e id since r.bytes rs ≡ some b') =
          ground arith in
        let le = climb_le e id since r.bytes b' rs at.3 in
        let known : session_by_id ss r.session_id ≡ some s = rw is listed in
        let before : last_reading last r.engine r.session_id ≡ some (since, b) = rw (is, at.0) l in
        let adds = delta-climb started_at s r since b at.1 at.2 in
        let found = insert_reading-last_reading last r e id in
        let counted = count_bytes-bytes_of moved r.session_id (r.bytes - b) id in
        rw
          (
            take_readings-listed started_at ss last moved r rs s (some (since, b)) known before,
            adds,
          )
          (ground (
            arith,
            take_readings-climb (insert_reading last r)
                (count_bytes moved r.session_id (r.bytes - b)) rs r.bytes,
          ))
  ]

-- What a session moved by several calls of `take`, each with the sessions and the readings it gets.
unfoldable pub moved_over : UsageMeter → List (List MeteredSession × List UsageReading) → Text → ℕ
unfolding take
moved_over m [] id = 0
moved_over m ((ss, rs) ∷ calls) id =
    let (next, moved) = take m ss rs in bytes_of moved id + moved_over next calls id

-- The end of a climb over several calls, each of which lists the session.
unfoldable pub climb_over :
    ℕ → Text → ℕ → ℕ → List (List MeteredSession × List UsageReading) → Option ℕ
unfolding climb session_by_id
climb_over e id since b [] = some b
climb_over e id since b ((ss, rs) ∷ calls) = elim (climb e id since b rs) [
  | none ↦ none
  | some top ↦
      let rest = climb_over e id since top calls in
      if is_some (session_by_id ss id) then rest else none
]

climb_over_le :
    (e : ℕ) (id : Text) (since b b' : ℕ) (calls : List (List MeteredSession × List UsageReading))
    → climb_over e id since b calls ≡ some b'
    → b ≤ b'
unfolding climb_over
climb_over_le e id since b b' [] h = ground arith
climb_over_le e id since b b' ((ss, rs) ∷ calls) h = elim (Option-cases (climb e id since b rs)) [
  | inl n ↦ absurd (ground arith)
  | inr (top, n) ↦
      ground (arith, climb_le e id since b top rs n, climb_over_le e id since top b' calls)
]

-- Once a counter has been read at `b`, calls that each list its session, and read it as it climbs
-- to `b'` below 2 ^ 64 with no other counter of that session, report `b' - b` bytes of the
-- session in total: no byte twice and none missed. Counters of other sessions may be read in
-- between, and not every call need read it.
pub moved_over-climb :
    (m : UsageMeter) (calls : List (List MeteredSession × List UsageReading)) (e : ℕ) (id : Text)
    (since b b' : ℕ)
    → last_reading m.last e id ≡ some (since, b)
    → climb_over e id since b calls ≡ some b'
    → b' < 2 ^ 64
    → moved_over m calls id + b ≡ b'
unfolding moved_over climb_over take moved_by
moved_over-climb m [] e id since b b' l k f = ground arith
moved_over-climb m ((ss, rs) ∷ calls) e id since b b' l k f =
    elim (Option-cases (climb e id since b rs)) [
      | inl n ↦ absurd (ground arith)
      | inr (top, n) ↦ elim (Option-cases (session_by_id ss id)) [
        | inl z ↦ absurd (ground arith)
        | inr (s, z) ↦
            let known = retain (λ (x : Counter). is_some (session_by_id ss x.session_id)) m.last in
            let kept : last_reading known e id ≡ some (since, b) =
              retain-last_reading (λ i. is_some (session_by_id ss i)) m.last e id (rw z refl) ∙ l in
            let rest : climb_over e id since top calls ≡ some b' = ground arith in
            let up = climb_le e id since b top rs n in
            let up' = climb_over_le e id since top b' calls rest in
            let (now, last) =
              take_readings-climb m.started_at ss s e id since top z known [] rs b kept n
                (ground arith) in
            let later = moved_over-climb (take m ss rs).0 calls e id since top b' last rest f in
            omega arith
      ]
    ]

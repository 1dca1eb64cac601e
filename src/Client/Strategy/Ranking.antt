-- ===== src/Client/Strategy/Ranking.antt =====
-- What the order of the attempts promises: best first, usable only, and what was recorded counts.
use mathlib.Core.List.{Perm}
use ket.Common.{
  Text-Key, ℕ, zero, suc, ◌+◌, ◌-◌, ◌*◌, ◌^◌, ◌≤◌, ◌<◌, min, max, ◌≡◌, ◌≢◌, refl, arith, Bool, true,
  false, List, [], ◌∷◌, ◌++◌, Option, none, some, ◌⊎◌, inl, inr, Bool-cases, length, take, drop,
  any, retain, All, All-retain, All-retain_self, is_empty, Sorted, sort_by, sort_by_perm,
  sort_by-Sorted, length-sort_by, All-sort_by, IsOrder, text_le_total, text_le_trans, lookup,
  text_le,
}
use ket.Server.Model.{TransportProtocol}
use ket.Server.Validate.{is_some_and}
use ket.Client.Transport.{SessionTransport}
use ket.Client.Strategy.{
  TransportRecord, TransportHistory, SelectionPolicy, or_default, usable, included, candidates,
  rank_key, before, rank_for, or_policy, record_success, record_failure, failure_record,
  max_records, same_protocol,
}
use ket.Client.Strategy.History.{
  lookup-record_success, lookup-record_failure, lookup-record_success_other,
  lookup-record_failure_other,
}

before-IsOrder :
    (h : TransportHistory) (now : ℕ) (preference : Option TransportProtocol)
    → IsOrder (before h now preference)
unfolding before
before-IsOrder h now preference = record {
  total = λ s t. text_le_total (rank_key h now preference s) (rank_key h now preference t);
  trans = λ s t u.
      text_le_trans (rank_key h now preference s) (rank_key h now preference t)
        (rank_key h now preference u);
}

take-drop {ℓ} : {A : Type ℓ} (n : ℕ) (xs : List A) → take n xs ++ drop n xs ≡ xs
take-drop zero xs = refl
take-drop (suc n) [] = refl
take-drop (suc n) (x ∷ xs) = ground (arith, take-drop n xs)

length-take {ℓ} : {A : Type ℓ} (n : ℕ) (xs : List A) → length (take n xs) ≡ min n (length xs)
length-take zero xs = omega arith
length-take (suc n) [] = omega arith
length-take (suc n) (x ∷ xs) = omega (arith, length-take n xs)

All-take {ℓ κ} : {A : Type ℓ} (P : A → Type κ) (n : ℕ) (xs : List A) → All P xs → All P (take n xs)
All-take P zero xs h = tt
All-take P (suc n) [] h = tt
All-take P (suc n) (x ∷ xs) (p, h) = (p, All-take P n xs h)

candidates-usable :
    (transports : List SessionTransport) (adapters : List (SessionTransport → Bool))
    (explicit : Option TransportProtocol) (excluded : List TransportProtocol)
    → All
        (λ t. usable adapters explicit t ≡ true)
        (candidates transports adapters explicit excluded)
unfolding candidates
candidates-usable transports adapters (some p) excluded =
    All-retain_self (usable adapters (some p)) transports
candidates-usable transports adapters none excluded =
    let all = retain (usable adapters none) transports in
    let kept = All-retain_self (usable adapters none) transports in
    elim (Bool-cases (any (included excluded) all)) [
      | inl e ↦ rw e (All-retain (λ t. usable adapters none t ≡ true) (included excluded) all kept)
      | inr e ↦ rw e kept
    ]

any-retain {ℓ} :
    {A : Type ℓ} (p : A → Bool) (xs : List A) → any p xs ≡ true → 0 < length (retain p xs)
any-retain p [] h = absurd (cc)
any-retain p (x ∷ xs) h = ground (arith, any-retain p xs)

candidates-some :
    (transports : List SessionTransport) (adapters : List (SessionTransport → Bool))
    (explicit : Option TransportProtocol) (excluded : List TransportProtocol)
    → any (usable adapters explicit) transports ≡ true
    → 0 < length (candidates transports adapters explicit excluded)
unfolding candidates
candidates-some transports adapters (some p) excluded h =
    any-retain (usable adapters (some p)) transports h
candidates-some transports adapters none excluded h =
    let all = retain (usable adapters none) transports in
    elim (Bool-cases (any (included excluded) all)) [
      | inl e ↦ rw e (any-retain (included excluded) all e)
      | inr e ↦ rw e (any-retain (usable adapters none) transports h)
    ]

nonempty {ℓ} : {A : Type ℓ} (xs : List A) → 0 < length xs → is_empty xs ≡ false
nonempty [] h = absurd (omega arith)
nonempty (x ∷ xs) h = refl

base_le : (base k : ℕ) → base ≤ base * 2 ^ min k 3
base_le base zero = omega arith
base_le base (suc zero) = omega arith
base_le base (suc (suc zero)) = omega arith
base_le base (suc (suc (suc k))) =
    let three : min (suc (suc (suc k))) 3 ≡ 3 = omega arith in rw three (omega arith)

-- The record of a transport; one that was never tried has the default's.
abbrev record_of : TransportHistory → SessionTransport → TransportRecord
record_of h t = or_default (lookup t.profile.id h.records)

module _ (h : TransportHistory) (room : length h.records < max_records)
    (preference : Option TransportProtocol) (s t : SessionTransport)
    (other : s.profile.id ≢ t.profile.id) where
  -- A transport that just worked, in a history with room for it, comes before any other of the same
  -- standing with the preferred protocol that is cooling down, failed last, or never worked.
  pub record_success-before :
      (now latency_ms : ℕ)
      → is_some_and (λ p. same_protocol p s.profile.protocol) preference
        ≡ is_some_and (λ p. same_protocol p t.profile.protocol) preference
      → (now < (record_of h s).cooldown_until_epoch_seconds)
        ⊎ ((0 < (record_of h s).consecutive_failures) ⊎ ((record_of h s).worked ≡ false))
      → (before (record_success h t.profile.id latency_ms) now preference t s ≡ true)
        × (before (record_success h t.profile.id latency_ms) now preference s t ≡ false)
  unfolding before rank_key text_le
  record_success-before now latency_ms alike behind =
      let mine = lookup-record_success h t.profile.id room latency_ms in
      let theirs = lookup-record_success_other h t.profile.id room latency_ms s.profile.id other in
      rw (mine, theirs) (ground arith)

  -- A transport that just failed, in a history with room for it, comes after any other that is not
  -- cooling down, for the base cooldown at least, up to 120 seconds and the end of the clock.
  pub record_failure-before :
      (failed_at now base : ℕ)
      → (record_of h s).cooldown_until_epoch_seconds ≤ now
      → now < failed_at + min base 120
      → now < 2 ^ 64 - 1
      → (before (record_failure h t.profile.id failed_at base) now preference s t ≡ true)
        × (before (record_failure h t.profile.id failed_at base) now preference t s ≡ false)
  unfolding before rank_key text_le failure_record
  record_failure-before failed_at now base ready soon fits =
      let mine = lookup-record_failure h t.profile.id room failed_at base in
      let theirs =
        lookup-record_failure_other h t.profile.id room failed_at base s.profile.id other in
      let r = record_of h t in
      let long = base_le base (min (r.consecutive_failures + 1) (2 ^ 32 - 1) - 1) in
      rw (mine, theirs) (ground arith)

module _ (policy : SelectionPolicy) (transports : List SessionTransport)
    (adapters : List (SessionTransport → Bool)) (h : TransportHistory) (now : ℕ)
    (explicit : Option TransportProtocol) (excluded : List TransportProtocol) where
  -- The transports to try, followed by those left out, are the candidates in the order of the
  -- attempts, and as many are tried as the policy allows, at least one if there is any.
  pub rank_for-best :
      (rest : List SessionTransport) × (Perm
        (rank_for policy transports adapters h now explicit excluded ++ rest)
        (candidates transports adapters explicit excluded))
      × (Sorted
          (before h now (or_policy explicit policy.preferred_protocol))
          (rank_for policy transports adapters h now explicit excluded ++ rest))
      × (length (rank_for policy transports adapters h now explicit excluded)
          ≡ min
              (max policy.max_attempts 1)
              (length (candidates transports adapters explicit excluded)))
  unfolding rank_for
  rank_for-best =
      let le = before h now (or_policy explicit policy.preferred_protocol) in
      let n = max policy.max_attempts 1 in
      let cs = candidates transports adapters explicit excluded in
      let sorted = sort_by le cs in
      (
        drop n sorted,
        rw (take-drop n sorted) (sort_by_perm le cs),
        rw (take-drop n sorted) (
            sort_by-Sorted le (before-IsOrder h now (or_policy explicit policy.preferred_protocol))
              cs),
        omega (arith, length-take n sorted, length-sort_by le cs),
      )

  -- Every transport to try is supported by some adapter, and is of the protocol asked for.
  pub rank_for-usable :
      All
        (λ t. usable adapters explicit t ≡ true)
        (rank_for policy transports adapters h now explicit excluded)
  unfolding rank_for
  rank_for-usable =
      let le = before h now (or_policy explicit policy.preferred_protocol) in
      All-take (λ t. usable adapters explicit t ≡ true) (max policy.max_attempts 1)
        (sort_by le (candidates transports adapters explicit excluded))
        (All-sort_by le (λ t. usable adapters explicit t ≡ true)
          (candidates transports adapters explicit excluded)
          (candidates-usable transports adapters explicit excluded))

  -- If some transport is supported, and of the protocol asked for, there is one to try.
  pub rank_for-any :
      any (usable adapters explicit) transports ≡ true
      → is_empty (rank_for policy transports adapters h now explicit excluded) ≡ false
  rank_for-any found =
      let (rest, a, b, size) = rank_for-best in
      let some_left = candidates-some transports adapters explicit excluded found in
      nonempty (rank_for policy transports adapters h now explicit excluded) (omega arith)

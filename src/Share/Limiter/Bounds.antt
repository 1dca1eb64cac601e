-- ===== src/Share/Limiter/Bounds.antt =====
-- The limiter stays small, and it forgets after a window.
use ket.Common.{
  ℕ, ◌+◌, ◌≤◌, ◌≡◌, sym, subst, arith, if◌then◌else◌, Bool, false, ltb, List, [], ◌∷◌, ◌++◌, inl,
  inr, Bool-cases, Option-cases, length, drop, All, All-append, All-retain, length-append,
  length-retain_le, retain_none, All-mono,
}
use ket.Net.{IpAddr}
use ket.Share.Limiter.{
  Failures, SignInLimiter, max_total_failures, max_tracked, window, within, new_limiter,
  failures_of, remove_device, count_failure, forget_before, turns_away, least_recent, drop_oldest,
  failed, succeeded,
}
use ket.Share.Limiter.Devices.{drop_oldest-length, count_failure-length}

-- The limiters that the share can have at a time: the calls come in any order, and time goes on.
pub data Used : ℕ → SignInLimiter → Type 0 where
  fresh : {now : ℕ} → Used now new_limiter
  later : {at now : ℕ} {l : SignInLimiter} → Used at l → at ≤ now → Used now l
  asked :
      {now : ℕ} {l : SignInLimiter} (device : IpAddr) (signed_in : Bool)
      → Used now l
      → Used now (turns_away l device signed_in now).0
  wrong :
      {now : ℕ} {l : SignInLimiter} (device : IpAddr) → Used now l → Used now (failed l device now)
  right :
      {now : ℕ} {l : SignInLimiter} (device : IpAddr) → Used now l → Used now (succeeded l device)

-- The limits of the memory, and no time is ahead.
pub Tidy : ℕ → SignInLimiter → Type 0
Tidy now l =
    (length l.devices ≤ max_tracked)
    × (length l.recent ≤ max_total_failures)
    × All (λ e. e.1.last ≤ now) l.devices
    × All (λ at. at ≤ now) l.recent

remove_device-length :
    (device : IpAddr) (m : List (IpAddr × Failures)) → length (remove_device device m) ≤ length m
unfolding remove_device
remove_device-length device [] = omega arith
remove_device-length device (e ∷ m) = ground (arith, remove_device-length device m)

module _ {κ} (P : IpAddr × Failures → Type κ) where
  All-remove_device :
      (device : IpAddr) (m : List (IpAddr × Failures)) → All P m → All P (remove_device device m)
  unfolding remove_device
  All-remove_device device [] h = tt
  All-remove_device device (e ∷ m) (p, h) = ground (arith, All-remove_device device m h)

  All-drop_oldest : (m : List (IpAddr × Failures)) → All P m → All P (drop_oldest m)
  unfolding drop_oldest
  All-drop_oldest m h = elim (Bool-cases (ltb max_tracked (length m))) [
    | inl many ↦ elim (Option-cases (least_recent m)) [
      | inl n ↦ rw (many, n) h
      | inr (e, at) ↦ rw (many, at) (All-remove_device e.0 m h)
    ]
    | inr few ↦ rw few h
  ]

All-count_failure :
    (device : IpAddr) (now : ℕ) (m : List (IpAddr × Failures))
    → All (λ e. e.1.last ≤ now) m
    → All (λ e. e.1.last ≤ now) (count_failure device now m)
unfolding count_failure
All-count_failure device now [] h = (omega arith, tt)
All-count_failure device now (e ∷ m) (p, h) = ground (arith, All-count_failure device now m h)

forget_before-Tidy : (now : ℕ) (l : SignInLimiter) → Tidy now l → Tidy now (forget_before l now)
unfolding Tidy forget_before
forget_before-Tidy now l (a, b, c, d) = (
  omega (arith, length-retain_le (λ e. within now e.1.last) l.devices),
  omega (arith, length-retain_le (within now) l.recent),
  All-retain (λ e. e.1.last ≤ now) (λ e. within now e.1.last) l.devices c,
  All-retain (λ at. at ≤ now) (within now) l.recent d,
)

recent_tidy :
    (now : ℕ) (recent : List ℕ)
    → length recent ≤ max_total_failures
    → All (λ at. at ≤ now) recent
    → (length
          ((if ltb (length recent) max_total_failures then recent else drop 1 recent) ++ now ∷ [])
        ≤ max_total_failures)
      × All
          (λ at. at ≤ now)
          ((if ltb (length recent) max_total_failures then recent else drop 1 recent) ++ now ∷ [])
recent_tidy now [] b d = (omega arith, (omega arith, tt))
recent_tidy now (at ∷ recent) b (d, ds) =
    elim (Bool-cases (ltb (length (at ∷ recent)) max_total_failures)) [
      | inl few ↦ rw few (
        ground (arith, length-append (at ∷ recent) (now ∷ [])),
        All-append (λ t. t ≤ now) (at ∷ recent) (now ∷ []) (d, ds) (omega arith, tt),
      )
      | inr full ↦ rw full (
        omega (arith, length-append recent (now ∷ [])),
        All-append (λ t. t ≤ now) recent (now ∷ []) ds (omega arith, tt),
      )
    ]

failed-Tidy :
    (now : ℕ) (l : SignInLimiter) (device : IpAddr) → Tidy now l → Tidy now (failed l device now)
unfolding Tidy failed
failed-Tidy now l device t =
    let (a, b, c, d) = forget_before-Tidy now l t in
    let m = (forget_before l now).devices in
    let (e, f) = recent_tidy now (forget_before l now).recent b d in
    let more = count_failure-length device now m in
    (
      drop_oldest-length (count_failure device now m) (omega arith),
      e,
      All-drop_oldest (λ e. e.1.last ≤ now) (count_failure device now m)
          (All-count_failure device now m c),
      f,
    )

turns_away-limiter :
    (l : SignInLimiter) (device : IpAddr) (signed_in : Bool) (now : ℕ)
    → (turns_away l device signed_in now).0 ≡ forget_before l now
unfolding turns_away
turns_away-limiter l device signed_in now = ground arith

-- Whatever was asked and tried, at most 1024 devices and 30 times are kept, none of them ahead.
pub Used-Tidy : {now : ℕ} {l : SignInLimiter} → Used now l → Tidy now l
unfolding Tidy succeeded
Used-Tidy fresh = (omega arith, omega arith, tt, tt)
Used-Tidy (later {at} {now} {l} u le) =
    let (a, b, c, d) = Used-Tidy u in
    (a, b, All-mono (λ e h. omega arith) l.devices c, All-mono (λ t h. omega arith) l.recent d)
Used-Tidy (asked {now} {l} device signed_in u) =
    subst (Tidy now) (sym (turns_away-limiter l device signed_in now))
      (forget_before-Tidy now l (Used-Tidy u))
Used-Tidy (wrong {now} {l} device u) = failed-Tidy now l device (Used-Tidy u)
Used-Tidy (right {now} {l} device u) =
    let (a, b, c, d) = Used-Tidy u in
    (
      omega (arith, remove_device-length device l.devices),
      b,
      All-remove_device (λ e. e.1.last ≤ now) device l.devices c,
      d,
    )

old : (at now : ℕ) → at + window ≤ now → (t : ℕ) → t ≤ at → within now t ≡ false
old at now h t le = ground arith

-- Once a full minute has passed without a wrong password, no device is turned away.
pub turns_away-after_window :
    (at now : ℕ) (l : SignInLimiter) (device : IpAddr) (signed_in : Bool)
    → Used at l
    → at + window ≤ now
    → (turns_away l device signed_in now).1 ≡ false
unfolding turns_away forget_before Tidy failures_of
turns_away-after_window at now l device signed_in u quiet =
    let (a, b, c, d) = Used-Tidy u in
    let none_left =
      retain_none (λ e. within now e.1.last) l.devices
        (All-mono (λ e h. old at now quiet e.1.last h) l.devices c) in
    let none_recent =
      retain_none (within now) l.recent (All-mono (λ t h. old at now quiet t h) l.recent d) in
    rw (none_left, none_recent) (ground arith)

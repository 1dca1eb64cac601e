-- ===== src/Share/Limiter/Devices.antt =====
-- The devices with wrong passwords: counting, forgetting and dropping the oldest.
use ket.Common.{
  ℕ, suc, ◌+◌, ◌≤◌, ◌≡◌, refl, arith, true, ltb, leb, List, [], ◌∷◌, some, inl, inr, Bool-cases,
  Option-cases, length, retain,
}
use ket.Net.{IpAddr}
use ket.Share.Limiter.{
  Failures, max_tracked, within, same_device, failures_of, remove_device, count_failure,
  least_recent, drop_oldest,
}

pub least_recent-length :
    (m : List (IpAddr × Failures)) (e : IpAddr × Failures)
    → least_recent m ≡ some e
    → suc (length (remove_device e.0 m)) ≡ length m
unfolding least_recent remove_device
least_recent-length [] e h = absurd (cc)
least_recent-length (x ∷ m) e h = elim (Option-cases (least_recent m)) [
  | inl n ↦ ground arith
  | inr (b, n) ↦ let rest = least_recent-length m b n in ground arith
]

pub least_recent-some :
    (e : IpAddr × Failures) (m : List (IpAddr × Failures))
    → (f : IpAddr × Failures) × (least_recent (e ∷ m) ≡ some f)
unfolding least_recent
least_recent-some e m = elim (Option-cases (least_recent m)) [
  | inl n ↦ (e, rw n refl)
  | inr (b, n) ↦ elim (Bool-cases (leb e.1.last b.1.last)) [
    | inl c ↦ (e, rw (n, c) refl)
    | inr c ↦ (b, rw (n, c) refl)
  ]
]

pub drop_oldest-length :
    (m : List (IpAddr × Failures))
    → length m ≤ suc max_tracked
    → length (drop_oldest m) ≤ max_tracked
unfolding drop_oldest
drop_oldest-length [] h = omega arith
drop_oldest-length (e ∷ m) h = elim (Bool-cases (ltb max_tracked (length (e ∷ m)))) [
  | inl many ↦
      let (f, at) = least_recent-some e m in
      let shorter = least_recent-length (e ∷ m) f at in rw (many, at) (omega arith)
  | inr few ↦ rw few (ground arith)
]

pub drop_oldest_fits : (m : List (IpAddr × Failures)) → length m ≤ max_tracked → drop_oldest m ≡ m
unfolding drop_oldest
drop_oldest_fits m h = ground arith

pub count_failure-length :
    (device : IpAddr) (now : ℕ) (m : List (IpAddr × Failures))
    → length (count_failure device now m) ≤ suc (length m)
unfolding count_failure
count_failure-length device now [] = omega arith
count_failure-length device now (e ∷ m) = ground (arith, count_failure-length device now m)

pub count_failure-length_known :
    (device : IpAddr) (now : ℕ) (m : List (IpAddr × Failures)) (f : Failures)
    → failures_of device m ≡ some f
    → length (count_failure device now m) ≡ length m
unfolding count_failure failures_of
count_failure-length_known device now [] f h = absurd (cc)
count_failure-length_known device now (e ∷ m) f h =
    ground (arith, count_failure-length_known device now m f)

pub failures_of-count_failure :
    (device : IpAddr) (now : ℕ) (m : List (IpAddr × Failures))
    → (f : Failures) × (failures_of device (count_failure device now m) ≡ some f)
      × (f.last ≡ now)
      × (1 ≤ f.count)
unfolding count_failure failures_of
failures_of-count_failure device now [] =
    (record { count = 1; last = now }, ground arith, refl, omega arith)
failures_of-count_failure device now (e ∷ m) = elim (Bool-cases (same_device device e.0)) [
  | inl s ↦ (record { count = e.1.count + 1; last = now }, rw (s, s) refl, refl, omega arith)
  | inr n ↦ let (f, at, l, c) = failures_of-count_failure device now m in (f, rw (n, n) at, l, c)
]

pub failures_of-count_failure_known :
    (device : IpAddr) (now : ℕ) (m : List (IpAddr × Failures)) (f : Failures)
    → failures_of device m ≡ some f
    → failures_of device (count_failure device now m)
      ≡ some (record { count = f.count + 1; last = now })
unfolding count_failure failures_of
failures_of-count_failure_known device now [] f h = absurd (cc)
failures_of-count_failure_known device now (e ∷ m) f h =
    ground (arith, failures_of-count_failure_known device now m f)

pub failures_of-retain :
    (device : IpAddr) (now : ℕ) (m : List (IpAddr × Failures)) (f : Failures)
    → failures_of device m ≡ some f
    → within now f.last ≡ true
    → failures_of device (retain (λ e. within now e.1.last) m) ≡ some f
unfolding failures_of
failures_of-retain device now [] f h w = absurd (cc)
failures_of-retain device now (e ∷ m) f h w = ground (arith, failures_of-retain device now m f)

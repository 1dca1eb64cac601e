-- ===== src/Server/Usage/Totals.antt =====
-- What the running total says: traffic of one period adds up, earlier periods count nothing.
use ket.Common.{
  ℕ, ◌^◌, ◌≤◌, ◌<◌, ◌≡◌, ◌∙◌, some, arith, inl, inr, saturating_add, Bool-cases, ◌==◌,
  if◌then◌else◌, ◌≢◌, Option-cases, true, ◌↔◌,
}
use ket.Allowance.Period.{AllowancePeriod, DataAllowance, start, end}
use ket.Allowance.Period.Tiling.{
  AfterFirstMonday, AfterFirstMonday-iff, period_contains, period_same,
}
use ket.Server.Model.{AccessGrantRecord, PeriodUsage}
use ket.Server.Usage.{used, used_up_until, add}

-- A total that was started in the period of `now` is read in that period only.
used_of :
    (g : AccessGrantRecord) (a : DataAllowance) (u : PeriodUsage) (t : ℕ)
    → g.allowance ≡ some a
    → g.usage ≡ some u
    → used g t ≡ (if u.period_start_epoch_seconds == start a.period t then u.used_bytes else 0)
unfolding used
used_of g a u t ha hu = rw (ha, hu)

add_usage :
    (g : AccessGrantRecord) (a : DataAllowance) (bytes now : ℕ)
    → g.allowance ≡ some a
    → bytes ≢ 0
    → (add g bytes now).usage
      ≡ some (record {
        period_start_epoch_seconds = start a.period now;
        used_bytes = saturating_add (used g now) bytes;
      })
unfolding add
add_usage g a bytes now ha hb = ground arith

add_zero : (g : AccessGrantRecord) (now : ℕ) → add g 0 now ≡ g
unfolding add
add_zero g now = ground arith

add_allowance : (g : AccessGrantRecord) (bytes now : ℕ) → (add g bytes now).allowance ≡ g.allowance
unfolding add
add_allowance g bytes now = ground arith

-- The whole record but the total is left alone.
pub add_keeps :
    (g : AccessGrantRecord) (bytes now : ℕ)
    → add g bytes now ≡ record g { usage = (add g bytes now).usage }
unfolding add
add_keeps g bytes now = ground arith

used_same :
    (g : AccessGrantRecord) (a : DataAllowance) (s t : ℕ)
    → g.allowance ≡ some a
    → start a.period s ≡ start a.period t
    → used g s ≡ used g t
unfolding used
used_same g a s t ha e = elim (Option-cases g.usage) [
  | inl n ↦ rw (ha, n)
  | inr (u, n) ↦ rw (ha, n, e)
]

-- Traffic counted at `now` on a grant with an allowance, whose total so far fits in a `u64`,
-- shows in the total at every time `t` of the same period, and the total stops at the largest
-- `u64` (for a week, from the first Monday of 1970 on).
pub used-add :
    (g : AccessGrantRecord) (a : DataAllowance) (bytes now t : ℕ)
    → g.allowance ≡ some a
    → used g now < 2 ^ 64
    → AfterFirstMonday a.period now
    → start a.period now ≤ t
    → t < end a.period now
    → used (add g bytes now) t ≡ saturating_add (used g now) bytes
used-add g a bytes now t ha fits late lo hi =
    let same = (period_same a.period now t late lo hi).0 in
    elim (Bool-cases (bytes == 0)) [
      | inl z ↦ rw (zero_of z, add_zero g now) (used_same g a t now ha same ∙ omega arith)
      | inr nz ↦
          used_of (add g bytes now) a _ t (add_allowance g bytes now ∙ ha)
            (add_usage g a bytes now ha (ground arith))
          ∙ ground (arith, same)
    ]
  where
    zero_of : (bytes == 0) ≡ true → bytes ≡ 0
    zero_of z = ground arith

-- A later period starts elsewhere.
start_later : (p : AllowancePeriod) (now t : ℕ) → end p now ≤ t → start p now ≢ start p t
start_later p now t h e =
    let mine = period_contains p now in
    let other = period_contains p t in
    let joined = (period_same p t now late (omega arith) (omega arith)).1 in omega arith
  where
    late : AfterFirstMonday p t
    late =
        (AfterFirstMonday-iff p t).1
          (λ w. unfold end start in ground (arith, rw w at h, rw w at (period_contains p now)))

-- Once a period has ended, the traffic that was last counted in it, not 0 bytes and on a grant
-- with an allowance, leaves a total of 0.
pub used-add_later :
    (g : AccessGrantRecord) (a : DataAllowance) (bytes now t : ℕ)
    → g.allowance ≡ some a
    → bytes ≢ 0
    → end a.period now ≤ t
    → used (add g bytes now) t ≡ 0
used-add_later g a bytes now t ha hb h =
    used_of (add g bytes now) a _ t (add_allowance g bytes now ∙ ha) (add_usage g a bytes now ha hb)
    ∙ ground (arith, start_later a.period now t h)

-- The grant is used up exactly when it has an allowance and this period's total has reached it; the
-- time given is the end of the period, which lies ahead.
pub used_up_until_iff :
    (g : AccessGrantRecord) (now r : ℕ)
    → (used_up_until g now ≡ some r) ↔ (
        (a : DataAllowance) × (g.allowance ≡ some a)
        × (a.bytes ≤ used g now)
        × (r ≡ end a.period now)
        × (now < r))
unfolding used_up_until
used_up_until_iff g now r = elim (Option-cases g.allowance) [
  | inl n ↦ (λ e. absurd (ground arith), λ (a, e, full, at, ahead). absurd (ground arith))
  | inr (a, n) ↦ (
    λ e. (a, n, ground arith, ground arith, ground (arith, period_contains a.period now)),
    λ (b, e, full, at, ahead). ground arith,
  )
]

-- ===== src/Allowance/Period/Tiling.antt =====
-- The periods of one kind follow one another without gap or overlap.
use ket.Common.{ℕ, ◌+◌, ◌-◌, ◌*◌, ◌/◌, ◌^◌, ◌≤◌, ◌<◌, ◌≡◌, ◌↔◌, refl, ap, arith}
use ket.Allowance.Calendar.Defs.{Date, civil_from_days, days_from_civil}
use ket.Allowance.Calendar.Spec.{days_in_month}
use ket.Allowance.Calendar.Days.{days_from_civil-civil_from_days}
use ket.Allowance.Calendar.Months.{
  civil_from_days-IsDate, month_first, month_day, month_end, next_month,
}
use ket.Allowance.Period.{AllowancePeriod, day, week, month, seconds_per_day, first_day, start, end}

-- The number of a date that a day number has is that day number.
number_of : (n : ℕ) (c : Date) → civil_from_days n ≡ c → days_from_civil c.year c.month c.day ≡ n
number_of n c e = rw e at (days_from_civil-civil_from_days n)

-- The month that holds day `d`: its first day `f` and its length.
record Month (d : ℕ) (f : ℕ) : Type 0 where
  starts : f ≤ d
  first : civil_from_days f ≡ record (civil_from_days d) { day = 1 }
  number : days_from_civil (civil_from_days d).year (civil_from_days d).month 1 ≡ f
  ends : d < f + days_in_month (civil_from_days d).year (civil_from_days d).month

Month-of_day : (d : ℕ) → (f : ℕ) × Month d f
Month-of_day d = (
  d - k,
  record {
    starts = omega arith;
    first = back.1;
    number = number_of (d - k) (record (civil_from_days d) { day = 1 }) back.1;
    ends = omega (arith, civil_from_days-IsDate d, back.0);
  },
)
  where
    k : ℕ
    k = (civil_from_days d).day - 1

    back : (k ≤ d) × (civil_from_days (d - k) ≡ record (civil_from_days d) { day = 1 })
    back = month_first k d (omega (arith, civil_from_days-IsDate d))

-- Two days of one month have the same first day.
month_same :
    {d f : ℕ} (t : ℕ)
    → Month d f
    → f ≤ t
    → t < f + days_in_month (civil_from_days d).year (civil_from_days d).month
    → ((civil_from_days t).year ≡ (civil_from_days d).year)
      × ((civil_from_days t).month ≡ (civil_from_days d).month)
month_same {d} {f} t m lo hi =
    let e = month_day (t - f) f (ground (arith, m.first)) (ground (arith, m.first)) in
    ground (arith, at, e, m.first)
  where
    at : civil_from_days (f + (t - f)) ≡ civil_from_days t
    at = ap civil_from_days (omega arith)

-- Day number `f + length` is the first of the next month.
month_next :
    {d f : ℕ}
    → Month d f
    → let next = next_month (civil_from_days d) in
      (civil_from_days (f + days_in_month (civil_from_days d).year (civil_from_days d).month)
        ≡ next)
      × (days_from_civil next.year next.month 1
          ≡ f + days_in_month (civil_from_days d).year (civil_from_days d).month)
month_next {d} {f} m = (after, ground (arith, number_of _ _ after))
  where
    after :
        civil_from_days (f + days_in_month (civil_from_days d).year (civil_from_days d).month)
        ≡ next_month (civil_from_days d)
    after = rw m.first at (month_end f (ap (λ (c : Date). c.day) m.first))

-- The period that holds day `d`, in days: from `first_day` up to, not including, `last`.
next_first : AllowancePeriod → ℕ → ℕ
next_first day d = d + 1
next_first week d = first_day week d + 7
next_first month d =
    let next = next_month (civil_from_days d) in days_from_civil next.year next.month 1

end_lem : (p : AllowancePeriod) (now : ℕ) → end p now ≡ next_first p (now / 86400) * 86400
unfolding end next_first
end_lem day now = omega arith
end_lem week now = omega arith
end_lem month now = ground arith

-- The first days of 1970 had no Monday before them: day 4 was the first.
abbrev pub AfterFirstMonday : AllowancePeriod → ℕ → Type 0
AfterFirstMonday day now = Unit
AfterFirstMonday week now = 4 * seconds_per_day ≤ now
AfterFirstMonday month now = Unit

pub AfterFirstMonday-iff :
    (p : AllowancePeriod) (now : ℕ)
    → AfterFirstMonday p now ↔ (p ≡ week → 4 * seconds_per_day ≤ now)
AfterFirstMonday-iff day now = (λ t w. absurd (cc), λ h. tt)
AfterFirstMonday-iff week now = (λ h w. h, λ h. h refl)
AfterFirstMonday-iff month now = (λ t w. absurd (cc), λ h. tt)

first_day_bounds : (p : AllowancePeriod) (d : ℕ) → (first_day p d ≤ d) × (d < next_first p d)
unfolding next_first first_day
first_day_bounds day d = omega arith
first_day_bounds week d = omega arith
first_day_bounds month d =
    let (f, m) = Month-of_day d in (rw (m.number) m.starts, rw (month_next m).1 m.ends)

first_day_same :
    (p : AllowancePeriod) (d t : ℕ)
    → (p ≡ week → 4 ≤ d)
    → first_day p d ≤ t
    → t < next_first p d
    → (first_day p t ≡ first_day p d) × (next_first p t ≡ next_first p d)
unfolding next_first first_day
first_day_same day d t late lo hi = omega arith
first_day_same week d t late lo hi = let h : 4 ≤ d = late refl in omega arith
first_day_same month d t late lo hi =
    let (f, m) = Month-of_day d in
    let (y, k) = month_same t m (rw m.number at lo) (rw (month_next m).1 at hi) in
    (rw (y, k), rw (y, k))

first_day_next :
    (p : AllowancePeriod) (d : ℕ)
    → (p ≡ week → 4 ≤ d)
    → first_day p (next_first p d) ≡ next_first p d
unfolding next_first first_day
first_day_next day d late = refl
first_day_next week d late = let h : 4 ≤ d = late refl in omega arith
first_day_next month d late =
    let (f, m) = Month-of_day d in let (e, n) = month_next m in rw (n, e) n

-- Every time lies in its period: from the start on, and before the end.
pub period_contains : (p : AllowancePeriod) (now : ℕ) → (start p now ≤ now) × (now < end p now)
period_contains p now =
    let (lo, hi) = first_day_bounds p (now / 86400) in
    rw end_lem (unfold start in (omega arith, omega arith))

-- All times of one period agree on its start and its end (for a week, from the first Monday of
-- 1970 on).
pub period_same :
    (p : AllowancePeriod) (now t : ℕ)
    → AfterFirstMonday p now
    → start p now ≤ t
    → t < end p now
    → (start p t ≡ start p now) × (end p t ≡ end p now)
period_same p now t late lo hi =
    let (s, e) =
      first_day_same p (now / 86400) (t / 86400)
        (λ w. let h = (AfterFirstMonday-iff p now).0 late w in omega arith)
        (unfold start in omega arith) (omega (arith, end_lem p now)) in
    (unfold start in omega arith, omega (arith, end_lem p now, end_lem p t))

-- The end of a period is the start of the next one (for a week, from the first Monday of 1970 on).
pub start-end :
    (p : AllowancePeriod) (now : ℕ) → AfterFirstMonday p now → start p (end p now) ≡ end p now
start-end p now late =
    let e =
      first_day_next p (now / 86400)
        (λ w. let h = (AfterFirstMonday-iff p now).0 late w in omega arith) in
    let n = end_lem p now in
    unfold start in rw (n, whole (next_first p (now / 86400))) (ap (λ (k : ℕ). k * 86400) e)
  where
    whole : (n : ℕ) → n * 86400 / 86400 ≡ n
    whole n = omega arith

days_in_month_le : (y m : ℕ) → days_in_month y m ≤ 31
unfolding days_in_month
days_in_month_le y m = ground arith

next_first_le : (p : AllowancePeriod) (d : ℕ) → next_first p d ≤ d + 31
unfolding next_first first_day
next_first_le day d = omega arith
next_first_le week d = omega arith
next_first_le month d =
    let (f, m) = Month-of_day d in rw (month_next m).1 (omega (arith, m.starts, days_in_month_le))

-- A period ends at most 31 days after any time in it, so a `u64` holds the end of every period that
-- begins before the year 292 000 000 000: no sum of `AllowancePeriod::end` overflows.
pub end_lt : (p : AllowancePeriod) (now : ℕ) → now < 2 ^ 63 → end p now < 2 ^ 64
end_lt p now h = omega (arith, end_lem p now, next_first_le p (now / 86400))

-- ===== src/Allowance/Calendar/Months.antt =====
-- A calendar month as a run of consecutive day numbers.
use ket.Common.{
  ℕ, zero, suc, ◌+◌, ◌-◌, ◌≤◌, ◌<◌, ◌≡◌, refl, sym, ◌∙◌, ap, arith, ◌==◌, if◌then◌else◌,
}
use ket.Allowance.Calendar.Defs.{Date, civil_from_days}
use ket.Allowance.Calendar.Spec.{days_in_month, next_date}
use ket.Allowance.Calendar.Days.{civil_from_days-suc}

pub record IsDate (d : Date) : Type 0 where
  pub month_pos : 1 ≤ d.month
  pub month_le : d.month ≤ 12
  pub day_pos : 1 ≤ d.day
  pub day_le : d.day ≤ days_in_month d.year d.month

next_date-IsDate : (d : Date) → IsDate d → IsDate (next_date d)
unfolding next_date
next_date-IsDate d h = ground arith

civil_from_days-zero : civil_from_days 0 ≡ record { year = 1970; month = 1; day = 1 }
unfolding civil_from_days
civil_from_days-zero = refl

civil_suc : (n : ℕ) → civil_from_days (suc n) ≡ next_date (civil_from_days n)
civil_suc n = ap civil_from_days (add_one n) ∙ civil_from_days-suc n
  where
    add_one : (n : ℕ) → suc n ≡ n + 1
    add_one n = omega arith

-- Every day number has a date with a month from 1 to 12 and a day that the month has.
pub civil_from_days-IsDate : (n : ℕ) → IsDate (civil_from_days n)
civil_from_days-IsDate zero = rw civil_from_days-zero (unfold days_in_month in ground arith)
civil_from_days-IsDate (suc n) = rw (civil_suc n) (next_date-IsDate _ (civil_from_days-IsDate n))

next_date-day :
    (d : Date) (k : ℕ)
    → (next_date d).day ≡ suc (suc k)
    → (d.day ≡ suc k) × (d.year ≡ (next_date d).year) × (d.month ≡ (next_date d).month)
unfolding next_date
next_date-day d k h = ground arith

-- Back to the first of the month: `k` days before a day `k + 1` of a month.
pub month_first :
    (k n : ℕ)
    → (civil_from_days n).day ≡ suc k
    → (k ≤ n) × (civil_from_days (n - k) ≡ record (civil_from_days n) { day = 1 })
month_first zero n h = (omega arith, rw (minus n) (ground arith))
  where
    minus : (n : ℕ) → n - 0 ≡ n
    minus n = omega arith
month_first (suc k) zero h = absurd (ground (arith, civil_from_days-zero))
month_first (suc k) (suc n) h =
    let back =
      next_date-day (civil_from_days n) k (ap (λ (d : Date). d.day) (sym (civil_suc n)) ∙ h) in
    let ih = month_first k n back.0 in
    (omega (arith, ih.0), rw (minus n k) (ih.1 ∙ ground (arith, back, civil_suc n)))
  where
    minus : (n k : ℕ) → suc n - suc k ≡ n - k
    minus n k = omega arith

next_date-inside :
    (d : Date) → d.day < days_in_month d.year d.month → next_date d ≡ record d { day = suc d.day }
unfolding next_date
next_date-inside d h = ground arith

-- On through the month from its first day.
pub month_day :
    (j f : ℕ)
    → (civil_from_days f).day ≡ 1
    → j < days_in_month (civil_from_days f).year (civil_from_days f).month
    → civil_from_days (f + j) ≡ record (civil_from_days f) { day = suc j }
month_day zero f first h = rw (plus f) (ground arith)
  where
    plus : (f : ℕ) → f + 0 ≡ f
    plus f = omega arith
month_day (suc j) f first h =
    let ih = month_day j f first (omega arith) in
    rw (plus f j, civil_suc (f + j), ih) (next_date-inside _ (omega arith))
  where
    plus : (f j : ℕ) → f + suc j ≡ suc (f + j)
    plus f j = omega arith

-- The first of the next month.
abbrev pub next_month : Date → Date
next_month d =
    if d.month == 12
    then record { year = d.year + 1; month = 1; day = 1 }
    else record { year = d.year; month = d.month + 1; day = 1 }

next_date-last :
    (d : Date) (l : ℕ)
    → days_in_month d.year d.month ≡ suc l
    → next_date (record d { day = suc l }) ≡ next_month d
unfolding next_date
next_date-last d l h = ground arith

days_in_month-pos : (y m : ℕ) → (l : ℕ) × (days_in_month y m ≡ suc l)
days_in_month-pos y m = (days_in_month y m - 1, unfold days_in_month in ground arith)

-- The day after a month's last is the first of the next month.
pub month_end :
    (f : ℕ)
    → (civil_from_days f).day ≡ 1
    → civil_from_days (f + days_in_month (civil_from_days f).year (civil_from_days f).month)
      ≡ next_month (civil_from_days f)
month_end f first =
    let c = civil_from_days f in
    let (l, e) = days_in_month-pos c.year c.month in
    rw (e, plus f l, civil_suc (f + l), month_day l f first (omega arith)) (next_date-last c l e)
  where
    plus : (f j : ℕ) → f + suc j ≡ suc (f + j)
    plus f j = omega arith

-- ===== src/Allowance/Calendar/Days.antt =====
-- `civil_from_days` walks the calendar of Spec, and `days_from_civil` undoes it.
use native.Mathlib.Decide.{dec_lt}
use ket.Common.{
  ℕ, ◌+◌, ◌-◌, ◌*◌, ◌/◌, ◌%◌, ◌≤◌, ◌<◌, ◌≡◌, refl, sym, ◌∙◌, ◌≢◌, arith, true, false, ltb, leb,
  ◌==◌, ◌||◌, if◌then◌else◌, ◌⊎◌, inl, inr,
}
use ket.Allowance.Calendar.Defs.{Date, year_of_era, day_of_year, civil_from_days, days_from_civil}
use ket.Allowance.Calendar.Spec.{is_leap, next_date}

month_of : ℕ → ℕ
month_of doy = let sm = (5 * doy + 2) / 153 in if ltb sm 10 then sm + 3 else sm - 9

day_of : ℕ → ℕ
day_of doy = doy - (153 * ((5 * doy + 2) / 153) + 2) / 5 + 1

abbrev date_in : ℕ → ℕ → Date
date_in y doy = record {
  year = y + (if leb (month_of doy) 2 then 1 else 0);
  month = month_of doy;
  day = day_of doy;
}

civil_parts :
    (d : ℕ)
    → civil_from_days d
      ≡ date_in
          (year_of_era ((d + 719468) % 146097) + (d + 719468) / 146097 * 400)
          (day_of_year ((d + 719468) % 146097))
unfolding civil_from_days month_of day_of
civil_parts d = refl

len_of : ℕ → ℕ
len_of m = if m == 4 || m == 6 || m == 9 || m == 11 then 30 else 31

month_step :
    (doy : ℕ)
    → doy < 365
    → ((month_of (doy + 1) ≡ month_of doy)
        × (day_of (doy + 1) ≡ day_of doy + 1)
        × ((month_of doy ≡ 2) ⊎ (day_of doy < len_of (month_of doy))))
      ⊎ ((month_of doy ≢ 12 → month_of (doy + 1) ≡ month_of doy + 1)
          × (month_of doy ≡ 12 → month_of (doy + 1) ≡ 1)
          × (day_of (doy + 1) ≡ 1)
          × (day_of doy ≡ len_of (month_of doy))
          × (month_of doy ≢ 2))
unfolding month_of day_of len_of
month_step doy h = ground arith

feb : (doy : ℕ) → doy < 366 → month_of doy ≡ 2 → day_of doy + 336 ≡ doy
unfolding month_of day_of
feb doy h e = ground arith

month_range : (doy : ℕ) → doy < 366 → (1 ≤ month_of doy) × (month_of doy ≤ 12) × (1 ≤ day_of doy)
unfolding month_of day_of
month_range doy h = ground arith

next-date_in :
    (y doy : ℕ)
    → doy < 365
    → (doy ≡ 364 → is_leap (y + 1) ≡ true)
    → next_date (date_in y doy) ≡ date_in y (doy + 1)
unfolding next_date len_of
next-date_in y doy h leap = ground (arith, month_step doy h, feb doy, month_range doy)

year_end :
    (y doy : ℕ)
    → (doy ≡ 365) × (is_leap (y + 1) ≡ true) ⊎ (doy ≡ 364) × (is_leap (y + 1) ≡ false)
    → next_date (date_in y doy) ≡ date_in (y + 1) 0
unfolding next_date month_of day_of
year_end y doy h = ground arith

-- which March-based years have a day 365
leap_steps :
    (d : ℕ)
    → d < 146096
    → (year_of_era (d + 1) ≡ year_of_era d)
        × (day_of_year (d + 1) ≡ day_of_year d + 1)
        × (day_of_year d < 365)
        × (day_of_year d ≡ 364 → is_leap (year_of_era d + 1) ≡ true)
      ⊎ (year_of_era (d + 1) ≡ year_of_era d + 1)
        × (day_of_year (d + 1) ≡ 0)
        × ((day_of_year d ≡ 365) × (is_leap (year_of_era d + 1) ≡ true)
            ⊎ (day_of_year d ≡ 364) × (is_leap (year_of_era d + 1) ≡ false))
unfolding day_of_year is_leap
leap_steps d h = ground arith

era_end :
    (year_of_era 146096 ≡ 399)
    × (day_of_year 146096 ≡ 365)
    × (year_of_era 0 ≡ 0)
    × (day_of_year 0 ≡ 0)
unfolding day_of_year
era_end = ground arith

leap_era : (e y : ℕ) → is_leap (y + e * 400) ≡ is_leap y
unfolding is_leap
leap_era e y = ground arith

next_of_era :
    (e doe : ℕ)
    → doe < 146096
    → next_date (date_in (year_of_era doe + e * 400) (day_of_year doe))
      ≡ date_in (year_of_era (doe + 1) + e * 400) (day_of_year (doe + 1))
next_of_era e doe h = elim (leap_steps doe h) [
  | inl (same, next, low, leap) ↦
      rw (same, next)
        (next-date_in _ _ low (λ q. rw (regroup, leap_era e (year_of_era doe + 1)) (leap q)))
  | inr (up, first, last) ↦
      rw (up, first, ← regroup)
        (year_end _ _ (elim last [
          | inl (a, l) ↦ inl (a, rw (regroup, leap_era e (year_of_era doe + 1)) l)
          | inr (a, l) ↦ inr (a, rw (regroup, leap_era e (year_of_era doe + 1)) l)
        ]))
]
  where
    regroup : year_of_era doe + e * 400 + 1 ≡ year_of_era doe + 1 + e * 400
    regroup = omega arith

leap : (e : ℕ) → is_leap (399 + e * 400 + 1) ≡ true
unfolding is_leap
leap e = ground arith

era_step :
    (e : ℕ)
    → next_date (date_in (year_of_era 146096 + e * 400) (day_of_year 146096))
      ≡ date_in (year_of_era 0 + (e + 1) * 400) (day_of_year 0)
era_step e =
    rw (era_end.0, era_end.1, era_end.2, era_end.3)
      (year_end (399 + e * 400) 365 (inl (refl, leap e)) ∙ rw same)
  where
    same : 399 + e * 400 + 1 ≡ 0 + (e + 1) * 400
    same = omega arith

-- The day after a day number is the next date of the calendar.
pub civil_from_days-suc : (d : ℕ) → civil_from_days (d + 1) ≡ next_date (civil_from_days d)
civil_from_days-suc d = elim (dec_lt ((d + 719468) % 146097) 146096) [
  | yes low ↦
      rw (civil_parts (d + 1), civil_parts d, inside low, same low) (sym (next_of_era _ _ low))
  | no high ↦
      rw (civil_parts (d + 1), civil_parts d, at_end high, at_start high, up high)
        (sym (era_step _))
]
  where
    inside : (d + 719468) % 146097 < 146096 → (d + 1 + 719468) % 146097 ≡ (d + 719468) % 146097 + 1
    inside h = omega arith

    same : (d + 719468) % 146097 < 146096 → (d + 1 + 719468) / 146097 ≡ (d + 719468) / 146097
    same h = omega arith

    at_end : ¬ ((d + 719468) % 146097 < 146096) → (d + 719468) % 146097 ≡ 146096
    at_end h = omega arith

    at_start : ¬ ((d + 719468) % 146097 < 146096) → (d + 1 + 719468) % 146097 ≡ 0
    at_start h = omega arith

    up : ¬ ((d + 719468) % 146097 < 146096) → (d + 1 + 719468) / 146097 ≡ (d + 719468) / 146097 + 1
    up h = omega arith

days_of_parts :
    (e y doy : ℕ)
    → y < 400
    → doy < 366
    → days_from_civil (date_in (y + e * 400) doy).year (month_of doy) (day_of doy)
      ≡ e * 146097 + (y * 365 + y / 4 - y / 100 + doy) - 719468
unfolding days_from_civil month_of day_of
days_of_parts e y doy hy hd = ground arith

year_day :
    (d : ℕ)
    → d < 146097
    → year_of_era d * 365 + year_of_era d / 4 - year_of_era d / 100 + day_of_year d ≡ d
unfolding day_of_year
year_day d h = omega arith

in_range : (d : ℕ) → d < 146097 → (year_of_era d < 400) × (day_of_year d < 366)
unfolding day_of_year
in_range d h = omega arith

-- `days_from_civil` takes the date of every day number back to that number.
pub days_from_civil-civil_from_days :
    (d : ℕ) → let c = civil_from_days d in days_from_civil c.year c.month c.day ≡ d
days_from_civil-civil_from_days d = rw civil_parts (
    days_of_parts ((d + 719468) / 146097) _ _ r.0 r.1
    ∙ rw (year_day ((d + 719468) % 146097) (omega arith)) (omega arith))
  where
    r : (year_of_era ((d + 719468) % 146097) < 400) × (day_of_year ((d + 719468) % 146097) < 366)
    r = in_range _ (omega arith)

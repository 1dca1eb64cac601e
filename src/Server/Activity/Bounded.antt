-- ===== src/Server/Activity/Bounded.antt =====
-- Each grant's log stays short, counts repeats in one entry, and shows the latest thing first.
use ket.Common.{
  leb, Unique-snoc, ℕ, ◌+◌, ◌≤◌, ◌≡◌, refl, sym, ◌∙◌, ◌≢◌, true, false, List, [], ◌∷◌, ◌++◌,
  reverse, map, none, some, Text, arith, length, length-append, All, Unique, drop, if◌then◌else◌,
  same_text, Bool-cases, inl, inr, ◌⊎◌,
}
use mathlib.Core.List.{reverse-append, map-append}
use ket.Server.Activity.{
  Activity, GrantActivity, ActivityLog, same_as, remove_same, record_entry, first_entry, count_up,
  entries_of, record_activity, recent,
}

-- What an entry counts.
abbrev pub key : GrantActivity → Activity
key e = record {
  event = e.event;
  session_id = e.session_id;
  client_name = e.client_name;
  protocol = e.protocol;
}

same_as→ : (a : Activity) (e : GrantActivity) → same_as a e ≡ true → key e ≡ a
unfolding same_as
same_as→ a e h = ground arith

same_as→ne : (a : Activity) (e : GrantActivity) → same_as a e ≡ false → key e ≢ a
unfolding same_as
same_as→ne a e h q = ground arith

-- A short log with one entry for each thing.
pub record Tidy (es : List GrantActivity) : Type 0 where
  pub short : length es ≤ 24
  pub apart : Unique (map key es)

-- The log `es` without the entry `f`, which counts `a`.
record Without (a : Activity) (es : List GrantActivity) (f : GrantActivity)
    (rest : List GrantActivity) : Type 0 where
  counts : key f ≡ a
  shorter : length es ≡ length rest + 1
  apart : Unique (map key rest)
  no_other : All (λ k. k ≢ a) (map key rest)
  fewer : (k : Activity) → All (λ j. k ≢ j) (map key es) → All (λ j. k ≢ j) (map key rest)

no_more :
    (a : Activity) (ks : List Activity) (k : Activity)
    → k ≡ a
    → All (λ j. k ≢ j) ks
    → All (λ j. j ≢ a) ks
no_more a [] k e h = tt
no_more a (j ∷ ks) k e (h, hs) = (λ q. h (e ∙ sym q), no_more a ks k e hs)

remove_same_cases :
    (a : Activity) (es : List GrantActivity)
    → Unique (map key es)
    → ((remove_same a es ≡ none) × All (λ k. k ≢ a) (map key es))
      ⊎ ((f : GrantActivity) × (rest : List GrantActivity) × (remove_same a es ≡ some (f, rest))
          × Without a es f rest)
unfolding remove_same
remove_same_cases a [] u = inl (refl, tt)
remove_same_cases a (e ∷ es) (new, u) = elim (Bool-cases (same_as a e)) [
  | inl same ↦ inr (
    e,
    es,
    rw same,
    record {
      counts = same_as→ a e same;
      shorter = omega arith;
      apart = u;
      no_other = no_more a (map key es) (key e) (same_as→ a e same) new;
      fewer = λ k h. h.1;
    },
  )
  | inr other ↦ elim (remove_same_cases a es u) [
    | inl (n, ne) ↦ inl (rw (other, n), (same_as→ne a e other, ne))
    | inr (f, rest, q, w) ↦ inr (
      f,
      e ∷ rest,
      rw (other, q),
      record {
        counts = w.counts;
        shorter = omega (arith, w.shorter);
        apart = (w.fewer (key e) new, w.apart);
        no_other = (same_as→ne a e other, w.no_other);
        fewer = λ k h. (h.0, w.fewer k h.1);
      },
    )
  ]
]

Tidy-snoc :
    (es : List GrantActivity) (e : GrantActivity)
    → length es ≤ 23
    → Unique (map key es)
    → All (λ k. k ≢ key e) (map key es)
    → Tidy (es ++ e ∷ [])
Tidy-snoc es e h u n = record {
  short = omega (arith, length-append es (e ∷ []));
  apart = rw (map-append key es (e ∷ [])) (Unique-snoc (map key es) (key e) u n);
}

drop_oldest :
    (a : Activity) (es : List GrantActivity)
    → Tidy es
    → All (λ k. k ≢ a) (map key es)
    → let kept = if leb 24 (length es) then drop 1 es else es in
      (length kept ≤ 23) × Unique (map key kept) × All (λ k. k ≢ a) (map key kept)
drop_oldest a [] t n = (omega arith, tt, tt)
drop_oldest a (e ∷ es) t n = ground (arith, t.apart, t.short)

-- Recording keeps a grant's log at 24 entries at most, no two of which count the same thing.
pub record_entry-Tidy :
    (a : Activity) (now : ℕ) (es : List GrantActivity) → Tidy es → Tidy (record_entry a now es)
unfolding record_entry
record_entry-Tidy a now es t = elim (remove_same_cases a es t.apart) [
  | inl (e, n) ↦
      let (short, apart, new) = drop_oldest a es t n in
      rw (e, record_entry) (Tidy-snoc _ (first_entry a now) short apart new)
  | inr (f, rest, e, w) ↦
      rw (e, record_entry)
        (Tidy-snoc rest (record f { count = count_up f.count; last_at_epoch_seconds = now })
          (omega (arith, t.short, w.shorter)) w.apart (rw (w.counts) w.no_other))
]

abbrev pub AllTidy : ActivityLog → Type 0
AllTidy log = All (λ g. Tidy g.1) log

-- Logs of at most 24 entries each, one for each thing, stay so whatever is recorded.
pub record_activity-AllTidy :
    (log : ActivityLog) (id : Text) (a : Activity) (now : ℕ)
    → AllTidy log
    → AllTidy (record_activity log id a now)
unfolding record_activity
record_activity-AllTidy [] id a now t =
    (record_entry-Tidy a now [] (record { short = omega arith; apart = tt }), tt)
record_activity-AllTidy ((i, es) ∷ log) id a now (t, ts) = elim (Bool-cases (same_text i id)) [
  | inl here ↦ rw here (record_entry-Tidy a now es t, ts)
  | inr there ↦ rw there (t, record_activity-AllTidy log id a now ts)
]

-- Recording changes the log of the one grant and of no other.
pub entries_of-record_activity :
    (log : ActivityLog) (id other : Text) (a : Activity) (now : ℕ)
    → entries_of (record_activity log id a now) other ≡ (
        if same_text id other then record_entry a now (entries_of log id) else entries_of log other)
unfolding entries_of record_activity
entries_of-record_activity [] id other a now = ground arith
entries_of-record_activity ((i, es) ∷ log) id other a now =
    ground (arith, entries_of-record_activity log id other a now)

entries_of-Tidy : (log : ActivityLog) (id : Text) → AllTidy log → Tidy (entries_of log id)
unfolding entries_of
entries_of-Tidy [] id t = record { short = omega arith; apart = tt }
entries_of-Tidy ((i, es) ∷ log) id (t, ts) = elim (Bool-cases (same_text i id)) [
  | inl here ↦ rw here t
  | inr there ↦ rw there (entries_of-Tidy log id ts)
]

record_entry_last :
    (a : Activity) (now : ℕ) (es : List GrantActivity)
    → Unique (map key es)
    → (e : GrantActivity) × (rest : List GrantActivity) × (record_entry a now es ≡ rest ++ e ∷ [])
      × (key e ≡ a)
      × (e.last_at_epoch_seconds ≡ now)
unfolding record_entry
record_entry_last a now es u = elim (remove_same_cases a es u) [
  | inl (e, n) ↦ (
    first_entry a now,
    if leb 24 (length es) then drop 1 es else es,
    rw (e, record_entry),
    refl,
    refl,
  )
  | inr (f, rest, e, w) ↦ (
    record f { count = count_up f.count; last_at_epoch_seconds = now },
    rest,
    rw (e, record_entry),
    w.counts,
    refl,
  )
]

-- In such logs, right after something is recorded it comes first in what `recent` lists, with its
-- time.
pub recent-record_activity :
    (log : ActivityLog) (id : Text) (a : Activity) (now : ℕ)
    → AllTidy log
    → (e : GrantActivity) × (older : List GrantActivity) × (recent (record_activity log id a now) id
        ≡ e ∷ older)
      × (key e ≡ a)
      × (e.last_at_epoch_seconds ≡ now)
unfolding recent
recent-record_activity log id a now t =
    let (e, rest, at, k, l) =
      record_entry_last a now (entries_of log id) (entries_of-Tidy log id t).apart in
    (e, reverse rest, rw (found, at) (reverse-append rest (e ∷ [])), k, l)
  where
    found : entries_of (record_activity log id a now) id ≡ record_entry a now (entries_of log id)
    found = ground (arith, entries_of-record_activity log id id a now)

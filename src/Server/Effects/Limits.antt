-- ===== src/Server/Effects/Limits.antt =====
-- After an admin's change, the grant's live sessions are within its new device limit, and its leases
-- end with it.
use ket.Common.{
  ℕ, ◌+◌, ◌≤◌, ◌≡◌, refl, ap, Bool, true, false, not, ◌&&◌, subst, List, [], ◌∷◌, some, Text, arith,
  leb, Bool-cases, inl, inr, any, find, retain, length, length-retain_le, same_text, map, All,
  All-mono, All-retain, ok,
}
use ket.Server.Model.{AccessGrantRecord, SessionRecord, PersistedState}
use ket.Server.Errors.{SessionAllocation}
use ket.Server.Slots.{is_live}
use ket.Server.Admin.{
  UpdateAccessGrantRequest, changed_grant, ends_all, insert_sorted, sort_sessions, ending_ids,
  of_grant, cut_sessions, ending_of, apply,
}
use ket.Server.Service.Grants.{live_of_grant}
use ket.Server.Keeps.Grants.{apply_ok}

-- Sorting keeps how many sessions pass a test.
length-insert_sorted :
    (p : SessionRecord → Bool) (s : SessionRecord) (ss : List SessionRecord)
    → length (retain p (insert_sorted s ss)) ≡ length (retain p (s ∷ ss))
unfolding insert_sorted
length-insert_sorted p s [] = refl
length-insert_sorted p s (t ∷ ts) = ground (arith, length-insert_sorted p s ts)

length-sort_sessions :
    (p : SessionRecord → Bool) (ss : List SessionRecord)
    → length (retain p (sort_sessions ss)) ≡ length (retain p ss)
unfolding sort_sessions
length-sort_sessions p [] = refl
length-sort_sessions p (s ∷ ss) =
    let a = length-insert_sorted p s (sort_sessions ss) in ground (arith, length-sort_sessions p ss)

-- The sessions that the loop does not end, and that `q` keeps, are within the limit.
ending_ids-limit :
    (max now active : ℕ) (q : SessionRecord → Bool) (ss : List SessionRecord)
    → ((s : SessionRecord)
        → q s ≡ true
        → any (λ i. same_text i s.id) (ending_ids false max now active ss) ≡ false)
    → active ≤ max
    → active + length (retain (λ s. is_live now s && q s) ss) ≤ max
unfolding ending_ids
ending_ids-limit max now active q [] h le = omega arith
ending_ids-limit max now active q (s ∷ ss) h le = elim (Bool-cases (is_live now s)) [
  | inr dead ↦ rw dead (ending_ids-limit max now active q ss (λ x t. rw dead at (h x t)) le)
  | inl live ↦ elim (Bool-cases (leb max active)) [
    | inr room ↦
        let more =
          ending_ids-limit max now (active + 1) q ss (λ x t. rw (live, room) at (h x t))
            (ground arith) in
        rw live (ground arith)
    | inl full ↦
        let hs = (λ (x : SessionRecord) (t : q x ≡ true). rw (live, full) at (h x t)) in
        let same = ending_ids-limit max now active q ss (λ x t. ground (arith, hs x t)) le in
        let goes : q s ≡ false = elim (Bool-cases (q s)) [
          | inr f ↦ f
          | inl t ↦ absurd (ground (arith, hs s t))
        ] in
        rw (live, goes) same
  ]
]

-- A session that the loop goes through ends when all end.
ending_ids-all :
    (max now active : ℕ) (ss : List SessionRecord)
    → ending_ids true max now active ss ≡ map (λ s. s.id) ss
unfolding ending_ids
ending_ids-all max now active [] = refl
ending_ids-all max now active (s ∷ ss) = ap (λ l. s.id ∷ l) (ending_ids-all max now active ss)

-- The sessions of the grant that stay, once its leases are cut.
abbrev staying : Text → AccessGrantRecord → Bool → ℕ → List SessionRecord → List SessionRecord
staying id new end_all now ss =
    retain (λ s. not (any (λ i. same_text i s.id) (ending_of id new end_all now ss))) ss

-- The count of one test after another is the count of both.
length-retain_and :
    (p q : SessionRecord → Bool) (ss : List SessionRecord)
    → length (retain p (retain q ss)) ≡ length (retain (λ s. p s && q s) ss)
length-retain_and p q [] = refl
length-retain_and p q (s ∷ ss) = ground (arith, length-retain_and p q ss)

length-retain_same :
    (p q : SessionRecord → Bool) (ss : List SessionRecord)
    → ((s : SessionRecord) → p s ≡ q s)
    → length (retain p ss) ≡ length (retain q ss)
length-retain_same p q [] h = refl
length-retain_same p q (s ∷ ss) h = ground (arith, h s, length-retain_same p q ss h)

staying-limit :
    (id : Text) (new : AccessGrantRecord) (now : ℕ) (ss : List SessionRecord)
    → live_of_grant id now (staying id new false now ss) ≤ new.max_connections
unfolding ending_of
staying-limit id new now ss =
    let q =
      λ (s : SessionRecord). not (any (λ i. same_text i s.id) (ending_of id new false now ss)) in
    let own = retain (of_grant id) ss in
    let limit =
      ending_ids-limit new.max_connections now 0 q (sort_sessions own) (λ s t. ground arith)
        (omega arith) in
    let sorted = length-sort_sessions (λ s. is_live now s && q s) own in
    let own_live = length-retain_and (λ s. is_live now s && q s) (of_grant id) ss in
    let stay_live = length-retain_and (λ s. same_text s.grant_id id && is_live now s) q ss in
    let swap =
      length-retain_same (λ s. (is_live now s && q s) && of_grant id s)
        (λ s. (same_text s.grant_id id && is_live now s) && q s) ss (λ s. ground arith) in
    omega arith

-- Every text of a list is in it.
All-any_self : (xs : List Text) → All (λ i. any (λ j. same_text j i) xs ≡ true) xs
All-any_self [] = tt
All-any_self (x ∷ xs) = (
  ground arith,
  All-mono (λ i (t : any (λ j. same_text j i) xs ≡ true). ground arith) xs (All-any_self xs),
)

length-retain_named :
    (ids : List Text) (ss : List SessionRecord)
    → All (λ i. any (λ j. same_text j i) ids ≡ true) (map (λ s. s.id) ss)
    → length (retain (λ s. not (any (λ j. same_text j s.id) ids)) ss) ≡ 0
length-retain_named ids [] h = refl
length-retain_named ids (s ∷ ss) (h, hs) = rw h (length-retain_named ids ss hs)

staying-none :
    (id : Text) (new : AccessGrantRecord) (now : ℕ) (ss : List SessionRecord)
    → length (retain (of_grant id) (staying id new true now ss)) ≡ 0
unfolding ending_of
staying-none id new now ss =
    let q =
      λ (s : SessionRecord). not (any (λ i. same_text i s.id) (ending_of id new true now ss)) in
    let own = retain (of_grant id) ss in
    let sorted = sort_sessions own in
    let all = ending_ids-all new.max_connections now 0 sorted in
    let gone =
      length-retain_named (ending_ids true new.max_connections now 0 sorted) sorted
        (rw all (All-any_self (map (λ s. s.id) sorted))) in
    let sort_keeps = length-sort_sessions q own in
    let own_gone = length-retain_and q (of_grant id) ss in
    let stay = length-retain_and (of_grant id) q ss in
    let swap =
      length-retain_same (λ s. q s && of_grant id s) (λ s. of_grant id s && q s) ss
        (λ s. ground arith) in
    omega arith

staying-some :
    (id : Text) (new : AccessGrantRecord) (now : ℕ) (end_all : Bool) (ss : List SessionRecord)
    → live_of_grant id now (staying id new end_all now ss) ≤ new.max_connections
staying-some id new now false ss = staying-limit id new now ss
staying-some id new now true ss =
    let none_left = staying-none id new now ss in
    let fewer = length-retain_and (is_live now) (of_grant id) (staying id new true now ss) in
    let le = length-retain_le (is_live now) (retain (of_grant id) (staying id new true now ss)) in
    let swap =
      length-retain_same (λ s. is_live now s && of_grant id s)
        (λ s. same_text s.grant_id id && is_live now s) (staying id new true now ss)
        (λ s. ground arith) in
    omega arith

cut_sessions-ends :
    (id : Text) (e : ℕ) (ss : List SessionRecord)
    → All (λ s. s.expires_at_epoch_seconds ≤ e) (retain (of_grant id) (cut_sessions id (some e) ss))
unfolding cut_sessions
cut_sessions-ends id e [] = tt
cut_sessions-ends id e (s ∷ ss) = elim (Bool-cases (of_grant id s)) [
  | inl t ↦ rw (t, t) (ground arith, cut_sessions-ends id e ss)
  | inr t ↦ rw (t, t) (cut_sessions-ends id e ss)
]

retain_comm :
    (p q : SessionRecord → Bool) (ss : List SessionRecord)
    → retain p (retain q ss) ≡ retain q (retain p ss)
retain_comm p q [] = refl
retain_comm p q (s ∷ ss) = ground (arith, retain_comm p q ss)

module _ (st next : PersistedState) (id : Text) (r : UpdateAccessGrantRequest) (now : ℕ)
    (ended : List SessionAllocation) (g : AccessGrantRecord) where
  apply-sessions :
      find (λ g. same_text g.id id) st.grants ≡ some g
      → apply st id r now ≡ ok (next, ended)
      → next.sessions
        ≡ staying id
            (changed_grant r now g)
            (ends_all r now g)
            now
            (cut_sessions id (changed_grant r now g).expires_at_epoch_seconds st.sessions)
  apply-sessions found h =
      let (g', f, n) = apply_ok st next id r now ended h in
      let same : g' ≡ g = ground arith in
      subst
        (λ (x : AccessGrantRecord).
          next.sessions
          ≡ staying id (changed_grant r now x) (ends_all r now x) now
              (cut_sessions id (changed_grant r now x).expires_at_epoch_seconds st.sessions))
        same (ap (λ (x : PersistedState). x.sessions) n)

  -- A change of a grant that succeeds leaves the grant at most as many live sessions as its new
  -- device limit.
  pub apply-limit :
      find (λ g. same_text g.id id) st.grants ≡ some g
      → apply st id r now ≡ ok (next, ended)
      → live_of_grant id now next.sessions ≤ (changed_grant r now g).max_connections
  apply-limit found h = rw (apply-sessions found h) (
      staying-some id (changed_grant r now g) now (ends_all r now g)
        (cut_sessions id (changed_grant r now g).expires_at_epoch_seconds st.sessions))

  -- A change that succeeds and ends all sessions, as `ends_all` says, leaves no session of the
  -- grant.
  pub apply-ends_all :
      find (λ g. same_text g.id id) st.grants ≡ some g
      → apply st id r now ≡ ok (next, ended)
      → ends_all r now g ≡ true
      → length (retain (λ s. same_text s.grant_id id) next.sessions) ≡ 0
  apply-ends_all found h all =
      rw (apply-sessions found h, all)
        (staying-none id (changed_grant r now g) now
          (cut_sessions id (changed_grant r now g).expires_at_epoch_seconds st.sessions))

  -- After a change that succeeds and gives the grant an end or leaves it one, no lease of the
  -- grant runs past that end.
  pub apply-lease_end :
      (e : ℕ)
      → find (λ g. same_text g.id id) st.grants ≡ some g
      → apply st id r now ≡ ok (next, ended)
      → (changed_grant r now g).expires_at_epoch_seconds ≡ some e
      → All
          (λ s. s.expires_at_epoch_seconds ≤ e)
          (retain (λ s. same_text s.grant_id id) next.sessions)
  apply-lease_end e found h until =
      let new = changed_grant r now g in
      let q = λ (s : SessionRecord). not (
        any (λ i. same_text i s.id)
          (ending_of id new (ends_all r now g) now
            (cut_sessions id new.expires_at_epoch_seconds st.sessions))) in
      rw
        (
          apply-sessions found h,
          retain_comm (of_grant id) q (cut_sessions id new.expires_at_epoch_seconds st.sessions),
        )
        (All-retain (λ s. s.expires_at_epoch_seconds ≤ e) q _
          (rw until (cut_sessions-ends id e st.sessions)))

-- ===== src/Server/Effects/Counts.antt =====
-- What a count of moved data adds to each grant, and which sessions it ends.
use ket.Common.{
  ℕ, ◌+◌, ◌-◌, ◌^◌, ◌<◌, ◌≡◌, false, not, List, [], ◌∷◌, none, some, Text, arith, min,
  saturating_add, if◌then◌else◌, ltb, Bool-cases, Option-cases, inl, inr, any, same_text, All,
  All-mono, All-retain_self, ok,
}
use ket.Server.Model.{SessionRecord, Crypto}
use ket.Server.Errors.{SessionAllocation}
use ket.Server.Service.State.{AccessService, Outside}
use ket.Server.Service.Upkeep.{
  Moved, moved_by, count_bytes, per_grant, used_up_ids, counted, record_usage,
}
use ket.Server.Keeps.Upkeep.{record_usage_ok}

-- What a map says for an ID, with nothing for a missing one.
abbrev pub bytes_of : Moved → Text → ℕ
bytes_of moved id = elim (moved_by moved id) [ none ↦ 0 | some n ↦ n ]

-- The plain sum of what the grant's sessions moved.
abbrev pub total_of : Moved → Text → List SessionRecord → ℕ
total_of moved id [] = 0
total_of moved id (s ∷ ss) =
    (if same_text s.grant_id id then bytes_of moved s.id else 0) + total_of moved id ss

pub count_bytes-bytes_of :
    (totals : Moved) (key : Text) (bytes : ℕ) (id : Text)
    → bytes_of (count_bytes totals key bytes) id
      ≡ (if same_text key id then saturating_add (bytes_of totals id) bytes else bytes_of totals id)
unfolding count_bytes moved_by
count_bytes-bytes_of [] key bytes id = ground arith
count_bytes-bytes_of ((i, n) ∷ totals) key bytes id =
    ground (arith, count_bytes-bytes_of totals key bytes id)

-- The loop over the sessions adds to each grant's total, below 2 ^ 64 before, what the grant's
-- sessions moved, and stops at the largest `u64`.
pub per_grant-bytes_of :
    (moved totals : Moved) (ss : List SessionRecord) (id : Text)
    → bytes_of totals id < 2 ^ 64
    → bytes_of (per_grant moved totals ss) id
      ≡ min (bytes_of totals id + total_of moved id ss) (2 ^ 64 - 1)
unfolding per_grant
per_grant-bytes_of moved totals [] id h = ground arith
per_grant-bytes_of moved totals (s ∷ ss) id h = elim (Option-cases (moved_by moved s.id)) [
  | inl n ↦ rw n (ground (arith, per_grant-bytes_of moved totals ss id))
  | inr (b, n) ↦ elim (Bool-cases (ltb 0 b)) [
    | inr z ↦ rw (n, z) (ground (arith, per_grant-bytes_of moved totals ss id))
    | inl p ↦
        let c = count_bytes-bytes_of totals s.grant_id b id in
        rw (n, p) (ground (arith, per_grant-bytes_of moved (count_bytes totals s.grant_id b) ss id))
  ]
]

module _ (c : Crypto) (out : Outside) (svc svc' : AccessService) where
  -- After a count that succeeds, no session is left of a grant that has used up its allowance.
  pub record_usage-used_up :
      (moved : Moved) (ended : List SessionAllocation)
      → record_usage c out svc moved ≡ ok (svc', ended)
      → All
          (λ s. any (λ i. same_text i s.grant_id) (used_up_ids out.now svc'.state.grants) ≡ false)
          svc'.state.sessions
  unfolding counted
  record_usage-used_up moved ended h =
      let (st, fl, mx) = record_usage_ok c out svc svc' moved ended h in
      rw st (
        All-mono (λ s t. ground arith) _
          (All-retain_self
            (λ s. not (
              any (λ i. same_text i s.grant_id)
                (used_up_ids out.now (counted moved out.now svc.state).0.grants)))
            svc.state.sessions))

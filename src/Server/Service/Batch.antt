-- ===== src/Server/Service/Batch.antt =====
-- `create_grant_batch` of crates/ket-server/src/service.rs. Each creation takes the lock anew.
use ket.Common.{
  ℕ, zero, suc, ◌+◌, not, ◌||◌, List, [], ◌∷◌, ◌++◌, Option, Text, ltb, ◌==◌, Result, ok, err, ◌>>◌,
  guard,
}
use ket.Common.Chars.{print_digits, print_u32}
use ket.Allowance.Period.{DataAllowance}
use ket.Server.Model.{AccessGrantRecord, ProtocolAccess, Crypto}
use ket.Server.Validate.{max_label_length}
use ket.Server.Errors.{ServiceError, invalid_input, bad_count}
use ket.Server.Service.State.{AccessService, Outside}
use ket.Server.Service.Grants.{CreateAccessGrantRequest, create_grant, validate_text}

pub record CreateAccessGrantBatchRequest : Type 0 where
  pub label_prefix : Text
  pub count : ℕ
  pub max_connections : ℕ
  pub valid_for_minutes : ℕ
  pub protocols : ProtocolAccess
  pub allowance : Option DataAllowance

-- What a creation takes from outside: what other calls do before it gets the lock, the clock and the
-- disk, the code that is generated, and the answer of the hashing workers.
pub record Given : Type 0 where
  pub between : AccessService → AccessService
  pub out : Outside
  pub code : Text
  pub hashed : Result ServiceError Text

-- The request of the grant with the index, whose label ends in it.
unfoldable pub indexed : CreateAccessGrantBatchRequest → Text → ℕ → CreateAccessGrantRequest
unfolding print_digits
indexed r label_prefix index = record {
  label = label_prefix ++ b'-' ∷ print_u32 index;
  max_connections = r.max_connections;
  valid_for_minutes = r.valid_for_minutes;
  protocols = r.protocols;
  allowance = r.allowance;
}

-- The grant that was made, before those that follow it.
abbrev pub with_made :
    AccessGrantRecord
    → AccessService × Result ServiceError (List AccessGrantRecord)
    → AccessService × Result ServiceError (List AccessGrantRecord)
with_made g (svc, ok gs) = (svc, ok (g ∷ gs))
with_made g (svc, err e) = (svc, err e)

-- The loop: an error returns at once, and leaves the grants made before it.
unfoldable pub create_each :
    Crypto
    → CreateAccessGrantBatchRequest
    → Text
    → (ℕ → Given)
    → ℕ
    → ℕ
    → AccessService
    → AccessService × Result ServiceError (List AccessGrantRecord)
unfolding create_grant indexed
create_each c r label_prefix given zero index svc = (svc, ok [])
create_each c r label_prefix given (suc left) index svc =
    elim (create_grant c (given index).out ((given index).between svc)
      (indexed r label_prefix index) (given index).code (given index).hashed) [
        | err e ↦ ((given index).between svc, err e)
        | ok (next, g) ↦ with_made g (create_each c r label_prefix given left (index + 1) next)
      ]

-- The checks of the request: the trimmed prefix.
unfoldable pub checked_batch : CreateAccessGrantBatchRequest → Result ServiceError Text
unfolding validate_text
checked_batch r = do
  guard (not (r.count == 0 || ltb 100 r.count)) (invalid_input bad_count)
  validate_text r.label_prefix max_label_length

-- `create_grant_batch`
unfoldable pub create_grant_batch :
    Crypto
    → AccessService
    → CreateAccessGrantBatchRequest
    → (ℕ → Given)
    → AccessService × Result ServiceError (List AccessGrantRecord)
unfolding checked_batch create_each
create_grant_batch c svc r given = elim (checked_batch r) [
  | err e ↦ (svc, err e)
  | ok label_prefix ↦ create_each c r label_prefix given r.count 1 svc
]

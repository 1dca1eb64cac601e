-- ===== src/Tests/Grants.antt =====
-- A batch of two grants.
use ket.Common.{◌+◌, ℕ, ◌≡◌, refl, List, [], ◌∷◌, ◌++◌, ok, length, Text-discrete}
use ket.Common.Chars.{valid_text, print_digits}
use ket.Server.Model.{AccessGrantRecord, everything}
use ket.Server.Validate.{check_grant}
use ket.Allowance.Period.{day}
use ket.Server.Service.State.{AccessService}
use ket.Server.Service.Batch.{CreateAccessGrantBatchRequest, Given, create_grant_batch, indexed}
use ket.Server.Service.Grants.{new_grant}
use ket.Server.Keeps.Batch.{create_grant_batch-grants}
use ket.Common.{some}
use ket.Tests.Data.{repeat, plain, outside, fresh}

abbrev batch : CreateAccessGrantBatchRequest
batch = record {
  label_prefix = b'K' ∷ [];
  count = 2;
  max_connections = 2;
  valid_for_minutes = 60;
  protocols = everything;
  allowance = some (record { bytes = 2000000; period = day });
}

-- Each grant has a code of its own.
abbrev given : ℕ → Given
given index = record {
  between = λ s. s;
  out = outside;
  code = repeat (96 + index) 10 ++ repeat 98 22;
  hashed = ok (repeat 98 22);
}

abbrev two_grants : List AccessGrantRecord
two_grants =
    new_grant (indexed batch (b'K' ∷ []) 1) (repeat 97 10) (b'K' ∷ b'-' ∷ b'1' ∷ []) (repeat 98 22)
      1000
    ∷ new_grant (indexed batch (b'K' ∷ []) 2) (repeat 98 10) (b'K' ∷ b'-' ∷ b'2' ∷ [])
        (repeat 98 22) 1000
    ∷ []

abbrev with_two : AccessService
with_two = record fresh {
  state = record { schema_version = 2; grants = two_grants; sessions = [] };
  file = record { schema_version = 2; grants = two_grants; sessions = [] };
}

creates_two : create_grant_batch plain fresh batch given ≡ (with_two, ok two_grants)
unfolding create_grant_batch indexed check_grant valid_text Text-discrete print_digits
creates_two = refl

create_grant_batch-grants_example :
    (with_two.state.grants ≡ fresh.state.grants ++ two_grants)
    × (with_two.state.sessions ≡ fresh.state.sessions)
    × (length two_grants ≡ 2)
create_grant_batch-grants_example =
    create_grant_batch-grants plain batch given fresh with_two two_grants (λ i s. refl) creates_two

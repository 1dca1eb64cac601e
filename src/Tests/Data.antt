-- ===== src/Tests/Data.antt =====
-- The data of the tests: a server with room for two devices, a grant, and tokens.
use ket.Common.{
  ℕ, zero, suc, true, false, [], ◌∷◌, ◌++◌, none, some, Text, same_text, Result, ok, err,
}
use ket.Allowance.Period.{day}
use ket.Server.Model.{AccessGrantRecord, everything, Crypto}
use ket.Server.Service.State.{AccessService, Outside}
use ket.Server.Service.Grants.{CreateAccessGrantRequest}
use ket.Server.Service.Sessions.{NewTokens}

abbrev pub repeat : ℕ → ℕ → Text
repeat c zero = []
repeat c (suc n) = c ∷ repeat c n

-- Hashes that keep the secret as it is.
abbrev pub plain : Crypto
plain = record {
  hash_token_secret = λ s. s;
  verify_secret = λ s h. same_text s h;
  is_supported_secret_hash = λ h. true;
}

abbrev pub outside : Outside
outside = record { now = 1000; noted_at = 1000; disk = none }

abbrev pub later : Outside
later = record { now = 200000; noted_at = 200000; disk = none }

-- The value of a call that succeeds.
abbrev pub value_or {ℓ} : {E A : Type ℓ} → A → Result E A → A
value_or d (ok a) = a
value_or d (err e) = d

abbrev pub fresh : AccessService
fresh = record {
  state = record { schema_version = 2; grants = []; sessions = [] };
  file = record { schema_version = 2; grants = []; sessions = [] };
  activity = [];
  usage_stored_at = 1000;
  session_ttl = 600;
  max_sessions = 2;
}

abbrev pub request : CreateAccessGrantRequest
request = record {
  label = 75 ∷ [];
  max_connections = 2;
  valid_for_minutes = 60;
  protocols = everything;
  allowance = some (record { bytes = 2000000; period = day });
}

abbrev pub grant_id : Text
grant_id = repeat 97 10

abbrev pub grant : AccessGrantRecord
grant = record {
  id = grant_id;
  secret_hash = repeat 98 22;
  label = 75 ∷ [];
  max_connections = 2;
  expires_at_epoch_seconds = some 4600;
  created_at_epoch_seconds = 1000;
  paused = false;
  protocols = everything;
  allowance = some (record { bytes = 2000000; period = day });
  allowance_since_epoch_seconds = some 1000;
  usage = none;
}

abbrev pub with_grant : AccessService
with_grant = record fresh {
  state = record { schema_version = 2; grants = grant ∷ []; sessions = [] };
  file = record { schema_version = 2; grants = grant ∷ []; sessions = [] };
}

abbrev pub tokens : NewTokens
tokens = record {
  id = repeat 99 12;
  control_secret = repeat 100 32;
  data_plane_secret = repeat 101 32;
}

abbrev pub control_token : Text
control_token = repeat 99 12 ++ repeat 100 32

abbrev pub phone : Text
phone = 80 ∷ []

-- ===== src/Server/Secrets.antt =====
-- Access codes and session tokens of crates/ket-core/src/secret.rs: their shape and their parts.
use ket.Common.{
  ℕ, Bool, List, Option, none, some, Text, take, drop, if◌then◌else◌, ℕ_discrete, holds,
}
use ket.Common.Chars.{valid_identifier}
use ket.Server.Model.{Crypto}

abbrev pub access_code_length : ℕ
access_code_length = 32

abbrev pub session_token_length : ℕ
session_token_length = 44

abbrev pub access_id_length : ℕ
access_id_length = 10

abbrev pub session_id_length : ℕ
session_id_length = 12

-- `AccessCodeParts` and `SessionTokenParts`
pub record Parts : Type 0 where
  pub id : Text
  pub secret : Text

-- `split_access_code`; `none` is `SecretError::InvalidFormat`.
unfoldable pub split_access_code : Text → Option Parts
unfolding valid_identifier
split_access_code value =
    if valid_identifier value access_code_length
    then some (record { id = take access_id_length value; secret = drop access_id_length value })
    else none

-- `split_session_token`
unfoldable pub split_session_token : Text → Option Parts
unfolding valid_identifier
split_session_token value =
    if valid_identifier value session_token_length
    then some (record { id = take session_id_length value; secret = drop session_id_length value })
    else none

unfoldable pub Digest-discrete : Discrete (List ℕ)
unfolding ℕ_discrete
Digest-discrete = hlevel ℕ_discrete

-- `verify_token_secret`
unfoldable pub verify_token_secret : Crypto → Text → List ℕ → Bool
verify_token_secret c secret expected_hash =
    holds (Digest-discrete (c.hash_token_secret secret) expected_hash)

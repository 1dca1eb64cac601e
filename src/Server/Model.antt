-- ===== src/Server/Model.antt =====
-- The persisted records of crates/ket-server/src/model.rs, with `ProtocolAccess` of
-- crates/ket-core/src/grant.rs, and the cryptography that the server calls.
use ket.Common.{ℕ, Bool, true, List, Option, Text, holds, any, is_empty, not}
use ket.Allowance.Period.{DataAllowance}

pub data TransportProtocol : Type 0 where
  hysteria2 ikev2 open_vpn_stunnel shadowsocks2022 stealth vless_xtls_reality wire_guard
        xor_scrambled :
      TransportProtocol

unfoldable pub TransportProtocol-discrete : Discrete TransportProtocol
TransportProtocol-discrete = hlevel

-- A `BTreeSet` is the ascending list of its members.
pub data ProtocolAccess : Type 0 where
  everything : ProtocolAccess
  only : List TransportProtocol → ProtocolAccess

unfoldable pub ProtocolAccess-discrete : Discrete ProtocolAccess
unfolding TransportProtocol-discrete
ProtocolAccess-discrete = hlevel

unfoldable pub allows : ProtocolAccess → TransportProtocol → Bool
allows everything protocol = true
allows (only protocols) protocol =
    any (λ p. holds (TransportProtocol-discrete p protocol)) protocols

-- `ProtocolAccess::is_valid`
unfoldable pub protocols_valid : ProtocolAccess → Bool
protocols_valid everything = true
protocols_valid (only protocols) = not (is_empty protocols)

pub record PeriodUsage : Type 0 where
  pub period_start_epoch_seconds : ℕ
  pub used_bytes : ℕ

pub record AccessGrantRecord : Type 0 where
  pub id : Text
  pub secret_hash : Text
  pub label : Text
  pub max_connections : ℕ
  pub expires_at_epoch_seconds : Option ℕ
  pub created_at_epoch_seconds : ℕ
  pub paused : Bool
  pub protocols : ProtocolAccess
  pub allowance : Option DataAllowance
  pub allowance_since_epoch_seconds : Option ℕ
  pub usage : Option PeriodUsage

-- A `[u8; 32]` is a list of numbers.
pub record SessionRecord : Type 0 where
  pub id : Text
  pub grant_id : Text
  pub secret_hash : Option Text
  pub control_secret_hash : Option (List ℕ)
  pub data_plane_secret_hash : Option (List ℕ)
  pub resource_slot : Option ℕ
  pub client_name : Text
  pub issued_at_epoch_seconds : ℕ
  pub expires_at_epoch_seconds : ℕ

pub record PersistedState : Type 0 where
  pub schema_version : ℕ
  pub grants : List AccessGrantRecord
  pub sessions : List SessionRecord

abbrev pub current_state_schema_version : ℕ
current_state_schema_version = 2

-- The third-party hash functions that crates/ket-core/src/secret.rs wraps: the Argon2 profile check
-- of a stored hash, Argon2 verification, and the Blake2s digest of a token's secret.
pub record Crypto : Type 0 where
  pub is_supported_secret_hash : Text → Bool
  pub verify_secret : Text → Text → Bool
  pub hash_token_secret : Text → List ℕ

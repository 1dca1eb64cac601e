-- ===== src/Server/Errors.antt =====
-- `ServiceError` of crates/ket-server/src/service.rs and the values the service hands out.
use ket.Common.{ℕ, List, Option, Text}
use ket.Allowance.Period.{AllowanceStatus}
use ket.Server.Model.{ProtocolAccess}
use ket.Server.Validate.{StateFault}

-- The texts that `InvalidInput` and `InvalidState` carry name their case.
pub data InputFault : Type 0 where
  bad_text bad_max_connections bad_validity no_protocols bad_allowance bad_count changes_nothing
        bad_expiry :
      InputFault

pub data SlotFault : Type 0 where
  slot_exceeds_capacity slots_duplicated sessions_exceed_slots no_slot bad_control_hash : SlotFault

-- `RepositoryError`: what a store can fail with, besides I/O of its own kind.
pub data RepositoryError : Type 0 where
  unsupported_schema : ℕ → RepositoryError
  invalid_state : StateFault → RepositoryError
  too_large io : RepositoryError

pub data ServiceError : Type 0 where
  invalid_input : InputFault → ServiceError
  unauthorized grant_expired grant_capacity grant_paused : ServiceError
  allowance_used : ℕ → ServiceError
  node_capacity busy not_found forbidden crypto : ServiceError
  persistence : RepositoryError → ServiceError
  invalid_slots : SlotFault → ServiceError

pub record SessionAllocation : Type 0 where
  pub id : Text
  pub resource_slot : ℕ

pub record CreatedSession : Type 0 where
  pub id : Text
  pub grant_id : Text
  pub resource_slot : ℕ
  pub expired_allocations : List SessionAllocation
  pub client_name : Text
  pub expires_at_epoch_seconds : ℕ
  pub access_expires_at_epoch_seconds : Option ℕ
  pub protocols : ProtocolAccess
  pub allowance : Option AllowanceStatus

pub record SessionView : Type 0 where
  pub id : Text
  pub grant_id : Text
  pub resource_slot : ℕ
  pub client_name : Text
  pub expires_at_epoch_seconds : ℕ
  pub access_expires_at_epoch_seconds : Option ℕ
  pub protocols : ProtocolAccess
  pub allowance : Option AllowanceStatus

-- ===== src/Approvals.antt =====
-- Protected actions: internal/core/approvals/approvals.go (the record and its status), and in the modules
-- below internal/core/services/approval_service.go and internal/core/services/approval_gate.go.
pub mod Service
pub mod Operations
pub mod Lifecycle
pub mod Trace
pub mod Consume
pub mod Consent
pub mod Decide
use eggy.Prelude.{ℕ, String}
use eggy.Context.{Destination}

pub data Status : Type 0 where
  pending approved rejected expired invalidated used : Status

-- Times are nanoseconds since Go's zero time, so 0 is the time that `IsZero` reports.
pub record Approval : Type 0 where
  pub id : String
  pub action : String
  pub payload_digest : String
  pub payload : String
  pub summary : String
  pub status : Status
  pub created_at : ℕ
  pub expires_at : ℕ
  pub decided_at : ℕ
  pub destination : Destination
  pub account_id : String
  pub integration_generation : ℕ

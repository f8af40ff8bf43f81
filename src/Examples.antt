-- ===== src/Examples.antt =====
-- Concrete states on which the theorems are applied.
pub mod Approvals
pub mod Gate
pub mod Store
pub mod Turns
pub mod Dispatcher
pub mod Window
pub mod Loop
pub mod Proactive
pub mod Money
pub mod Finance
pub mod Throttle
pub mod Registry
pub mod Schedule
pub mod Runtime
pub mod Assembly
pub mod Books
pub mod Marketplace
use eggy.Prelude.{Bool, ℕ, String, none, some, [], ◌∷◌, ◌+◌}
use eggy.Prelude.Result.{ok}
use eggy.Approvals.{Status, Approval}
use eggy.Approvals.Service.{ApprovalService, Codec}
use eggy.Store.{State, Db, Call, strict, initial_state}

abbrev pub plain_codec : Codec
plain_codec = record {
  Payload = String;
  Value = String;
  marshal = λ s. ok s;
  unmarshal = λ s. ok s;
  marshal_value = λ s. ok s;
  sum256_hex = λ s. s;
}

abbrev pub service : ApprovalService
service = record { ttl = 3600; default_mode = strict; generation = none }

-- A call of Amy's at a time, with a working database.
abbrev pub at : ℕ → Call
at now = record {
  ctx = record { failure = none; principal = some "amy"; destination = none };
  read_fault = none;
  write_fault = none;
  clock = λ n. now + n;
}

abbrev pub approval : Status → Approval
approval status = record {
  id = "a1";
  action = "tool.call";
  payload_digest = "send";
  payload = "send";
  summary = "Send it";
  status = status;
  created_at = 10;
  expires_at = 3610;
  decided_at = 0;
  destination = record { kind = "telegram"; thread_id = ""; channel_id = "" };
  account_id = "amy";
  integration_generation = 0;
}

abbrev pub state_with : Status → State
state_with status = record {
  schema_version = 11;
  version = 7;
  approvals = ("a1", approval status) ∷ [];
  processed_events = [];
  proactive_messages = [];
  approval_mode = strict;
  approval_auto_mode = Bool.false;
  agent = record {
    selected_model = "";
    reasoning_effort = "";
    usage = [];
    hide_thinking = Bool.false;
    heartbeat = Bool.false;
    theme = "";
  };
}

abbrev pub db_with : Status → Db
db_with status = ("amy", state_with status) ∷ []

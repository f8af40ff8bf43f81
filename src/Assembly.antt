-- ===== src/Assembly.antt =====
-- internal/core/turns: what one turn does around the loop. Messages are those of `Message`, and a surface's
-- own rendering (the typing hint, the tool indicator) is left out.
pub mod Parts
pub mod Steered
pub mod Steps
pub mod Service
pub mod Replies
pub mod Pass
pub mod Told
pub mod Laws
pub mod Answered
pub mod Heard
pub mod Owner
pub mod Turn
pub mod Approved
pub mod Tap
pub mod Heartbeat
pub mod Beat
use eggy.Prelude.{ℕ, Bool, String, List}
use eggy.Message.{Message}

pub data TraceKind : Type 0 where
  owner scheduled heartbeat : TraceKind

-- `Policy`.
pub record Policy : Type 0 where
  pub include_recent_history : Bool
  pub record_conversation : Bool
  pub source : String
  pub extra : List Message
  pub suppress_silent_reply : Bool
  pub include_watch_document : Bool
  pub input_already_recorded : Bool
  pub kind : TraceKind

-- `HeartbeatResponse` of internal/core/services/heartbeat_tools.go; `next_check` counts nanoseconds.
pub record HeartbeatResponse : Type 0 where
  pub responded : Bool
  pub notify : Bool
  pub text : List ℕ
  pub next_check : ℕ

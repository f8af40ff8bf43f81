-- ===== src/Assembly/Service.antt =====
-- One pass of `Service.run` in internal/core/turns/run.go. The other parts of the program are a record of calls that
-- change a world; a nil `Commands`, `PartSupport`, `ImageOutput`, `Images`, `Threads` or `Presenter` is a call
-- that answers so. The capability manifest and the instructions built from it are one of the calls.
use eggy.Prelude.{ℕ, String, Bool, true, false, Option, some, List, []}
use eggy.Prelude.Result.{
  Error, Result, canceled, tool_step_limit, unsupported_input, images_unsupported,
}
use eggy.Message.{Modality, ContentPart, Message, user, ModelUsage}
use eggy.Store.{State}
use eggy.Loop.{Allowlist}
use eggy.Loop.Run.{RunResult}
use eggy.Assembly.{TraceKind, owner, HeartbeatResponse}
use eggy.Assembly.Steps.{M}

-- `ports.AgentContext`.
pub record AgentContext : Type 0 where
  pub soul : List ℕ
  pub user_notes : List ℕ
  pub memory : List ℕ
  pub watch : List ℕ
  pub user_max_bytes : ℕ
  pub memory_max_bytes : ℕ
  pub watch_max_bytes : ℕ

-- What the loop is asked for, and what it comes back with: a result beside an error.
pub record LoopRequest : Type 0 where
  pub alias : String
  pub effort : String
  pub input : Message
  pub history : List Message
  pub allowed : Allowlist
  pub output_modalities : List Modality

pub record LoopRun : Type 0 where
  pub result : RunResult
  pub failure : Option Error

pub record Support : Type 0 where
  pub supported : Bool
  pub known : Bool

-- `Options`, and what the context carries. `instructions` is `BuildInstructions` of the loaded documents,
-- state and skills, and the watch list's message if there is one.
pub record Collaborators (W : Type 0) : Type 0 where
  pub execute : List ℕ → M W (Option (Result (List ℕ)))
  pub admit : Message → Bool → M W Bool
  pub release : W → List Message × W
  pub load_context : M W AgentContext
  pub load_state : M W State
  pub selected_model : M W String
  pub reasoning_effort : M W String
  pub enabled_skills : M W (List String)
  pub part_support : String → Modality → W → Support × W
  pub image_output : String → W → List Modality × W
  pub instructions : AgentContext → State → String → List String → Allowlist → List Message
  pub watch_message : List ℕ → Message
  pub recent_messages : String → M W (List Message)
  pub session_id : String → M W String
  pub begin_trace : Option String → List ℕ → W → List ℕ × W
  pub run_loop : LoopRequest → W → LoopRun × W
  pub complete_trace : LoopRun → W → Unit {0} × W
  pub stopped_elsewhere : W → Bool × W
  pub record_usage : String → ModelUsage → M W (Unit {0})
  pub drawn_images : W → List ContentPart × W
  pub save_image : ContentPart → M W (List ℕ)
  pub keeps_images : Bool
  pub record_message : String → Message → String → M W (Unit {0})
  pub has_threads : Bool
  pub set_thread_title : String → List ℕ → M W (Unit {0})
  pub heartbeat_response : W → Option HeartbeatResponse × W
  pub show_thinking : M W Bool
  pub deliver : List ℕ → M W (Unit {0})
  pub deliver_image : Option (List ℕ → ContentPart → M W (Unit {0}))

-- How a pass that reports no error ended: another turn took the message, or this one has answered; the
-- messages are those that it was steered with and never read.
pub data Passed : Type 0 where
  joined : Passed
  answered : List Message → Passed

abbrev pub is_canceled : Option Error → Bool
is_canceled (some canceled) = true
is_canceled _ = false

abbrev pub is_step_limit : Option Error → Bool
is_step_limit (some tool_step_limit) = true
is_step_limit _ = false

abbrev pub is_unsupported_input : Option Error → Bool
is_unsupported_input (some unsupported_input) = true
is_unsupported_input _ = false

abbrev pub is_images_unsupported : Error → Bool
is_images_unsupported images_unsupported = true
is_images_unsupported _ = false

abbrev pub is_owner_turn : TraceKind → Bool
is_owner_turn owner = true
is_owner_turn _ = false

abbrev pub user_message : List ℕ → Message
user_message content = record {
  role = user;
  content = content;
  parts = [];
  name = "";
  tool_call_id = "";
  tool_calls = [];
}

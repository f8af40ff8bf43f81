-- ===== src/Loop/Run.antt =====
-- `Loop.Run` of internal/core/agent/loop.go, one round of its loop at a time. What a round meets is a
-- value: whether the context has ended, the messages that steer it, and how the model answers the
-- request. The tool calls of a step run concurrently in the code; the log has them in their order.
-- Steps are counted without wrap-around.
use eggy.Prelude.{
  ℕ, ◌+◌, String, Bool, not, ◌&&◌, ◌||◌, Option, none, some, List, [], ◌∷◌, ◌++◌, ltb, leb,
  if◌then◌else◌,
}
use eggy.Prelude.Result.{Result, Error, ok, err, ◌>>=◌, unknown_tool, tool_step_limit, other}
use eggy.Text.{codes, is_empty, trim_space}
use eggy.Turns.{as_user}
use eggy.Message.{Message, ToolCall, tool, ModelUsage, add_usage, no_usage}
use eggy.Window.{ContextPolicy, bound_tool_result, normalized}
use eggy.Window.State.{ContextWindow, messages}
use eggy.Window.Fit.{fit, new_context_window}
use eggy.Window.Handoff.{handoff}
use eggy.Loop.{
  ToolDefinition, LoopTool, Allowlist, find_tool, filtered_tools, allows_call, definition_chars,
}

pub record ModelRequest : Type 0 where
  pub messages : List Message
  pub tools : List ToolDefinition

pub record ModelResponse : Type 0 where
  pub message : Message
  pub usage : ModelUsage
  pub reasoning_content : List ℕ
  pub truncated : Bool

pub record RunResult : Type 0 where
  pub message : Message
  pub usage : ModelUsage
  pub reasoning_content : List ℕ
  pub checkpoint : List ℕ

-- What one round of the loop meets.
pub record Round : Type 0 where
  pub canceled : Option Error
  pub pending : List Message
  pub reply : ModelRequest → Result ModelResponse

-- The loop's variables, the requests that it sent and the calls that it ran.
pub record LoopState : Type 0 where
  pub window : ContextWindow
  pub usage : ModelUsage
  pub steps : ℕ
  pub requests : List ModelRequest
  pub ran : List ToolCall

pub data Outcome : Type 0 where
  running : LoopState → Outcome
  finished : LoopState → RunResult → Outcome
  failed : LoopState → Error → Outcome

-- `encoding/json`, of an error, of the error of a truncated call, and of the argument `action`; and the
-- two readings that the window takes.
pub record Encoding : Type 0 where
  pub pdf_pages : List ℕ → ℕ
  pub path_of : List ℕ → Option String
  pub action_of : List ℕ → Result (List ℕ)
  pub error_text : Error → List ℕ
  pub truncated_text : String → List ℕ

module _ (e : Encoding) (allowed : Allowlist) (tools : List LoopTool)
    (definitions : List ToolDefinition) where
  -- The tool of a call, if the catalog has it and the allowlist allows the call.
  unfoldable pub callable : ToolCall → Option LoopTool
  unfolding find_tool allows_call
  callable call = elim (find_tool tools (codes call.name)) [
    | none ↦ none
    | some t ↦
        if allows_call e.action_of allowed (codes call.name) call.arguments then some t else none
  ]

  -- Every call of a step is resolved before any runs.
  unfoldable pub resolve_calls : List ToolCall → Result (List (ToolCall × LoopTool))
  unfolding callable
  resolve_calls [] = ok []
  resolve_calls (call ∷ calls) = elim (callable call) [
    | none ↦ err unknown_tool
    | some t ↦ do rest ← resolve_calls calls; ok ((call, t) ∷ rest)
  ]

  unfoldable pub tool_message : ToolCall → List ℕ → Message
  tool_message call content = record {
    role = tool;
    content = content;
    parts = [];
    name = call.name;
    tool_call_id = call.id;
    tool_calls = [];
  }

  output_of : ℕ → LoopTool → ToolCall → List ℕ
  output_of steps t call = elim (t.execute steps call.arguments) [
    | ok output ↦ output
    | err failure ↦ e.error_text failure
  ]

  unfoldable pub results_of : ContextPolicy → ℕ → List (ToolCall × LoopTool) → List Message
  unfolding tool_message output_of bound_tool_result
  results_of policy steps [] = []
  results_of policy steps ((call, t) ∷ resolved) =
      tool_message call (bound_tool_result policy (output_of steps t call))
      ∷ results_of policy steps resolved

  -- `truncatedCallResults`.
  unfoldable pub truncated_call_results : List ToolCall → List Message
  unfolding tool_message
  truncated_call_results [] = []
  truncated_call_results (call ∷ calls) =
      tool_message call (e.truncated_text call.name) ∷ truncated_call_results calls

  -- The state after a step: the assistant's message and the answers to its calls join the tail.
  unfoldable pub stepped : LoopState → Message → List Message → List ToolCall → LoopState
  stepped s assistant answers ran = record s {
    window = record (s.window) { tail = s.window.tail ++ assistant ∷ answers };
    steps = s.steps + 1;
    ran = s.ran ++ ran;
  }

  unfoldable pub calls_run : List (ToolCall × LoopTool) → List ToolCall
  calls_run [] = []
  calls_run ((call, t) ∷ resolved) = call ∷ calls_run resolved

  -- The calls of a step, once the step limit is passed.
  unfoldable pub run_step : LoopState → ModelResponse → Outcome
  unfolding resolve_calls results_of truncated_call_results stepped calls_run
  run_step s response =
      let assistant = response.message in
      if response.truncated
      then running (stepped s assistant (truncated_call_results assistant.tool_calls) [])
      else elim (resolve_calls assistant.tool_calls) [
        | err failure ↦
            failed
              (record s { window = record (s.window) { tail = s.window.tail ++ assistant ∷ [] } })
              failure
        | ok resolved ↦
            running (
              stepped s assistant (results_of s.window.policy s.steps resolved)
                (calls_run resolved))
      ]

  unfoldable pub after_reply : LoopState → ModelResponse → Outcome
  unfolding run_step add_usage handoff
  after_reply s response =
      let usage = add_usage s.usage response.usage in
      let s' : LoopState = record s { usage = usage } in
      if is_empty response.message.tool_calls
      then finished s' (record {
        message = response.message;
        usage = usage;
        reasoning_content = response.reasoning_content;
        checkpoint = handoff e.pdf_pages e.path_of s.window;
      })
      else if ltb 0 s.window.policy.max_steps && leb s.window.policy.max_steps s.steps
      then failed s' tool_step_limit
      else run_step s' response

  unfoldable pub ask_model : LoopState → (ModelRequest → Result ModelResponse) → Outcome
  unfolding after_reply messages
  ask_model s reply =
      let request : ModelRequest = record { messages = messages s.window; tools = definitions } in
      let s' : LoopState = record s { requests = s.requests ++ request ∷ [] } in
      elim (reply request) [
        | err failure ↦ failed s' failure
        | ok response ↦ after_reply s' response
      ]

  -- One round of the loop.
  unfoldable pub loop_round : LoopState → Round → Outcome
  unfolding ask_model fit definition_chars
  loop_round s r = elim r.canceled [
    | some failure ↦ failed s failure
    | none ↦
        let steered : ContextWindow = record (s.window) { tail = s.window.tail ++ r.pending } in
        let (verdict, fitted) = fit e.pdf_pages e.path_of (definition_chars definitions) steered in
        let s' : LoopState = record s { window = fitted } in
        elim verdict [ err failure ↦ failed s' failure | ok _ ↦ ask_model s' r.reply ]
  ]

  unfoldable pub next_round : Outcome → Round → Outcome
  unfolding loop_round
  next_round (running s) r = loop_round s r
  next_round (finished s result) r = finished s result
  next_round (failed s failure) r = failed s failure

  -- The loop over the rounds that it meets.
  unfoldable pub loop_rounds : Outcome → List Round → Outcome
  unfolding next_round
  loop_rounds o [] = o
  loop_rounds o (r ∷ rs) = loop_rounds (next_round o r) rs

module _ (e : Encoding) where
  -- The state that `Run` begins its loop in. Everything the caller handed in is preserved.
  unfoldable pub start : ContextPolicy → List Message → Message → LoopState
  unfolding trim_space as_user new_context_window
  start policy history input = record {
    window = new_context_window e.pdf_pages e.path_of policy (
        if not (is_empty (trim_space input.content)) || not (is_empty input.parts)
        then history ++ as_user input ∷ []
        else history);
    usage = no_usage;
    steps = 0;
    requests = [];
    ran = [];
  }

  -- `Loop.Run`; `configured` says whether the alias has a model.
  unfoldable pub run_turn :
      Bool
      → ContextPolicy
      → List LoopTool
      → Allowlist
      → List Message
      → Message
      → List Round
      → Outcome
  unfolding filtered_tools start loop_rounds normalized
  run_turn configured policy available allowed history input rounds =
      let (tools, definitions) = filtered_tools allowed available in
      let s = start (normalized policy) history input in
      if configured
      then loop_rounds e allowed tools definitions (running s) rounds
      else failed s (other "model alias is not configured")

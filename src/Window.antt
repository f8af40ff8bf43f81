-- ===== src/Window.antt =====
-- internal/core/agent/compaction.go: the live window of one turn, and what it may forget. Texts are lists of
-- code points, as the code counts runes. The fields of the policy that the code lets be negative
-- are here 0 for any such value, which every test treats alike. The number of pages of an attached
-- PDF (partcost.go, which inflates streams) and the `path` argument of a tool call (encoding/json)
-- are arguments.
pub mod Summary
pub mod Steps
pub mod Split
pub mod State
pub mod Fit
pub mod Handoff
pub mod Keeps
pub mod Fitting
pub mod Fitted
use eggy.Prelude.{
  ℕ, ◌+◌, ◌*◌, ◌/◌, String, Bool, true, false, not, ◌&&◌, ◌||◌, List, [], ◌∷◌, ◌++◌, Option, none,
  some, leb, ltb, ◌==◌, str_eq, if◌then◌else◌, length, take, drop,
}
use eggy.Text.{codes, decimal}
use eggy.Message.{
  Message, ContentPart, ToolCall, Modality, image, file, is_user, is_assistant, Role, system,
}

abbrev pub summary_limit : ℕ
summary_limit = 24000

pub record ContextPolicy : Type 0 where
  pub budget_chars : ℕ
  pub recent_steps : ℕ
  pub output_excerpt_chars : ℕ
  pub request_chars : ℕ
  pub reserve_chars : ℕ
  pub max_steps : ℕ
  pub fold_chars : ℕ
  pub preserve_excerpts : Bool

abbrev pub or_default : ℕ → ℕ → ℕ
or_default n d = if n == 0 then d else n

unfoldable pub normalized : ContextPolicy → ContextPolicy
normalized p = record p {
  budget_chars = or_default p.budget_chars 96000;
  recent_steps = or_default p.recent_steps 16;
  output_excerpt_chars = or_default p.output_excerpt_chars 8192;
  request_chars = or_default p.request_chars 320000;
  reserve_chars = or_default p.reserve_chars 16000;
}

-- `TruncateRunes`.
unfoldable pub truncate_runes : List ℕ → ℕ → List ℕ
truncate_runes value limit =
    if limit == 0 || leb (length value) limit then value else take limit value

-- `TruncateMessage`.
unfoldable pub truncate_message : Message → ℕ → Message
unfolding truncate_runes
truncate_message message limit = record message { content = truncate_runes message.content limit }

abbrev pub page_chars : ℕ
page_chars = 8000

is_image : Modality → Bool
is_image image = true
is_image _ = false

is_file : Modality → Bool
is_file file = true
is_file _ = false

module _ (pdf_pages : List ℕ → ℕ) where
  part_chars : ContentPart → ℕ
  unfolding is_image is_file
  part_chars part =
      if is_image part.kind
      then page_chars
      else if is_file part.kind && str_eq part.media_type "application/pdf"
      then pdf_pages part.bytes * page_chars
      else length part.bytes

  calls_chars : List ToolCall → ℕ
  calls_chars [] = 0
  calls_chars (call ∷ calls) = length call.arguments + calls_chars calls

  parts_chars : List ContentPart → ℕ
  unfolding part_chars
  parts_chars [] = 0
  parts_chars (part ∷ parts) = part_chars part + parts_chars parts

  -- `MessageChars`.
  unfoldable pub message_chars : List Message → ℕ
  unfolding calls_chars parts_chars
  message_chars [] = 0
  message_chars (m ∷ ms) =
      length m.content + calls_chars m.tool_calls + parts_chars m.parts + message_chars ms

-- `boundToolResult`: a result above half the tail budget or a quarter of the request is cut.
unfoldable pub bound_tool_result : ContextPolicy → List ℕ → List ℕ
unfolding truncate_runes decimal
bound_tool_result p content =
    let half = p.budget_chars / 2 in
    let quarter = p.request_chars / 4 in
    let limit = if ltb quarter half then quarter else half in
    if limit == 0 || leb (length content) limit
    then content
    else truncate_runes content limit
      ++ (codes "\n… [truncated: "
          ++ (decimal limit
              ++ (codes " of "
                  ++ (decimal (length content)
                      ++ codes " characters shown; narrow the call to see the rest]"))))

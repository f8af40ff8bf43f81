-- ===== src/Loop.antt =====
-- internal/core/agent/loop.go: the tools of a turn. Texts are lists of code points. The allowlist is a
-- list of its entries, of which a Go map has one for each key; `action_of` is `json.Unmarshal` into
-- the struct with the one field `action`.
pub mod Offered
pub mod Run
pub mod Step
pub mod Rounds
pub mod Turn
pub mod Calls
pub mod Requests
pub mod Asked
use eggy.Prelude.{
  ℕ, ◌+◌, Bool, true, false, not, ◌&&◌, ◌||◌, Option, none, some, List, [], ◌∷◌, ◌++◌, ltb, ◌==◌,
  if◌then◌else◌, length, map,
}
use eggy.Prelude.Result.{Result, ok, err}
use eggy.Text.{trim_space, is_empty}

pub record ToolDefinition : Type 0 where
  pub name : List ℕ
  pub description : List ℕ
  pub schema : List ℕ
  pub turn_scoped : Bool

-- A `ports.Tool`; `scoped` is there for a tool that is a `ScopedTool`. What a tool answers depends on the
-- step of the turn that runs it, since it acts on the world, and on the call's arguments.
pub record LoopTool : Type 0 where
  pub definition : ToolDefinition
  pub execute : ℕ → List ℕ → Result (List ℕ)
  pub scoped : Option (List (List ℕ) → ToolDefinition)

-- `RunOptions.AllowedTools`.
abbrev pub Allowlist : Type 0
Allowlist = Option (List (List ℕ × Bool))

unfoldable pub same_text : List ℕ → List ℕ → Bool
same_text [] [] = true
same_text (c ∷ s) (d ∷ t) = c == d && same_text s t
same_text _ _ = false

-- `tools[name]`: the first of a name wins.
unfoldable pub find_tool : List LoopTool → List ℕ → Option LoopTool
unfolding same_text
find_tool [] name = none
find_tool (t ∷ tools) name =
    let rest = find_tool tools name in if same_text t.definition.name name then some t else rest

-- The loop of `resolve`, on the tools that it has taken.
unfoldable pub resolve_from : List LoopTool → List LoopTool → List LoopTool
unfolding find_tool
resolve_from taken [] = taken
resolve_from taken (t ∷ tools) =
    resolve_from
      (elim (find_tool taken t.definition.name) [ none ↦ taken ++ t ∷ [] | some _ ↦ taken ]) tools

unfoldable pub resolve : List LoopTool → List LoopTool
unfolding resolve_from
resolve available = resolve_from [] available

-- `AllowedTools[key]`.
unfoldable pub grants : List (List ℕ × Bool) → List ℕ → Bool
unfolding same_text
grants [] key = false
grants ((entry, allowed) ∷ l) key = (allowed && same_text entry key) || grants l key

-- `strings.CutPrefix`.
unfoldable pub cut_prefix : List ℕ → List ℕ → Option (List ℕ)
cut_prefix s [] = some s
cut_prefix [] (d ∷ p) = none
cut_prefix (c ∷ s) (d ∷ p) = let rest = cut_prefix s p in if c == d then rest else none

-- `name + ":"`.
abbrev pub scope : List ℕ → List ℕ
scope name = name ++ 58 ∷ []

unfoldable pub before_text : List ℕ → List ℕ → Bool
before_text [] t = true
before_text (c ∷ s) [] = false
before_text (c ∷ s) (d ∷ t) = ltb c d || (c == d && before_text s t)

insert_text : List ℕ → List (List ℕ) → List (List ℕ)
unfolding before_text
insert_text s [] = s ∷ []
insert_text s (t ∷ l) =
    let rest = insert_text s l in if before_text s t then s ∷ t ∷ l else t ∷ rest

-- One entry of `allowedActions`: the action that it grants of the tool.
unfoldable pub action_granted : List ℕ → List ℕ × Bool → Option (List ℕ)
unfolding cut_prefix
action_granted name (entry, allowed) = elim (cut_prefix entry (scope name)) [
  | none ↦ none
  | some action ↦ if allowed && not (is_empty action) then some action else none
]

unfoldable pub allowed_actions : List (List ℕ × Bool) → List ℕ → List (List ℕ)
unfolding action_granted insert_text
allowed_actions [] name = []
allowed_actions (e ∷ l) name = elim (action_granted name e) [
  | none ↦ allowed_actions l name
  | some action ↦ insert_text action (allowed_actions l name)
]

unfoldable pub narrow_definition : LoopTool → List (List ℕ) → ToolDefinition
narrow_definition t actions = elim t.scoped [
  | none ↦ t.definition
  | some definition_for_actions ↦ definition_for_actions actions
]

-- What a turn is shown of one tool under an allowlist.
unfoldable pub shown_under : List (List ℕ × Bool) → LoopTool → Option ToolDefinition
unfolding grants allowed_actions narrow_definition
shown_under entries t =
    let actions = allowed_actions entries t.definition.name in
    if grants entries t.definition.name
    then some t.definition
    else if is_empty actions
    then none
    else some (narrow_definition t actions)

unfoldable pub shown : Allowlist → LoopTool → Option ToolDefinition
unfolding shown_under
shown none t = if t.definition.turn_scoped then none else some t.definition
shown (some entries) t = shown_under entries t

unfoldable pub definitions_of : Allowlist → List LoopTool → List ToolDefinition
unfolding shown
definitions_of allowed [] = []
definitions_of allowed (t ∷ tools) = elim (shown allowed t) [
  | none ↦ definitions_of allowed tools
  | some d ↦ d ∷ definitions_of allowed tools
]

-- `filteredTools`: the tools that can be called, and the definitions that the model is shown.
unfoldable pub filtered_tools : Allowlist → List LoopTool → List LoopTool × List ToolDefinition
unfolding resolve definitions_of
filtered_tools allowed available =
    let tools = resolve available in (tools, definitions_of allowed tools)

-- `ToolDefinitions` and `ToolNames`: what a turn under the allowlist would send to the model.
unfoldable pub tool_definitions : Allowlist → List LoopTool → List ToolDefinition
unfolding filtered_tools
tool_definitions allowed available = (filtered_tools allowed available).1

unfoldable pub tool_names : Allowlist → List LoopTool → List (List ℕ)
unfolding tool_definitions
tool_names allowed available = map (λ d. d.name) (tool_definitions allowed available)

-- `callAction`.
unfoldable pub call_action : (List ℕ → Result (List ℕ)) → List ℕ → List ℕ
unfolding trim_space
call_action action_of arguments = elim (action_of arguments) [
  | err e ↦ []
  | ok action ↦ trim_space action
]

-- `allowsCall`, of a call's name and arguments.
unfoldable pub allows_call : (List ℕ → Result (List ℕ)) → Allowlist → List ℕ → List ℕ → Bool
unfolding grants call_action
allows_call action_of none name arguments = true
allows_call action_of (some entries) name arguments =
    let action = call_action action_of arguments in
    if grants entries name
    then true
    else if is_empty action
    then false
    else grants entries (scope name ++ action)

-- `DefinitionChars`.
unfoldable pub definition_chars : List ToolDefinition → ℕ
definition_chars [] = 0
definition_chars (d ∷ l) =
    length d.name + length d.description + length d.schema + definition_chars l

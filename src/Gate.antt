-- ===== src/Gate.antt =====
-- internal/core/services/approval_gate.go and the classification of internal/ports/tools.go: which tool calls stop
-- and ask, and how an approved call runs. A tool's own `Execute`, the texts shown to the owner and
-- the bound on a result's length are arguments; a run of a tool is seen as an entry of a log.
pub mod Rules
pub mod Inline
pub mod Runs
use eggy.Prelude.{
  ℕ, String, Bool, true, false, not, ◌&&◌, ◌||◌, Option, none, some, List, [], ◌∷◌, ◌++◌, str_eq,
  if◌then◌else◌,
}
use eggy.Prelude.Result.{Error, Result, ok, err, ◌>>=◌, other}
use eggy.Approvals.{Approval}
use eggy.Approvals.Service.{ApprovalService, Codec}
use eggy.Approvals.Operations.{request, authorize, mode}
use eggy.Store.{ApprovalMode, strict, normal, auto, unknown, Db, Call}

abbrev pub approval_tool_call : String
approval_tool_call = "tool.call"

abbrev pub gate_all_calls : String
gate_all_calls = "*"

pub record ToolEffect : Type 0 where
  pub read_only : Bool
  pub internal : Bool
  pub mutations : List String

-- `slices.Contains`.
unfoldable pub contains : List String → String → Bool
contains [] s = false
contains (x ∷ xs) s = str_eq x s || contains xs s

abbrev pub is_nil : List String → Bool
is_nil [] = true
is_nil (_ ∷ _) = false

-- The `Gated` half of `RuleFor`; `none` is the zero rule, which gates every call. `read_action` is
-- `json.Unmarshal` into the struct with the one field `action`.
unfoldable pub rule_for : (String → Result String) → ToolEffect → Option (String → Bool)
unfolding contains
rule_for read_action effect =
    if effect.read_only || effect.internal
    then some (λ _. false)
    else if is_nil effect.mutations || contains effect.mutations gate_all_calls
    then none
    else some (λ arguments. elim (read_action arguments) [
      | err _ ↦ true
      | ok action ↦ if str_eq action "" then true else contains effect.mutations action
    ])

pub record Tool : Type 0 where
  pub name : String
  pub execute : String → Result String

-- `approvalGatedTool`; `modes` is false for a nil reader.
pub record GatedTool : Type 0 where
  pub inner : Tool
  pub modes : Bool
  pub gated : Option (String → Bool)

pub record GatedCall : Type 0 where
  pub tool : String
  pub arguments : String

unfoldable pub normalize_arguments : String → String
normalize_arguments raw = if str_eq raw "" then "{}" else raw

-- The state store, and the log of the tool runs: name and arguments.
pub record World : Type 0 where
  pub db : Db
  pub ran : List (String × String)

-- `tool.Execute`: the effect of a run is its entry in the log.
unfoldable pub run_tool : Tool → String → World → Result String × World
run_tool tool arguments w =
    (tool.execute arguments, record w { ran = w.ran ++ (tool.name, arguments) ∷ [] })

pub data Answer : Type 0 where
  returned : String → Answer
  awaiting_approval : String → Answer

unfoldable pub is_gated : Option (String → Bool) → String → Bool
unfolding normalize_arguments
is_gated none raw = true
is_gated (some gated) raw = gated (normalize_arguments raw)

-- The `switch` of `Execute`: whether the call runs inline.
unfoldable pub runs_inline : ApprovalMode → Option (String → Bool) → String → Bool
unfolding is_gated
runs_inline auto gated raw = true
runs_inline normal gated raw = not (is_gated gated raw)
runs_inline strict gated raw = false
runs_inline (unknown _) gated raw = false

module _ (c : Codec) (s : ApprovalService) (encode : GatedCall → c.Payload)
    (summary : GatedCall → String) where
  -- The mode that `Execute` reads; a nil reader is the permanent gate.
  unfoldable pub current_mode : GatedTool → Db → Call → Result ApprovalMode
  current_mode t db call = if t.modes then mode s db call else ok strict

  unfoldable pub ask : GatedTool → Call → String → String → World → Result Answer × World
  unfolding normalize_arguments
  ask t call id raw w =
      let gated_call : GatedCall = record {
        tool = t.inner.name;
        arguments = normalize_arguments raw;
      } in
      let (r, db') =
        request c s w.db call id approval_tool_call (encode gated_call) (summary gated_call) in
      ((do approval ← r; ok (awaiting_approval approval.id)), record w { db = db' })

  -- `approvalGatedTool.Execute`; `id` is what `randomID` would draw.
  unfoldable pub gate_execute : GatedTool → Call → String → String → World → Result Answer × World
  unfolding current_mode run_tool ask
  gate_execute t call id raw w = elim (current_mode t w.db call) [
    | err e ↦ (err e, w)
    | ok m ↦
        if runs_inline m t.gated raw
        then (let (r, w') = run_tool t.inner raw w in ((do text ← r; ok (returned text)), w'))
        else ask t call id raw w
  ]

-- A tool of the live catalog, gated or not.
pub data Entry : Type 0 where
  plain : Tool → Entry
  wrapped : GatedTool → Entry

-- `Unwrap`, exactly once.
unfoldable pub unwrap : Entry → Tool
unwrap (plain t) = t
unwrap (wrapped g) = g.inner

-- The call that `ExecuteApproved` reads back from the payload; `decode` is `json.Unmarshal`.
unfoldable pub approved_call : (String → Result GatedCall) → Approval → Result GatedCall
unfolding normalize_arguments
approved_call decode approval = do
  call ← decode approval.payload
  (if str_eq call.tool ""
      then err (other "approved tool call names no tool")
      else ok (record call { arguments = normalize_arguments call.arguments }))

module _ (c : Codec) (s : ApprovalService) (encode : GatedCall → c.Payload)
    (decode : String → Result GatedCall) (lookup : String → Option Entry)
    (bound : String → String) where
  -- `ExecuteApproved`, behind the decoding.
  unfoldable pub run_authorized : Call → String → World → GatedCall → Result String × World
  unfolding run_tool unwrap
  run_authorized call id w gated_call =
      let (r, db') = authorize c s w.db call approval_tool_call (encode gated_call) id in
      let w' = record w { db = db' } in
      elim r [
        | err e ↦ (err e, w')
        | ok _ ↦ elim (lookup gated_call.tool) [
          | none ↦ (err (other "approved tool is no longer available"), w')
          | some entry ↦
              (let (result, w'') = run_tool (unwrap entry) gated_call.arguments w' in
                ((do text ← result; ok (bound text)), w''))
        ]
      ]

  unfoldable pub execute_approved : Call → Approval → World → Result String × World
  unfolding approved_call run_authorized
  execute_approved call approval w = elim (approved_call decode approval) [
    | err e ↦ (err e, w)
    | ok gated_call ↦ run_authorized call approval.id w gated_call
  ]

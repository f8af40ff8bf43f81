-- ===== src/Loop/Calls.antt =====
-- The calls that whole turns of internal/core/agent/loop.go run.
use mathlib.Core.List.{append-nil}
use mathlib.Core.Path.{subst}
use eggy.Prelude.{
  ℕ, ◌≡◌, refl, sym, ap, ◌∙◌, Bool, true, none, some, List, [], ◌∷◌, ◌++◌, arith, Bool-cases, inl,
  inr, ◌⊎◌, All,
}
use eggy.Text.{codes}
use eggy.Message.{Message, ToolCall}
use eggy.Window.{ContextPolicy}
use eggy.Loop.{
  LoopTool, ToolDefinition, Allowlist, allows_call, filtered_tools, find_tool, same_text, shown,
  resolve,
}
use eggy.Loop.Offered.{is_shown, allowed_call-shown, same_text_iff}
use eggy.Loop.Run.{
  Encoding, LoopState, Round, Outcome, running, finished, failed, next_round, loop_rounds, start,
  run_turn,
}
use eggy.Loop.Requests.{state_of}
use eggy.Loop.Step.{Permitted}
use eggy.Loop.Rounds.{RoundWent, round_stops, round_goes_on, loop_round-RoundWent}

module _ (e : Encoding) (allowed : Allowlist) (tools : List LoopTool)
    (definitions : List ToolDefinition) where
  All-append :
      (l k : List ToolCall)
      → All (Permitted e allowed tools definitions) l
      → All (Permitted e allowed tools definitions) k
      → All (Permitted e allowed tools definitions) (l ++ k)
  All-append [] k h h' = h'
  All-append (c ∷ l) k h h' = (h.0, All-append l k h.1 h')

  ran-Permitted :
      (s : LoopState) (r : Round) (o : Outcome)
      → RoundWent e allowed tools definitions s r o
      → All (Permitted e allowed tools definitions) s.ran
      → All (Permitted e allowed tools definitions) (state_of o).ran
  ran-Permitted s r o (round_stops o' ended none_ran) h =
      subst (λ l. All (Permitted e allowed tools definitions) l) (sym none_ran) h
  ran-Permitted s r o (round_goes_on s' c) h = elim c.step.calls [
    | inl (cut, same) ↦
        subst (λ l. All (Permitted e allowed tools definitions) l) (sym (same ∙ append-nil s.ran)) h
    | inr (more, permitted) ↦
        subst (λ l. All (Permitted e allowed tools definitions) l) (sym more)
          (All-append s.ran _ h permitted)
  ]

  -- What the turn ran so far is permitted.
  record RanPermitted (o : Outcome) : Type 0 where
    permitted : All (Permitted e allowed tools definitions) (state_of o).ran

  next_round-RanPermitted :
      (o : Outcome) (r : Round)
      → RanPermitted o
      → RanPermitted (next_round e allowed tools definitions o r)
  unfolding next_round
  next_round-RanPermitted (running s) r h = record {
    permitted =
        ran-Permitted s r _ (loop_round-RoundWent e allowed tools definitions s r) h.permitted;
  }
  next_round-RanPermitted (finished s result) r h = h
  next_round-RanPermitted (failed s failure) r h = h

  loop_rounds-RanPermitted :
      (o : Outcome) (rounds : List Round)
      → RanPermitted o
      → RanPermitted (loop_rounds e allowed tools definitions o rounds)
  unfolding loop_rounds
  loop_rounds-RanPermitted o [] h = h
  loop_rounds-RanPermitted o (r ∷ rounds) h =
      loop_rounds-RanPermitted (next_round e allowed tools definitions o r) rounds
        (next_round-RanPermitted o r h)

find_tool-name :
    (tools : List LoopTool) (name : List ℕ) (t : LoopTool)
    → find_tool tools name ≡ some t
    → t.definition.name ≡ name
unfolding find_tool
find_tool-name [] name t h = absurd (ground (arith, h))
find_tool-name (u ∷ tools) name t h = elim (Bool-cases (same_text u.definition.name name)) [
  | inl same ↦
      let found : find_tool (u ∷ tools) name ≡ some u = rw (find_tool, same) refl in
      ap (λ o. elim o [ none ↦ name | some v ↦ v.definition.name ]) (sym h ∙ found)
      ∙ (same_text_iff u.definition.name name).0 same
  | inr other ↦ find_tool-name tools name t (ground (arith, other, h))
]

-- The call is of a tool of the catalog that the allowlist allows, and that the model was shown, unless
-- there is no allowlist and the tool is scoped to another kind of turn.
pub record Offered (e : Encoding) (allowed : Allowlist) (available : List LoopTool)
    (call : ToolCall) : Type 0 where
  pub callee : LoopTool
  pub found : find_tool (resolve available) (codes call.name) ≡ some callee
  pub allows : allows_call e.action_of allowed (codes call.name) call.arguments ≡ true
  pub offered :
      (is_shown (shown allowed callee) ≡ true)
      ⊎ ((allowed ≡ none) × (callee.definition.turn_scoped ≡ true))

Permitted-Offered :
    (e : Encoding) (allowed : Allowlist) (available : List LoopTool)
    (definitions : List ToolDefinition) (call : ToolCall)
    → Permitted e allowed (resolve available) definitions call
    → Offered e allowed available call
Permitted-Offered e allowed available definitions call (t, (found, allows)) = record {
  callee = t;
  found = found;
  allows = allows;
  offered = allowed_call-shown e.action_of allowed t call.arguments (
      ap (λ n. allows_call e.action_of allowed n call.arguments)
        (find_tool-name (resolve available) (codes call.name) t found)
      ∙ allows);
}

All-Offered :
    (e : Encoding) (allowed : Allowlist) (available : List LoopTool)
    (definitions : List ToolDefinition) (calls : List ToolCall)
    → All (Permitted e allowed (resolve available) definitions) calls
    → All (Offered e allowed available) calls
All-Offered e allowed available definitions [] h = tt
All-Offered e allowed available definitions (c ∷ l) h = (
  Permitted-Offered e allowed available definitions c h.0,
  All-Offered e allowed available definitions l h.1,
)

-- Every call that a turn runs, over all its rounds, is of a tool of the turn's catalog that the allowlist
-- allows, and whose definition the model was shown unless the turn has no allowlist and the tool is
-- scoped to another kind of turn.
pub run_turn-Offered :
    (e : Encoding) (configured : Bool) (policy : ContextPolicy) (available : List LoopTool)
    (allowed : Allowlist) (history : List Message) (input : Message) (rounds : List Round)
    → All
        (Offered e allowed available)
        (state_of (run_turn e configured policy available allowed history input rounds)).ran
unfolding run_turn start filtered_tools
run_turn-Offered e configured policy available allowed history input rounds =
    elim (Bool-cases configured) [
      | inl ready ↦
          rw (run_turn, ready)
            (All-Offered e allowed available (filtered_tools allowed available).1 _
              (loop_rounds-RanPermitted e allowed _ _ (running _) rounds
                (record { permitted = tt })).permitted)
      | inr missing ↦ rw (run_turn, missing) tt
    ]

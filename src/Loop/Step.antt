-- ===== src/Loop/Step.antt =====
-- One step of the loop of internal/core/agent/loop.go: which calls it runs, and how they are answered.
use eggy.Prelude.{
  ℕ, ◌+◌, ◌≡◌, refl, sym, ap, ◌∙◌, Bool, true, false, some, List, [], ◌∷◌, ◌++◌, arith, Bool-cases,
  Option-cases, inl, inr, ◌⊎◌, All, map,
}
use mathlib.Core.Path.{subst}
use eggy.Prelude.Result.{ok, Result-cases, ok-injective}
use eggy.Text.{codes}
use eggy.Message.{Message, ToolCall, tool}
use eggy.Window.{ContextPolicy}
use eggy.Loop.{LoopTool, ToolDefinition, Allowlist, find_tool, allows_call}
use eggy.Loop.Run.{
  Encoding, LoopState, ModelResponse, Outcome, running, finished, failed, callable, run_step,
  resolve_calls, results_of, calls_run, tool_message, truncated_call_results, stepped,
}
use eggy.Loop.Requests.{state_of}

-- The messages answer the calls one for one, in the order of the calls.
pub record Answers (calls : List ToolCall) (answers : List Message) : Type 0 where
  pub ids : map (λ m. m.tool_call_id) answers ≡ map (λ c. c.id) calls
  pub roles : All (λ m. m.role ≡ tool) answers

pub running-injective : (s s' : LoopState) → running s ≡ running s' → s ≡ s'
running-injective s s' h = ap state_of h

abbrev pub is_running : Outcome → Bool
is_running (running s) = true
is_running (finished s result) = false
is_running (failed s failure) = false

module _ (e : Encoding) (allowed : Allowlist) (tools : List LoopTool)
    (definitions : List ToolDefinition) where
  -- The call is of a tool of the catalog, and the allowlist allows it.
  abbrev pub Permitted : ToolCall → Type 0
  Permitted call =
      (t : LoopTool) × ((find_tool tools (codes call.name) ≡ some t)
        × (allows_call e.action_of allowed (codes call.name) call.arguments ≡ true))

  callable-Permitted :
      (call : ToolCall) (t : LoopTool)
      → callable e allowed tools definitions call ≡ some t
      → Permitted call
  unfolding callable
  callable-Permitted call t h = elim (Option-cases (find_tool tools (codes call.name))) [
    | inl missing ↦ absurd (ground (arith, missing, h))
    | inr (found, there) ↦ (found, (there, ground (arith, there, h)))
  ]

  resolve_calls-Permitted :
      (calls : List ToolCall) (resolved : List (ToolCall × LoopTool))
      → resolve_calls e allowed tools definitions calls ≡ ok resolved
      → (calls_run e allowed tools definitions resolved ≡ calls) × All Permitted calls
  unfolding resolve_calls calls_run
  resolve_calls-Permitted [] resolved h =
      subst (λ l. (calls_run e allowed tools definitions l ≡ []) × All Permitted [])
        (ok-injective [] resolved h) (refl, tt)
  resolve_calls-Permitted (call ∷ calls) resolved h =
      elim (Option-cases (callable e allowed tools definitions call)) [
        | inl missing ↦ absurd (ground (arith, missing, h))
        | inr (t, found) ↦ elim (Result-cases (resolve_calls e allowed tools definitions calls)) [
          | inr (failure, refused) ↦ absurd (ground (arith, found, refused, h))
          | inl (rest, rest_found) ↦
              let (ran, permitted) = resolve_calls-Permitted calls rest rest_found in
              let whole : resolve_calls e allowed tools definitions (call ∷ calls)
                  ≡ ok ((call, t) ∷ rest) =
                rw (resolve_calls, found, rest_found) refl in
              subst
                (λ l.
                  (calls_run e allowed tools definitions l ≡ call ∷ calls)
                  × All Permitted (call ∷ calls))
                (ok-injective _ resolved (sym whole ∙ h))
                (ap (λ l. call ∷ l) ran, (callable-Permitted call t found, permitted))
        ]
      ]

  results_of-Answers :
      (policy : ContextPolicy) (steps : ℕ) (resolved : List (ToolCall × LoopTool))
      → Answers
          (calls_run e allowed tools definitions resolved)
          (results_of e allowed tools definitions policy steps resolved)
  unfolding results_of calls_run tool_message
  results_of-Answers policy steps [] = record { ids = refl; roles = tt }
  results_of-Answers policy steps ((call, t) ∷ resolved) =
      let rest = results_of-Answers policy steps resolved in
      record { ids = ap (λ l. call.id ∷ l) rest.ids; roles = (refl, rest.roles) }

  truncated_call_results-Answers :
      (calls : List ToolCall)
      → Answers calls (truncated_call_results e allowed tools definitions calls)
  unfolding truncated_call_results tool_message
  truncated_call_results-Answers [] = record { ids = refl; roles = tt }
  truncated_call_results-Answers (call ∷ calls) =
      let rest = truncated_call_results-Answers calls in
      record { ids = ap (λ l. call.id ∷ l) rest.ids; roles = (refl, rest.roles) }

  -- What a step that goes on did with the calls of the response.
  pub record Stepped (s : LoopState) (response : ModelResponse) (s' : LoopState) : Type 0 where
    pub answers : List Message
    pub answered : Answers response.message.tool_calls answers
    pub tail : s'.window.tail ≡ s.window.tail ++ response.message ∷ answers
    pub counted : s'.steps ≡ s.steps + 1
    pub same_policy : s'.window.policy ≡ s.window.policy
    pub calls :
        ((response.truncated ≡ true) × (s'.ran ≡ s.ran ++ []))
        ⊎ ((s'.ran ≡ s.ran ++ response.message.tool_calls)
            × All Permitted response.message.tool_calls)

  stepped-Stepped :
      (s : LoopState) (response : ModelResponse) (answers : List Message) (ran : List ToolCall)
      → Answers response.message.tool_calls answers
      → ((response.truncated ≡ true) × (ran ≡ []))
        ⊎ ((ran ≡ response.message.tool_calls) × All Permitted ran)
      → Stepped s response (stepped e allowed tools definitions s response.message answers ran)
  unfolding stepped
  stepped-Stepped s response answers ran answered ran_calls = record {
    answers = answers;
    answered = answered;
    tail = refl;
    counted = refl;
    same_policy = refl;
    calls = elim ran_calls [
      | inl (cut, nothing) ↦ inl (cut, ap (λ l. s.ran ++ l) nothing)
      | inr (all, permitted) ↦
          inr (ap (λ l. s.ran ++ l) all, subst (λ l. All Permitted l) all permitted)
    ];
  }

  -- How a step ends: without another call run, or with the loop going on from a stepped state.
  pub data Went (s : LoopState) (response : ModelResponse) : Outcome → Type 0 where
    stops : (o : Outcome) → is_running o ≡ false → (state_of o).ran ≡ s.ran → Went s response o
    goes_on : (s' : LoopState) → Stepped s response s' → Went s response (running s')

  pub run_step-Went :
      (s : LoopState) (response : ModelResponse)
      → Went s response (run_step e allowed tools definitions s response)
  unfolding run_step
  run_step-Went s response = elim (Bool-cases response.truncated) [
    | inl cut ↦
        let same : run_step e allowed tools definitions s response
            ≡ running (
                stepped e allowed tools definitions s response.message
                  (truncated_call_results e allowed tools definitions response.message.tool_calls)
                  []) =
          rw (run_step, cut) refl in
        subst (λ o. Went s response o) (sym same)
          (goes_on _ (
            stepped-Stepped s response _ []
              (truncated_call_results-Answers response.message.tool_calls) (inl (cut, refl))))
    | inr whole ↦
        elim (Result-cases
          (resolve_calls e allowed tools definitions response.message.tool_calls)) [
            | inr (failure, refused) ↦
                let same : run_step e allowed tools definitions s response
                    ≡ failed
                        (record s {
                          window = record (s.window) {
                            tail = s.window.tail ++ response.message ∷ [];
                          };
                        })
                        failure =
                  rw (run_step, whole, refused) refl in
                subst (λ o. Went s response o) (sym same) (stops _ refl refl)
            | inl (resolved, found) ↦
                let (all, permitted) =
                  resolve_calls-Permitted response.message.tool_calls resolved found in
                let answered =
                  subst
                    (λ l.
                      Answers l
                        (results_of e allowed tools definitions s.window.policy s.steps resolved))
                    all (results_of-Answers s.window.policy s.steps resolved) in
                let same : run_step e allowed tools definitions s response
                    ≡ running (
                        stepped e allowed tools definitions s response.message
                          (results_of e allowed tools definitions s.window.policy s.steps resolved)
                          (calls_run e allowed tools definitions resolved)) =
                  rw (run_step, whole, found) refl in
                subst (λ o. Went s response o) (sym same)
                  (goes_on _ (
                    stepped-Stepped s response _ _ answered
                      (inr (all, subst (λ l. All Permitted l) (sym all) permitted))))
          ]
  ]

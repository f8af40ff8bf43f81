-- ===== src/Loop/Rounds.antt =====
-- The rounds of `Loop.Run` in internal/core/agent/loop.go: when the loop goes on, and which calls it runs.
use eggy.Prelude.{
  ◌+◌, ◌<◌, ◌≡◌, refl, sym, ap, ◌∙◌, Bool, false, none, List, [], ◌∷◌, ◌++◌, arith, Bool-cases,
  Option-cases, inl, inr, ltb, leb, ◌&&◌,
}
use mathlib.Core.Path.{subst}
use eggy.Prelude.Result.{Result, ok, Result-cases}
use eggy.Text.{is_empty}
use eggy.Window.State.{messages}
use eggy.Window.Fit.{fit}
use eggy.Window.Fitted.{fit-Folded}
use eggy.Loop.{LoopTool, ToolDefinition, Allowlist, definition_chars}
use eggy.Message.{add_usage}
use eggy.Loop.Run.{
  Encoding, LoopState, ModelRequest, ModelResponse, Round, Outcome, running, after_reply, ask_model,
  loop_round,
}
use eggy.Loop.Requests.{state_of}
use eggy.Loop.Step.{is_running, Stepped, Went, stops, goes_on, run_step-Went}

module _ (e : Encoding) (allowed : Allowlist) (tools : List LoopTool)
    (definitions : List ToolDefinition) where
  -- The state that a round asks the model in, and its request.
  abbrev pub fitted : LoopState → Round → LoopState
  fitted s r = record s {
    window =
        (fit e.pdf_pages e.path_of (definition_chars definitions)
          (record (s.window) { tail = s.window.tail ++ r.pending })).1;
  }

  abbrev pub request_of : LoopState → Round → ModelRequest
  request_of s r = record { messages = messages (fitted s r).window; tools = definitions }

  -- A round after which the loop goes on.
  pub record Continued (s : LoopState) (r : Round) (s' : LoopState) : Type 0 where
    pub response : ModelResponse
    pub live : r.canceled ≡ none
    pub replied : r.reply (request_of s r) ≡ ok response
    pub asks : is_empty response.message.tool_calls ≡ false
    pub below : 0 < s.window.policy.max_steps → s.steps < s.window.policy.max_steps
    pub step : Stepped e allowed tools definitions (fitted s r) response s'

  pub data RoundWent (s : LoopState) (r : Round) : Outcome → Type 0 where
    round_stops : (o : Outcome) → is_running o ≡ false → (state_of o).ran ≡ s.ran → RoundWent s r o
    round_goes_on : (s' : LoopState) → Continued s r s' → RoundWent s r (running s')

  continued :
      (s : LoopState) (r : Round) (response : ModelResponse) (t s' : LoopState)
      → r.canceled ≡ none
      → r.reply (request_of s r) ≡ ok response
      → is_empty response.message.tool_calls ≡ false
      → (ltb 0 (fitted s r).window.policy.max_steps
          && leb (fitted s r).window.policy.max_steps s.steps)
        ≡ false
      → t.window ≡ (fitted s r).window
      → t.steps ≡ s.steps
      → t.ran ≡ s.ran
      → Stepped e allowed tools definitions t response s'
      → Continued s r s'
  continued s r response t s' live replied asks below same_window same_steps same_ran h = record {
    response = response;
    live = live;
    replied = replied;
    asks = asks;
    below = λ bounded. ground (
      arith,
      below,
      bounded,
      ap (λ p. p.max_steps)
          (fit-Folded e.pdf_pages e.path_of (definition_chars definitions)
            (record (s.window) { tail = s.window.tail ++ r.pending })).same_policy,
    );
    step = record {
      answers = h.answers;
      answered = h.answered;
      tail = h.tail ∙ ap (λ w. w.tail ++ response.message ∷ h.answers) same_window;
      counted = h.counted ∙ ap (λ n. n + 1) same_steps;
      same_policy = h.same_policy ∙ ap (λ w. w.policy) same_window;
      calls = elim h.calls [
        | inl (cut, nothing) ↦ inl (cut, nothing ∙ ap (λ l. l ++ []) same_ran)
        | inr (all, permitted) ↦
            inr (all ∙ ap (λ l. l ++ response.message.tool_calls) same_ran, permitted)
      ];
    };
  }

  after_reply-RoundWent :
      (s : LoopState) (r : Round) (t : LoopState) (response : ModelResponse)
      → r.canceled ≡ none
      → r.reply (request_of s r) ≡ ok response
      → t.window ≡ (fitted s r).window
      → t.steps ≡ s.steps
      → t.ran ≡ s.ran
      → RoundWent s r (after_reply e allowed tools definitions t response)
  unfolding after_reply
  after_reply-RoundWent s r t response live replied same_window same_steps same_ran =
      elim (Bool-cases (is_empty response.message.tool_calls)) [
        | inl reply ↦ rw (after_reply, reply) (round_stops _ refl same_ran)
        | inr calls ↦ elim (Bool-cases limit) [
          | inl over ↦ rw (after_reply, calls, over) (round_stops _ refl same_ran)
          | inr within ↦
              rw (after_reply, calls, within)
                (from_step calls within _ (run_step-Went e allowed tools definitions t' response))
        ]
      ]
    where
      limit : Bool
      limit = ltb 0 t.window.policy.max_steps && leb t.window.policy.max_steps t.steps

      t' : LoopState
      t' = record t { usage = add_usage t.usage response.usage }

      from_step :
          is_empty response.message.tool_calls ≡ false
          → limit ≡ false
          → (o : Outcome) → Went e allowed tools definitions t' response o
          → RoundWent s r o
      from_step calls within o (stops o' ended none_ran) =
          round_stops o' ended (none_ran ∙ same_ran)
      from_step calls within o (goes_on s' h) = round_goes_on s' (
          continued s r response t' s' live replied calls
            (ground (arith, within, ap (λ w. w.policy.max_steps) same_window, same_steps))
            same_window same_steps same_ran h)

  ask_model-RoundWent :
      (s : LoopState) (r : Round)
      → r.canceled ≡ none
      → RoundWent s r (ask_model e allowed tools definitions (fitted s r) r.reply)
  unfolding ask_model
  ask_model-RoundWent s r live = elim (Result-cases (r.reply (request_of s r))) [
    | inr (failure, refused) ↦ rw (ask_model, refused) (round_stops _ refl refl)
    | inl (response, replied) ↦
        rw (ask_model, replied) (after_reply-RoundWent s r _ response live replied refl refl refl)
  ]

  pub loop_round-RoundWent :
      (s : LoopState) (r : Round) → RoundWent s r (loop_round e allowed tools definitions s r)
  unfolding loop_round
  loop_round-RoundWent s r = elim (Option-cases r.canceled) [
    | inr (failure, stopped) ↦ rw (loop_round, stopped) (round_stops _ refl refl)
    | inl live ↦ elim (Result-cases verdict) [
      | inr (failure, refused) ↦ rw (loop_round, live, refused) (round_stops _ refl refl)
      | inl (done, fits) ↦
          let same : loop_round e allowed tools definitions s r
              ≡ ask_model e allowed tools definitions (fitted s r) r.reply =
            rw (loop_round, live, fits) refl in
          subst (λ o. RoundWent s r o) (sym same) (ask_model-RoundWent s r live)
    ]
  ]
    where
      verdict : Result (Unit {0})
      verdict =
          (fit e.pdf_pages e.path_of (definition_chars definitions)
            (record (s.window) { tail = s.window.tail ++ r.pending })).0

-- ===== src/Loop/Requests.antt =====
-- What the loop of internal/core/agent/loop.go sends to the model.
use eggy.Prelude.{
  ◌+◌, ◌≤◌, ◌≡◌, refl, sym, ap, ◌∙◌, Bool, List, [], ◌∷◌, ◌++◌, arith, Bool-cases, Option-cases,
  inl, inr, All, ltb, leb, ◌&&◌,
}
use eggy.Prelude.Result.{Result, Result-cases}
use eggy.Text.{is_empty}
use eggy.Message.{Message, add_usage}
use eggy.Window.{ContextPolicy, message_chars, normalized}
use eggy.Window.State.{ContextWindow, messages, checkpoint_message, checkpoint_text}
use eggy.Window.Fit.{fit}
use eggy.Window.Fitted.{fit-Folded, fit-ok-fits}
use eggy.Loop.{LoopTool, ToolDefinition, Allowlist, definition_chars, filtered_tools}
use eggy.Loop.Run.{
  Encoding, LoopState, ModelRequest, ModelResponse, Round, Outcome, running, finished, failed,
  run_step, resolve_calls, after_reply, ask_model, loop_round, next_round, loop_rounds, start,
  run_turn,
}

-- The state that the loop is in, or ended in.
abbrev pub state_of : Outcome → LoopState
state_of (running s) = s
state_of (finished s result) = s
state_of (failed s failure) = s

module _ (e : Encoding) (policy : ContextPolicy) (input : List Message)
    (definitions : List ToolDefinition) where
  -- A request begins with what the caller handed in, offers the turn's definitions, and fits with them.
  pub record Sent (r : ModelRequest) : Type 0 where
    pub rest : List Message
    pub begins : r.messages ≡ input ++ rest
    pub offers : r.tools ≡ definitions
    pub fits :
        message_chars e.pdf_pages r.messages + policy.reserve_chars + definition_chars definitions
        ≤ policy.request_chars

  pub record Sound (s : LoopState) : Type 0 where
    pub same_policy : s.window.policy ≡ policy
    pub same_input : s.window.preserved ≡ input
    pub counted : s.window.preserved_chars ≡ message_chars e.pdf_pages input
    pub sent : All Sent s.requests

  All-snoc :
      (l : List ModelRequest) (r : ModelRequest) → All Sent l → Sent r → All Sent (l ++ r ∷ [])
  All-snoc [] r h k = (k, tt)
  All-snoc (q ∷ l) r h k = (h.0, All-snoc l r h.1 k)

  module _ (allowed : Allowlist) (tools : List LoopTool) where
    run_step-Sound :
        (s : LoopState) (response : ModelResponse)
        → Sound s
        → Sound (state_of (run_step e allowed tools definitions s response))
    unfolding run_step
    run_step-Sound s response h = elim (Bool-cases response.truncated) [
      | inl cut ↦ rw cut (record {
        same_policy = h.same_policy;
        same_input = h.same_input;
        counted = h.counted;
        sent = h.sent;
      })
      | inr whole ↦
          elim (Result-cases
            (resolve_calls e allowed tools definitions response.message.tool_calls)) [
              | inr (failure, refused) ↦
                  rw (run_step, whole, refused)
                    (record {
                      same_policy = h.same_policy;
                      same_input = h.same_input;
                      counted = h.counted;
                      sent = h.sent;
                    })
              | inl (resolved, found) ↦
                  rw (run_step, whole, found)
                    (record {
                      same_policy = h.same_policy;
                      same_input = h.same_input;
                      counted = h.counted;
                      sent = h.sent;
                    })
            ]
    ]

    after_reply-Sound :
        (s : LoopState) (response : ModelResponse)
        → Sound s
        → Sound (state_of (after_reply e allowed tools definitions s response))
    unfolding after_reply
    after_reply-Sound s response h =
        let s' : LoopState = record s { usage = add_usage s.usage response.usage } in
        let h' : Sound s' = record {
          same_policy = h.same_policy;
          same_input = h.same_input;
          counted = h.counted;
          sent = h.sent;
        } in
        elim (Bool-cases (is_empty response.message.tool_calls)) [
          | inl reply ↦ rw (after_reply, reply) h'
          | inr calls ↦
              elim (Bool-cases
                (ltb 0 s.window.policy.max_steps && leb s.window.policy.max_steps s.steps)) [
                  | inl over ↦ rw (after_reply, calls, over) h'
                  | inr within ↦ rw (after_reply, calls, within) (run_step-Sound s' response h')
                ]
        ]

    messages-begins :
        (w : ContextWindow) → (rest : List Message) × (messages w ≡ w.preserved ++ rest)
    unfolding messages
    messages-begins w = elim (Bool-cases (is_empty w.summary)) [
      | inl none_yet ↦ rw (messages, none_yet) (w.steering ++ w.tail, refl)
      | inr some_notes ↦
          rw (messages, some_notes)
            (checkpoint_message (checkpoint_text w) ∷ w.steering ++ w.tail, refl)
    ]

    ask_model-Sound :
        (s : LoopState) (reply : ModelRequest → Result ModelResponse)
        → Sound s
        → message_chars e.pdf_pages (messages s.window)
            + policy.reserve_chars
            + definition_chars definitions
          ≤ policy.request_chars
        → Sound (state_of (ask_model e allowed tools definitions s reply))
    unfolding ask_model
    ask_model-Sound s reply h fitted =
        let request : ModelRequest = record { messages = messages s.window; tools = definitions } in
        let (rest, begins) = messages-begins s.window in
        let good : Sent request = record {
          rest = rest;
          begins = begins ∙ ap (λ l. l ++ rest) h.same_input;
          offers = refl;
          fits = fitted;
        } in
        let s' : LoopState = record s { requests = s.requests ++ request ∷ [] } in
        let h' : Sound s' = record {
          same_policy = h.same_policy;
          same_input = h.same_input;
          counted = h.counted;
          sent = All-snoc s.requests request h.sent good;
        } in
        elim (Result-cases (reply request)) [
          | inl (response, answered) ↦ rw (ask_model, answered) (after_reply-Sound s' response h')
          | inr (failure, refused) ↦ rw (ask_model, refused) h'
        ]

    loop_round-Sound :
        (s : LoopState) (r : Round)
        → Sound s
        → Sound (state_of (loop_round e allowed tools definitions s r))
    unfolding loop_round
    loop_round-Sound s r h =
        let steered : ContextWindow = record (s.window) { tail = s.window.tail ++ r.pending } in
        let overhead = definition_chars definitions in
        let kept = fit-Folded e.pdf_pages e.path_of overhead steered in
        let s' : LoopState = record s { window = (fit e.pdf_pages e.path_of overhead steered).1 } in
        let h' : Sound s' = record {
          same_policy = kept.same_policy ∙ h.same_policy;
          same_input = kept.same_preserved ∙ h.same_input;
          counted = kept.same_chars ∙ h.counted;
          sent = h.sent;
        } in
        elim (Option-cases r.canceled) [
          | inr (failure, stopped) ↦ rw (loop_round, stopped) h
          | inl live ↦ elim (Result-cases (fit e.pdf_pages e.path_of overhead steered).0) [
            | inr (failure, refused) ↦ rw (loop_round, live, refused) h'
            | inl (done, fitted) ↦
                rw (loop_round, live, fitted)
                  (ask_model-Sound s' r.reply h' (
                    ground (
                      arith,
                      fit-ok-fits e.pdf_pages e.path_of overhead steered
                          (h.counted ∙ ap (λ l. message_chars e.pdf_pages l) (sym h.same_input))
                          fitted,
                      ap (λ p. p.reserve_chars) h.same_policy,
                      ap (λ p. p.request_chars) h.same_policy,
                    )))
          ]
        ]

    next_round-Sound :
        (o : Outcome) (r : Round)
        → Sound (state_of o)
        → Sound (state_of (next_round e allowed tools definitions o r))
    unfolding next_round
    next_round-Sound (running s) r h = loop_round-Sound s r h
    next_round-Sound (finished s result) r h = h
    next_round-Sound (failed s failure) r h = h

    loop_rounds-Sound :
        (o : Outcome) (rounds : List Round)
        → Sound (state_of o)
        → Sound (state_of (loop_rounds e allowed tools definitions o rounds))
    unfolding loop_rounds
    loop_rounds-Sound o [] h = h
    loop_rounds-Sound o (r ∷ rounds) h =
        loop_rounds-Sound (next_round e allowed tools definitions o r) rounds
          (next_round-Sound o r h)

start-Sound :
    (e : Encoding) (policy : ContextPolicy) (history : List Message) (input : Message)
    (definitions : List ToolDefinition)
    → Sound e policy
        (start e policy history input).window.preserved
        definitions
        (start e policy history input)
unfolding start
start-Sound e policy history input definitions = record {
  same_policy = refl;
  same_input = refl;
  counted = refl;
  sent = tt;
}

-- Every request that a turn sends to the model, over all its rounds, begins with the messages that the
-- caller handed in, offers the tools that the turn is shown, and fits: its characters, those of its
-- tools and the reserve are within the bound of the policy, read with its defaults.
pub run_turn-Sent :
    (e : Encoding) (configured : Bool) (policy : ContextPolicy) (available : List LoopTool)
    (allowed : Allowlist) (history : List Message) (input : Message) (rounds : List Round)
    → All
        (Sent e
          (normalized policy)
          (start e (normalized policy) history input).window.preserved
          (filtered_tools allowed available).1)
        (state_of (run_turn e configured policy available allowed history input rounds)).requests
unfolding run_turn
run_turn-Sent e configured policy available allowed history input rounds =
    let (tools, definitions) = filtered_tools allowed available in
    let s = start e (normalized policy) history input in
    let good : Sound e (normalized policy) s.window.preserved definitions s =
      start-Sound e (normalized policy) history input definitions in
    elim (Bool-cases configured) [
      | inl ready ↦
          rw (run_turn, ready)
            (loop_rounds-Sound e (normalized policy) s.window.preserved definitions allowed tools
              (running s) rounds good).sent
      | inr missing ↦ rw (run_turn, missing) good.sent
    ]

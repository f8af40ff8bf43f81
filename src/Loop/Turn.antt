-- ===== src/Loop/Turn.antt =====
-- Whole turns of internal/core/agent/loop.go: what a round that goes on did, and that they end.
use mathlib.Core.Path.{subst}
use eggy.Prelude.{
  ◌+◌, ◌<◌, ◌≤◌, ◌≡◌, refl, ap, ◌∙◌, Bool, false, List, [], ◌∷◌, arith, Bool-cases, inl, inr,
  length,
}
use eggy.Message.{Message}
use eggy.Window.{ContextPolicy, normalized}
use eggy.Window.Fitted.{fit-Folded}
use eggy.Loop.{LoopTool, ToolDefinition, Allowlist, definition_chars, filtered_tools}
use eggy.Loop.Run.{
  Encoding, LoopState, Round, Outcome, running, finished, failed, loop_round, next_round,
  loop_rounds, start, run_turn,
}
use eggy.Loop.Step.{is_running, running-injective}
use eggy.Loop.Rounds.{RoundWent, round_stops, round_goes_on, loop_round-RoundWent, Continued}

module _ (e : Encoding) (allowed : Allowlist) (tools : List LoopTool)
    (definitions : List ToolDefinition) where
  continues :
      (s : LoopState) (r : Round) (o : Outcome) (s' : LoopState)
      → RoundWent e allowed tools definitions s r o
      → o ≡ running s'
      → Continued e allowed tools definitions s r s'
  continues s r o s' (round_stops o' ended none_ran) h = absurd (ground (arith, ended, h))
  continues s r o s' (round_goes_on t c) h =
      subst (λ x. Continued e allowed tools definitions s r x) (running-injective t s' h) c

  -- The loop goes on after a round only if the context was alive, the model answered the round's request
  -- with calls, and the step limit, where there is one, was not reached. Then one step is counted; the
  -- response and one message for each of its calls, in their order and with their ids, join the tail that
  -- the model saw; and either the response was cut off and nothing ran, or all its calls ran, each of a
  -- tool of the turn that the allowlist allows.
  pub loop_round-Continued :
      (s : LoopState) (r : Round) (s' : LoopState)
      → loop_round e allowed tools definitions s r ≡ running s'
      → Continued e allowed tools definitions s r s'
  loop_round-Continued s r s' h =
      continues s r _ s' (loop_round-RoundWent e allowed tools definitions s r) h

  ended-stays :
      (o : Outcome) (rounds : List Round)
      → is_running o ≡ false
      → is_running (loop_rounds e allowed tools definitions o rounds) ≡ false
  unfolding loop_rounds next_round
  ended-stays o [] h = h
  ended-stays (running s) (r ∷ rounds) h = absurd (ground (arith, h))
  ended-stays (finished s result) (r ∷ rounds) h = ended-stays (finished s result) rounds h
  ended-stays (failed s failure) (r ∷ rounds) h = ended-stays (failed s failure) rounds h

  -- The loop ends within so many rounds.
  record Ends (o : Outcome) (rounds : List Round) : Type 0 where
    ends : is_running (loop_rounds e allowed tools definitions o rounds) ≡ false

  round-Ends :
      (s : LoopState) (r : Round) (rounds : List Round) (o : Outcome)
      → 0 < s.window.policy.max_steps
      → s.window.policy.max_steps < s.steps + (1 + length rounds)
      → ((s' : LoopState)
          → 0 < s'.window.policy.max_steps
          → s'.steps ≤ s'.window.policy.max_steps
          → s'.window.policy.max_steps < s'.steps + length rounds
          → Ends (running s') rounds)
      → RoundWent e allowed tools definitions s r o
      → Ends o rounds
  round-Ends s r rounds o bounded enough rest (round_stops o' ended none_ran) = record {
    ends = ended-stays o' rounds ended;
  }
  round-Ends s r rounds o bounded enough rest (round_goes_on s' c) =
      rest s' (ground (arith, bounded, limit))
        (ground (arith, c.below bounded, limit, c.step.counted))
        (ground (arith, enough, limit, c.step.counted))
    where
      limit : s'.window.policy.max_steps ≡ s.window.policy.max_steps
      limit =
          ap (λ p. p.max_steps)
            (c.step.same_policy
              ∙ (fit-Folded e.pdf_pages e.path_of (definition_chars definitions) _).same_policy)

  step-Ends :
      (s : LoopState) (r : Round) (rounds : List Round)
      → Ends (loop_round e allowed tools definitions s r) rounds
      → Ends (running s) (r ∷ rounds)
  unfolding loop_rounds next_round
  step-Ends s r rounds h = record { ends = h.ends }

  loop_rounds-Ends :
      (rounds : List Round) (s : LoopState)
      → 0 < s.window.policy.max_steps
      → s.steps ≤ s.window.policy.max_steps
      → s.window.policy.max_steps < s.steps + length rounds
      → Ends (running s) rounds
  loop_rounds-Ends [] s bounded below enough = absurd (ground (arith, below, enough))
  loop_rounds-Ends (r ∷ rounds) s bounded below enough = step-Ends s r rounds (
      round-Ends s r rounds (loop_round e allowed tools definitions s r) bounded
        (omega (arith, enough)) (loop_rounds-Ends rounds)
        (loop_round-RoundWent e allowed tools definitions s r))

-- With a limit on its steps, a turn that meets more rounds than the limit is over: it has a reply or has
-- failed, whatever the model answers, whatever steers it and whatever its tools do.
pub run_turn-ends :
    (e : Encoding) (configured : Bool) (policy : ContextPolicy) (available : List LoopTool)
    (allowed : Allowlist) (history : List Message) (input : Message) (rounds : List Round)
    → 0 < policy.max_steps
    → policy.max_steps < length rounds
    → is_running (run_turn e configured policy available allowed history input rounds) ≡ false
unfolding run_turn start normalized
run_turn-ends e configured policy available allowed history input rounds bounded enough =
    let (tools, definitions) = filtered_tools allowed available in
    let s = start e (normalized policy) history input in
    elim (Bool-cases configured) [
      | inl ready ↦
          rw (run_turn, ready)
            (loop_rounds-Ends e allowed tools definitions rounds s bounded (omega arith)
              (omega (arith, enough))).ends
      | inr missing ↦ rw (run_turn, missing) refl
    ]

-- ===== src/Window/Fit.antt =====
-- The operations of `contextWindow` of internal/core/agent/compaction.go.
use eggy.Prelude.{
  ℕ, zero, suc, ◌+◌, ◌/◌, String, Bool, true, false, not, ◌&&◌, ◌||◌, List, [], ◌∷◌, ◌++◌, Option,
  none, some, leb, ltb, str_eq, if◌then◌else◌, length, drop,
}
use eggy.Prelude.Result.{Result, ok, err, context_too_large}
use eggy.Text.{codes, is_empty}
use eggy.Message.{Message, ToolCall, is_user}
use eggy.Window.{ContextPolicy, summary_limit, message_chars}
use eggy.Window.Summary.{append_summary, collapse, summarize_message}
use eggy.Window.Steps.{TurnStep, split_steps, step_chars}
use eggy.Window.State.{FileLedger, note, ContextWindow, checkpoint_text, checkpoint_message}

-- `total > allowance`, where the allowance is what the reserve and the overhead leave.
unfoldable pub over_allowance : ContextPolicy → ℕ → ℕ → Bool
over_allowance p overhead total = ltb p.request_chars (total + p.reserve_chars + overhead)

-- `total <= target`.
unfoldable pub within_target : ContextPolicy → ℕ → ℕ → Bool
unfolding over_allowance
within_target p overhead total =
    if ltb 0 p.fold_chars && ltb (p.fold_chars + p.reserve_chars + overhead) p.request_chars
    then leb total p.fold_chars
    else not (over_allowance p overhead total)

abbrev pub is_single : List TurnStep → Bool
is_single [] = true
is_single (_ ∷ []) = true
is_single (_ ∷ _ ∷ _) = false

module _ (pdf_pages : List ℕ → ℕ) (path_of : List ℕ → Option String) where
  unfoldable pub new_context_window : ContextPolicy → List Message → ContextWindow
  new_context_window policy preserved = record {
    policy = policy;
    preserved = preserved;
    preserved_chars = message_chars pdf_pages preserved;
    steering = [];
    summary = [];
    tail = [];
    files = record { read = []; edited = [] };
  }

  record_call : FileLedger → ToolCall → FileLedger
  unfolding note
  record_call l call = elim (path_of call.arguments) [
    | none ↦ l
    | some path ↦
        if str_eq path ""
        then l
        else if str_eq call.name "read"
        then record l { read = note l.read path }
        else if str_eq call.name "edit"
        then record l { edited = note l.edited path }
        else l
  ]

  unfoldable pub record_calls : FileLedger → List ToolCall → FileLedger
  unfolding record_call
  record_calls l [] = l
  record_calls l (call ∷ calls) = record_calls (record_call l call) calls

  -- One message of a folded step: an owner's message is moved, another is summarized.
  unfoldable pub fold_message : ContextWindow → Message → ContextWindow
  unfolding record_calls summarize_message
  fold_message w m =
      if is_user m.role then record w { steering = w.steering ++ m ∷ [] } else record w {
        files = record_calls w.files m.tool_calls;
        summary = append_summary w.summary (summarize_message w.policy m);
      }

  unfoldable pub fold_messages : ContextWindow → List Message → ContextWindow
  fold_messages w [] = w
  fold_messages w (m ∷ ms) = fold_messages (fold_message w m) ms

  -- `foldOldest`; its callers have checked that there is more than one step.
  unfoldable pub fold_oldest : ContextWindow → ContextWindow
  unfolding fold_messages
  fold_oldest w = elim (split_steps pdf_pages w.tail) [
    | [] ↦ w
    | first ∷ _ ↦ record (fold_messages w first.messages) {
      tail = drop (length first.messages) w.tail;
    }
  ]

  -- The loop of `boundSteering`, on the steering messages and the summary.
  unfoldable pub bound_from : ContextPolicy → List ℕ → List Message → List ℕ × List Message
  bound_from p summary [] = (summary, [])
  bound_from p summary (m ∷ []) = (summary, m ∷ [])
  bound_from p summary (m ∷ n ∷ rest) =
      let shorter =
        bound_from p
          (append_summary summary
            (codes "owner instruction: " ++ collapse m.content p.output_excerpt_chars))
          (n ∷ rest) in
      if ltb (summary_limit / 2) (message_chars pdf_pages (m ∷ n ∷ rest))
      then shorter
      else (summary, m ∷ n ∷ rest)

  unfoldable pub bound_steering : ContextWindow → ContextWindow
  unfolding bound_from
  bound_steering w =
      let bounded = bound_from w.policy w.summary w.steering in
      record w { summary = bounded.0; steering = bounded.1 }

  -- `mandatoryChars`.
  unfoldable pub mandatory_chars : ContextWindow → ℕ
  unfolding checkpoint_text checkpoint_message
  mandatory_chars w =
      w.preserved_chars
      + message_chars pdf_pages w.steering
      + (if is_empty w.summary
          then 0
          else message_chars pdf_pages (checkpoint_message (checkpoint_text w) ∷ []))

  unfoldable pub over_tail : ContextWindow → Bool
  over_tail w =
      let steps = split_steps pdf_pages w.tail in
      ltb w.policy.recent_steps (length steps) || ltb w.policy.budget_chars (step_chars steps)

  -- What the request costs with the live tail.
  unfoldable pub window_chars : ContextWindow → ℕ
  window_chars w = mandatory_chars w + step_chars (split_steps pdf_pages w.tail)

  -- The inner loop of `fit`: one batch of folds, down to the target.
  unfoldable pub fold_batch : ℕ → ℕ → ContextWindow → ContextWindow
  fold_batch zero overhead w = w
  fold_batch (suc fuel) overhead w =
      let rest = fold_batch fuel overhead (fold_oldest w) in
      if is_single (split_steps pdf_pages w.tail)
        || within_target w.policy overhead (window_chars w)
      then w
      else rest

  -- One round of the outer loop that does not end it.
  unfoldable pub fit_round : ℕ → ℕ → ContextWindow → ContextWindow
  fit_round fuel overhead w =
      let folded = fold_oldest w in
      if over_allowance w.policy overhead (window_chars w)
      then fold_batch fuel overhead folded
      else folded

  unfoldable pub is_fit : ℕ → ContextWindow → Bool
  is_fit overhead w =
      is_single (split_steps pdf_pages w.tail)
      || (not (over_tail w) && not (over_allowance w.policy overhead (window_chars w)))

  unfoldable pub fit_loop : ℕ → ℕ → ContextWindow → ContextWindow
  fit_loop zero overhead w = w
  fit_loop (suc fuel) overhead w =
      let bounded = bound_steering w in
      let rest = fit_loop fuel overhead (fit_round fuel overhead bounded) in
      if is_fit overhead bounded then bounded else rest

  -- `fit`: every fold takes a message off the tail, so its length bounds the rounds.
  unfoldable pub fit : ℕ → ContextWindow → Result (Unit {0}) × ContextWindow
  unfolding fit_loop fit_round fold_batch fold_oldest bound_steering is_fit within_target over_tail
      over_allowance window_chars mandatory_chars
  fit overhead w =
      let w' = fit_loop (suc (length w.tail)) overhead w in
      (
        if over_allowance w'.policy overhead (mandatory_chars w' + message_chars pdf_pages w'.tail)
            then err context_too_large
            else ok tt,
        w',
      )

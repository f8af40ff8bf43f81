-- ===== src/Window/Fitted.antt =====
-- What `contextWindow.fit` of internal/core/agent/compaction.go leaves, and what its error means.
use eggy.Prelude.{
  ℕ, suc, ◌+◌, ◌≤◌, ◌≡◌, refl, sym, ap, ◌∙◌, Bool, true, false, List, [], ◌∷◌, ◌++◌, if◌then◌else◌,
  length, arith, Bool-cases, inl, inr, ◌⊎◌, Option, String, All, ◌≢◌,
}
use eggy.Prelude.Result.{Result, ok, err, context_too_large}
use eggy.Message.{Message}
use eggy.Text.{is_empty}
use eggy.Window.{message_chars}
use eggy.Window.Steps.{TurnStep, split_steps, messages_of, step_chars}
use eggy.Window.State.{ContextWindow, checkpoint_message, checkpoint_text, messages}
use eggy.Window.Fit.{
  over_tail, over_allowance, mandatory_chars, window_chars, is_single, is_fit, fit_loop, fit,
}
use eggy.Window.Split.{message_chars-append, IsCounted, Begins, WellSplit, split_steps-WellSplit}
use eggy.Window.Keeps.{Folded}
use eggy.Window.Fitting.{fit_loop-Folded}

refusal : Bool → Result (Unit {0})
refusal over = if over then err context_too_large else ok tt

ok-within : (over : Bool) → refusal over ≡ ok tt → over ≡ false
unfolding refusal
ok-within true h = absurd (ground arith)
ok-within false h = refl

within-ok : (over : Bool) → over ≡ false → refusal over ≡ ok tt
unfolding refusal
within-ok true h = absurd (ground arith)
within-ok false h = refl

module _ (pdf_pages : List ℕ → ℕ) (path_of : List ℕ → Option String) where
  -- Fitting a window folds whole steps off its oldest end and no more: the system prompt, the policy
  -- and what is left of the tail stand as they were, a cut tail begins with an assistant's message,
  -- and the owner's messages that remain are the last ones, in their order.
  pub fit-Folded :
      (overhead : ℕ) (w : ContextWindow) → Folded w (fit pdf_pages path_of overhead w).1
  unfolding fit
  fit-Folded overhead w =
      (fit_loop-Folded pdf_pages path_of (suc (length w.tail)) overhead w (omega arith)).0

  -- What `fit` leaves: one step, or a tail within both of its bounds and a request within the
  -- allowance.
  pub Settled : ℕ → ContextWindow → Type 0
  Settled overhead w =
      (is_single (split_steps pdf_pages w.tail) ≡ true)
      ⊎ ((over_tail pdf_pages path_of w ≡ false)
          × (over_allowance w.policy overhead (window_chars pdf_pages path_of w) ≡ false))

  is_fit-Settled :
      (overhead : ℕ) (w : ContextWindow)
      → is_fit pdf_pages path_of overhead w ≡ true
      → Settled overhead w
  unfolding is_fit Settled
  is_fit-Settled overhead w done = elim (Bool-cases (is_single (split_steps pdf_pages w.tail))) [
    | inl single ↦ inl single
    | inr several ↦ inr (ground arith, ground arith)
  ]

  -- However much there is to fold, `fit` ends with a single step, or with a tail that is within its
  -- numbers of steps and characters in a request that is within the allowance.
  pub fit-Settled :
      (overhead : ℕ) (w : ContextWindow) → Settled overhead (fit pdf_pages path_of overhead w).1
  unfolding fit
  fit-Settled overhead w =
      is_fit-Settled overhead _
        (fit_loop-Folded pdf_pages path_of (suc (length w.tail)) overhead w (omega arith)).1

  All-step_chars :
      (steps : List TurnStep)
      → All (λ t. IsCounted pdf_pages t × Begins t.messages) steps
      → step_chars steps ≡ message_chars pdf_pages (messages_of steps)
  unfolding step_chars messages_of message_chars
  All-step_chars [] h = refl
  All-step_chars (s ∷ steps) h = omega (
    arith,
    h.0.0.0,
    All-step_chars steps h.1,
    message_chars-append pdf_pages s.messages (messages_of steps),
  )

  step_chars-split_steps :
      (ms : List Message) → step_chars (split_steps pdf_pages ms) ≡ message_chars pdf_pages ms
  step_chars-split_steps ms =
      let (good, same) = split_steps-WellSplit pdf_pages ms in
      go (split_steps pdf_pages ms) good ∙ ap (λ l. message_chars pdf_pages l) same
    where
      go :
          (steps : List TurnStep)
          → WellSplit pdf_pages steps
          → step_chars steps ≡ message_chars pdf_pages (messages_of steps)
      go [] good = unfold step_chars messages_of message_chars in refl
      go (s ∷ steps) good =
          unfold step_chars messages_of in
          omega (
            arith,
            good.0.0,
            All-step_chars steps good.1,
            message_chars-append pdf_pages s.messages (messages_of steps),
          )

  -- The characters of the request that the window makes.
  message_chars-messages :
      (w : ContextWindow)
      → w.preserved_chars ≡ message_chars pdf_pages w.preserved
      → message_chars pdf_pages (messages w)
        ≡ mandatory_chars pdf_pages path_of w + message_chars pdf_pages w.tail
  unfolding messages mandatory_chars
  message_chars-messages w counted = elim (Bool-cases (is_empty w.summary)) [
    | inl none_yet ↦ rw none_yet (
        omega (
          arith,
          counted,
          message_chars-append pdf_pages w.preserved (w.steering ++ w.tail),
          message_chars-append pdf_pages w.steering w.tail,
        ))
    | inr some_notes ↦ rw some_notes (
        let note = checkpoint_message (checkpoint_text w) in
        omega (
          arith,
          counted,
          message_chars-append pdf_pages w.preserved ((note ∷ w.steering) ++ w.tail),
          message_chars-append pdf_pages (note ∷ []) (w.steering ++ w.tail),
          message_chars-append pdf_pages w.steering w.tail,
        ))
  ]

  -- When `fit` succeeds, the request it leaves fits: what the model reads, with the reserve and the
  -- overhead, is within the request's bound. The count of the preserved messages must be right to
  -- begin with, as `newContextWindow` makes it.
  pub fit-ok-fits :
      (overhead : ℕ) (w : ContextWindow)
      → w.preserved_chars ≡ message_chars pdf_pages w.preserved
      → (fit pdf_pages path_of overhead w).0 ≡ ok tt
      → message_chars pdf_pages (messages (fit pdf_pages path_of overhead w).1)
          + w.policy.reserve_chars
          + overhead
        ≤ w.policy.request_chars
  unfolding fit
  fit-ok-fits overhead w counted done =
      let w' = fit_loop pdf_pages path_of (suc (length w.tail)) overhead w in
      let kept =
        (fit_loop-Folded pdf_pages path_of (suc (length w.tail)) overhead w (omega arith)).0 in
      let total = mandatory_chars pdf_pages path_of w' + message_chars pdf_pages w'.tail in
      let right =
        kept.same_chars
        ∙ (counted ∙ ap (λ l. message_chars pdf_pages l) (sym kept.same_preserved)) in
      let within = ok-within (over_allowance w'.policy overhead total) (unfold refusal in done) in
      unfold over_allowance in
      ground (
        arith,
        within,
        message_chars-messages w' right,
        ap (λ p. p.request_chars) kept.same_policy,
        ap (λ p. p.reserve_chars) kept.same_policy,
      )

  -- `fit` refuses a turn only when there is nothing left to fold: one step is all that is live.
  pub fit-err-single :
      (overhead : ℕ) (w : ContextWindow)
      → (fit pdf_pages path_of overhead w).0 ≢ ok tt
      → is_single (split_steps pdf_pages (fit pdf_pages path_of overhead w).1.tail) ≡ true
  unfolding fit Settled
  fit-err-single overhead w refused =
      let w' = fit_loop pdf_pages path_of (suc (length w.tail)) overhead w in
      let total = mandatory_chars pdf_pages path_of w' + message_chars pdf_pages w'.tail in
      elim (fit-Settled overhead w) [
        | inl single ↦ single
        | inr (small, within) ↦
            let same : window_chars pdf_pages path_of w' ≡ total =
              unfold window_chars in
              ap (λ n. mandatory_chars pdf_pages path_of w' + n) (step_chars-split_steps w'.tail) in
            absurd (
              refused (
                unfold refusal in
                within-ok _ (sym (ap (λ n. over_allowance w'.policy overhead n) same) ∙ within)))
      ]

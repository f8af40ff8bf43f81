-- ===== src/Window/Fitting.antt =====
-- `contextWindow.fit` of internal/core/agent/compaction.go, from the folds that it makes.
use mathlib.Core.List.{append_assoc}
use eggy.Prelude.{
  ℕ, zero, suc, ◌/◌, ◌≤◌, ◌<◌, ◌≡◌, refl, ap, ◌∙◌, true, false, List, [], ◌∷◌, ◌++◌, length, arith,
  Bool-cases, inl, inr, ltb, Option, String, length-append,
}
use eggy.Message.{Message}
use eggy.Text.{codes}
use eggy.Window.{ContextPolicy, message_chars, summary_limit}
use eggy.Window.Summary.{append_summary, collapse}
use eggy.Window.Steps.{split_steps}
use eggy.Window.State.{ContextWindow}
use eggy.Window.Fit.{
  fold_oldest, bound_from, bound_steering, over_allowance, within_target, window_chars, is_single,
  fold_batch, fit_round, is_fit, fit_loop,
}
use eggy.Window.Keeps.{
  owned, Suffix, Suffix-refl, Folded, Folded-refl, Folded-trans, fold_oldest-Folded,
}

module _ (pdf_pages : List ℕ → ℕ) (path_of : List ℕ → Option String) where
  bound_from-Suffix :
      (p : ContextPolicy) (summary : List ℕ) (ms : List Message)
      → Suffix ms (bound_from pdf_pages path_of p summary ms).1
  unfolding bound_from
  bound_from-Suffix p summary [] = Suffix-refl []
  bound_from-Suffix p summary (m ∷ []) = Suffix-refl (m ∷ [])
  bound_from-Suffix p summary (m ∷ n ∷ rest) =
      let shorter =
        bound_from-Suffix p
          (append_summary summary
            (codes "owner instruction: " ++ collapse m.content p.output_excerpt_chars))
          (n ∷ rest) in
      elim (Bool-cases (ltb (summary_limit / 2) (message_chars pdf_pages (m ∷ n ∷ rest)))) [
        | inl over ↦ rw over (m ∷ shorter.0, ap (λ l. m ∷ l) shorter.1)
        | inr fits ↦ rw fits (Suffix-refl (m ∷ n ∷ rest))
      ]

  bound_steering-Folded : (w : ContextWindow) → Folded w (bound_steering pdf_pages path_of w)
  unfolding bound_steering
  bound_steering-Folded w =
      let (cut, kept) = bound_from-Suffix w.policy w.summary w.steering in
      record {
        same_policy = refl;
        same_preserved = refl;
        same_chars = refl;
        suffix = Suffix-refl w.tail;
        seam = inr refl;
        instructions = (cut, ap (λ l. l ++ owned w.tail) kept ∙ append_assoc cut _ (owned w.tail));
      }

  Folded-le : (w w' : ContextWindow) → Folded w w' → length w'.tail ≤ length w.tail
  Folded-le w w' h =
      let (cut, whole) = h.suffix in
      omega (arith, length-append cut w'.tail, ap (λ l. length l) whole)

  fold_batch-Folded :
      (fuel overhead : ℕ) (w : ContextWindow)
      → Folded w (fold_batch pdf_pages path_of fuel overhead w)
  unfolding fold_batch
  fold_batch-Folded zero overhead w = Folded-refl w
  fold_batch-Folded (suc fuel) overhead w =
      elim (Bool-cases (is_single (split_steps pdf_pages w.tail))) [
        | inl single ↦ rw single (Folded-refl w)
        | inr several ↦
            elim (Bool-cases (within_target w.policy overhead (window_chars pdf_pages path_of w))) [
              | inl down ↦ rw (several, down) (Folded-refl w)
              | inr above ↦
                  rw (several, above)
                    (Folded-trans w _ _ (fold_oldest-Folded pdf_pages path_of w several).0
                      (fold_batch-Folded fuel overhead (fold_oldest pdf_pages path_of w)))
            ]
      ]

  fit_round-Folded :
      (fuel overhead : ℕ) (w : ContextWindow)
      → is_single (split_steps pdf_pages w.tail) ≡ false
      → Folded w (fit_round pdf_pages path_of fuel overhead w)
        × (length (fit_round pdf_pages path_of fuel overhead w).tail < length w.tail)
  unfolding fit_round
  fit_round-Folded fuel overhead w several =
      let (one, shorter) = fold_oldest-Folded pdf_pages path_of w several in
      let w' = fold_oldest pdf_pages path_of w in
      let more = fold_batch-Folded fuel overhead w' in
      elim (Bool-cases (over_allowance w.policy overhead (window_chars pdf_pages path_of w))) [
        | inl over ↦ rw over (
          Folded-trans w w' _ one more,
          omega (arith, Folded-le w' (fold_batch pdf_pages path_of fuel overhead w') more, shorter),
        )
        | inr within ↦ rw within (one, shorter)
      ]

  pub fit_loop-Folded :
      (fuel overhead : ℕ) (w : ContextWindow)
      → length w.tail < fuel
      → Folded w (fit_loop pdf_pages path_of fuel overhead w)
        × (is_fit pdf_pages path_of overhead (fit_loop pdf_pages path_of fuel overhead w) ≡ true)
  unfolding fit_loop
  fit_loop-Folded zero overhead w short = absurd (omega (arith, short))
  fit_loop-Folded (suc fuel) overhead w short =
      let b = bound_steering pdf_pages path_of w in
      let bounded = bound_steering-Folded w in
      let next = fit_round pdf_pages path_of fuel overhead b in
      elim (Bool-cases (is_fit pdf_pages path_of overhead b)) [
        | inl done ↦ rw done (bounded, done)
        | inr on ↦
            let (folded, shorter) =
              fit_round-Folded fuel overhead b (unfold is_fit in ground arith) in
            let (last, finished) =
              fit_loop-Folded fuel overhead next (omega (arith, shorter, Folded-le w b bounded)) in
            rw on (Folded-trans w b _ bounded (Folded-trans b next _ folded last), finished)
      ]

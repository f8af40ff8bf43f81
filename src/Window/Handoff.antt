-- ===== src/Window/Handoff.antt =====
-- `contextWindow.handoff` of internal/core/agent/compaction.go: what a turn leaves for its next leg.
use eggy.Prelude.{ℕ, String, List, [], ◌∷◌, ◌++◌, Option, if◌then◌else◌}
use eggy.Text.{codes}
use eggy.Message.{Message, is_user}
use eggy.Window.Summary.{append_summary, collapse, summarize_message}
use eggy.Window.State.{FileLedger, ContextWindow, notes}
use eggy.Window.Fit.{record_calls}
use eggy.Window.{ContextPolicy}

module _ (pdf_pages : List ℕ → ℕ) (path_of : List ℕ → Option String) where
  -- The loop over the live tail, with the text and the ledger so far.
  unfoldable pub handoff_from :
      ContextPolicy → List ℕ → FileLedger → List Message → List ℕ × FileLedger
  unfolding record_calls collapse summarize_message
  handoff_from policy text files [] = (text, files)
  handoff_from policy text files (m ∷ tail) =
      handoff_from policy
        (append_summary text (
          if is_user m.role
          then codes "owner instruction: " ++ collapse m.content policy.output_excerpt_chars
          else summarize_message policy m))
        (if is_user m.role then files else record_calls pdf_pages path_of files m.tool_calls) tail

  unfoldable pub handoff : ContextWindow → List ℕ
  unfolding handoff_from notes
  handoff w =
      let (text, files) = handoff_from w.policy w.summary w.files w.tail in
      if w.policy.preserve_excerpts then text ++ notes files else text

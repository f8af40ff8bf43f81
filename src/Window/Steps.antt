-- ===== src/Window/Steps.antt =====
-- `splitSteps` of internal/core/agent/compaction.go: the live tail as steps, which are folded whole.
use eggy.Prelude.{ℕ, ◌+◌, ◌||◌, List, [], ◌∷◌, ◌++◌, if◌then◌else◌}
use eggy.Message.{Message, is_assistant}
use eggy.Window.{message_chars}
use eggy.Text.{is_empty}

-- `step` in the source.
pub record TurnStep : Type 0 where
  pub messages : List Message
  pub chars : ℕ

module _ (pdf_pages : List ℕ → ℕ) where
  -- The message joins the last step; there is one.
  unfoldable pub extend_last : List TurnStep → Message → List TurnStep
  extend_last [] m = []
  extend_last (s ∷ []) m =
      record s {
        messages = s.messages ++ m ∷ [];
        chars = s.chars + message_chars pdf_pages (m ∷ []);
      }
      ∷ []
  extend_last (s ∷ t ∷ steps) m = s ∷ extend_last (t ∷ steps) m

  unfoldable pub add_message : List TurnStep → Message → List TurnStep
  unfolding extend_last
  add_message steps m =
      extend_last
        (if is_assistant m.role || is_empty steps
          then steps ++ record { messages = []; chars = 0 } ∷ []
          else steps)
        m

  unfoldable pub split_from : List TurnStep → List Message → List TurnStep
  split_from steps [] = steps
  split_from steps (m ∷ ms) = split_from (add_message steps m) ms

  unfoldable pub split_steps : List Message → List TurnStep
  unfolding split_from add_message
  split_steps ms = split_from [] ms

-- `stepChars`.
unfoldable pub step_chars : List TurnStep → ℕ
step_chars [] = 0
step_chars (s ∷ steps) = s.chars + step_chars steps

-- The messages of the steps, in order.
unfoldable pub messages_of : List TurnStep → List Message
messages_of [] = []
messages_of (s ∷ steps) = s.messages ++ messages_of steps

-- ===== src/Examples/Window.antt =====
-- The theorems on the live window, on a short one that has to fold a step.
use eggy.Prelude.{ℕ, String, ◌≡◌, ◌≢◌, ◌≤◌, ◌+◌, refl, false, arith, none, List, [], ◌∷◌, Option}
use eggy.Prelude.Result.{ok}
use eggy.Message.{Message, Role, user, assistant, system}
use eggy.Text.{codes}
use eggy.Window.{ContextPolicy, message_chars}
use eggy.Window.Summary.{append_summary}
use eggy.Window.Steps.{split_steps, step_chars}
use eggy.Window.State.{ContextWindow, messages}
use eggy.Window.Fit.{fit, fold_message}
use eggy.Window.Keeps.{Folded}
use eggy.Window.Fitted.{fit-Folded, Settled, fit-Settled, fit-ok-fits}

abbrev policy : ContextPolicy
policy = record {
  budget_chars = 4;
  recent_steps = 8;
  output_excerpt_chars = 100;
  request_chars = 1000;
  reserve_chars = 10;
  max_steps = 0;
  fold_chars = 0;
  preserve_excerpts = false;
}

abbrev said : Role → String → Message
said role content = record {
  role = role;
  content = codes content;
  parts = [];
  name = "";
  tool_call_id = "";
  tool_calls = [];
}

abbrev window : ContextWindow
window = record {
  policy = policy;
  preserved = said system "be kind" ∷ [];
  preserved_chars = 7;
  steering = [];
  summary = [];
  tail = said assistant "one" ∷ said user "go on" ∷ said assistant "two" ∷ [];
  files = record { read = []; edited = [] };
}

abbrev tight : ContextWindow
tight = record window { policy = record policy { request_chars = 12 } }

abbrev no_pages : List ℕ → ℕ
no_pages bytes = 0

abbrev no_path : List ℕ → Option String
no_path arguments = none

fit-Folded_example : Folded window (fit no_pages no_path 5 window).1
fit-Folded_example = fit-Folded no_pages no_path 5 window

fit-Settled_example : Settled no_pages no_path 5 (fit no_pages no_path 5 window).1
fit-Settled_example = fit-Settled no_pages no_path 5 window

fits : (fit no_pages no_path 5 window).0 ≡ ok tt
unfolding fit split_steps step_chars message_chars fold_message append_summary
fits = refl

counted : window.preserved_chars ≡ message_chars no_pages window.preserved
unfolding message_chars
counted = refl

fit-ok-fits_example :
    message_chars no_pages (messages (fit no_pages no_path 5 window).1) + 10 + 5 ≤ 1000
fit-ok-fits_example = fit-ok-fits no_pages no_path 5 window counted fits

refused : (fit no_pages no_path 5 tight).0 ≢ ok tt
unfolding fit split_steps step_chars message_chars fold_message append_summary
refused h = absurd (ground (arith, h))

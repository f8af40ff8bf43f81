-- ===== src/Examples/Loop.antt =====
-- The theorems on the model and tool loop, on turns with one tool.
use eggy.Prelude.{
  ℕ, String, ◌≡◌, refl, Bool, true, false, length, arith, none, some, List, [], ◌∷◌, All,
}
use eggy.Prelude.Result.{ok}
use eggy.Message.{Message, ToolCall, Role, user, assistant, system, no_usage}
use eggy.Text.{codes}
use eggy.Window.{ContextPolicy, normalized}
use eggy.Loop.{LoopTool}
use eggy.Loop.Run.{Encoding, Round, LoopState, loop_round, start, run_turn}
use eggy.Loop.Asked.{Asked, run_turn-Asked}
use eggy.Loop.Requests.{state_of}
use eggy.Loop.Step.{is_running}
use eggy.Loop.Rounds.{Continued}
use eggy.Loop.Turn.{loop_round-Continued, run_turn-ends}
use eggy.Loop.Calls.{Offered, run_turn-Offered}

abbrev pub loop_policy : ContextPolicy
loop_policy = record {
  budget_chars = 0;
  recent_steps = 0;
  output_excerpt_chars = 0;
  request_chars = 0;
  reserve_chars = 0;
  max_steps = 1;
  fold_chars = 0;
  preserve_excerpts = false;
}

abbrev pub look : LoopTool
look = record {
  definition = record {
    name = codes "look";
    description = codes "looks";
    schema = codes "{}";
    turn_scoped = false;
  };
  execute = λ steps arguments. ok (codes "seen");
  scoped = none;
}

abbrev look_call : ToolCall
look_call = record { id = "c1"; name = "look"; arguments = codes "list" }

abbrev pub encoding : Encoding
encoding = record {
  pdf_pages = λ bytes. 0;
  path_of = λ arguments. none;
  action_of = λ arguments. ok arguments;
  error_text = λ failure. codes "failed";
  truncated_text = λ name. codes "again";
}

abbrev pub written : Role → String → List ToolCall → Message
written role content calls = record {
  role = role;
  content = codes content;
  parts = [];
  name = "";
  tool_call_id = "";
  tool_calls = calls;
}

abbrev pub calling_round : Round
calling_round = record {
  canceled = none;
  pending = [];
  reply = λ request. ok (record {
    message = written assistant "" (look_call ∷ []);
    usage = no_usage;
    reasoning_content = [];
    truncated = false;
  });
}

abbrev only_listing : List (List ℕ × Bool)
only_listing = (codes "look:list", true) ∷ []

run_turn-Asked_example :
    All
      (Asked encoding
        (normalized loop_policy)
        (look ∷ [])
        (some only_listing)
        (written system "be kind" [] ∷ [])
        (written user "look" []))
      (state_of (
        run_turn encoding true loop_policy
          (look ∷ [])
          (some only_listing)
          (written system "be kind" [] ∷ [])
          (written user "look" [])
          (calling_round ∷ calling_round ∷ []))).requests
run_turn-Asked_example =
    run_turn-Asked encoding true loop_policy (look ∷ []) (some only_listing)
      (written system "be kind" [] ∷ []) (written user "look" [])
      (calling_round ∷ calling_round ∷ [])

run_turn-Offered_example :
    All
      (Offered encoding (some only_listing) (look ∷ []))
      (state_of (
        run_turn encoding true loop_policy
          (look ∷ [])
          (some only_listing)
          []
          (written user "look" [])
          (calling_round ∷ calling_round ∷ []))).ran
run_turn-Offered_example =
    run_turn-Offered encoding true loop_policy (look ∷ []) (some only_listing) []
      (written user "look" []) (calling_round ∷ calling_round ∷ [])

run_turn-ends_example :
    is_running (
      run_turn encoding true loop_policy
        (look ∷ [])
        none
        []
        (written user "look" [])
        (calling_round ∷ calling_round ∷ []))
    ≡ false
run_turn-ends_example =
    run_turn-ends encoding true loop_policy (look ∷ []) none [] (written user "look" [])
      (calling_round ∷ calling_round ∷ []) (omega arith) (omega arith)

one_call_ran :
    length
      (state_of (
        run_turn encoding true loop_policy
          (look ∷ [])
          (some only_listing)
          []
          (written user "look" [])
          (calling_round ∷ calling_round ∷ []))).ran
    ≡ 1
unfolding run_turn eggy.Window.Steps.split_steps eggy.Window.message_chars
one_call_ran = refl

abbrev begun : LoopState
begun = start encoding (normalized loop_policy) [] (written user "look" [])

loop_round-Continued_example :
    Continued encoding none
      (look ∷ [])
      (look.definition ∷ [])
      begun
      calling_round
      (state_of (loop_round encoding none (look ∷ []) (look.definition ∷ []) begun calling_round))
unfolding loop_round start eggy.Window.Steps.split_steps normalized eggy.Window.message_chars
loop_round-Continued_example =
    loop_round-Continued encoding none (look ∷ []) (look.definition ∷ []) begun calling_round _ refl

-- ===== src/Examples/Proactive.antt =====
-- The theorems on turns that nobody asked for.
use eggy.Prelude.{◌≡◌, refl, some, true, false, [], ◌∷◌, All}
use eggy.Message.{user}
use eggy.Text.{codes, is_empty, trim_space}
use eggy.Loop.Run.{run_turn}
use eggy.Loop.Requests.{state_of}
use eggy.Proactive.{read_only_tools, silent_reply}
use eggy.Proactive.ReadOnly.{ReadOnlyCall, run_turn-ReadOnly}
use eggy.Examples.Loop.{loop_policy, encoding, look, calling_round, written}

alert_is_delivered : silent_reply (codes "The build is red.") ≡ false
unfolding silent_reply eggy.Text.trim_space eggy.Loop.cut_prefix
alert_is_delivered = refl

run_turn-ReadOnly_example :
    All
      (ReadOnlyCall encoding.action_of)
      (state_of (
        run_turn encoding true loop_policy
          (look ∷ [])
          (some read_only_tools)
          []
          (written user "look" [])
          (calling_round ∷ []))).ran
run_turn-ReadOnly_example =
    run_turn-ReadOnly encoding true loop_policy (look ∷ []) [] (written user "look" [])
      (calling_round ∷ [])

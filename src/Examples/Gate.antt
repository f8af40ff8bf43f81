-- ===== src/Examples/Gate.antt =====
-- The theorems on the gate, on a tool that sends.
use eggy.Prelude.{
  ℕ, String, true, false, ◌≡◌, ◌↔◌, ◌⊎◌, refl, sym, ◌∙◌, none, some, inl, inr, [], ◌∷◌, Option,
  arith,
}
use eggy.Prelude.Result.{Result, ok}
use eggy.Approvals.{approved}
use eggy.Prelude.Dict.{get}
use eggy.Context.{account_of}
use eggy.Approvals.Operations.{authorize}
use eggy.Store.{acting_account, update, load_state}
use eggy.Gate.{
  ToolEffect, Tool, GatedTool, GatedCall, World, Entry, wrapped, rule_for, is_gated, gate_execute,
  execute_approved,
}
use eggy.Gate.Rules.{MayRun, rule_for-MayRun}
use eggy.Gate.Inline.{Held, Inline, gate_execute-Inline}
use eggy.Gate.Runs.{Ran, execute_approved-Ran, execute_approved_once}
use eggy.Approvals.Trace.{run}
use eggy.Examples.{plain_codec, service, at, approval, db_with}

abbrev sender : Tool
sender = record { name = "send"; execute = λ arguments. ok "sent" }

abbrev gated_sender : GatedTool
gated_sender = record { inner = sender; modes = true; gated = none }

abbrev world : World
world = record { db = db_with approved; ran = [] }

abbrev encode : GatedCall → String
encode call = call.tool

abbrev decode : String → Result GatedCall
decode payload = ok (record { tool = payload; arguments = "{}" })

abbrev catalog : String → Option Entry
catalog name = some (wrapped gated_sender)

abbrev whole : String → String
whole text = text

abbrev no_summary : GatedCall → String
no_summary call = ""

abbrev some_action : String → Result String
some_action raw = ok "list"

abbrev calendar_effect : ToolEffect
calendar_effect = record { read_only = false; internal = false; mutations = "create" ∷ [] }

rule_for-MayRun_example :
    (is_gated (rule_for some_action calendar_effect) "{}" ≡ false)
    ↔ MayRun some_action calendar_effect "{}"
rule_for-MayRun_example = rule_for-MayRun some_action calendar_effect "{}"

abbrev asked_world : World
asked_world =
    (gate_execute plain_codec service encode no_summary gated_sender (at 50) "a2" "{}" world).1

gate_execute-Inline_example :
    Held plain_codec service encode no_summary gated_sender (at 50) "{}" world asked_world
    ⊎ Inline plain_codec service encode no_summary gated_sender (at 50) "{}" world asked_world
gate_execute-Inline_example =
    gate_execute-Inline plain_codec service encode no_summary gated_sender (at 50) "a2" "{}" world

abbrev after : World
after =
    (execute_approved plain_codec service encode decode catalog whole (at 100) (approval approved)
      world).1

execute_approved-Ran_example :
    (after.ran ≡ world.ran)
    ⊎ Ran plain_codec service encode decode catalog whole (at 100) (approval approved) world after
execute_approved-Ran_example =
    execute_approved-Ran plain_codec service encode decode catalog whole (at 100)
      (approval approved) world

ran_once : after.ran ≡ ("send", "{}") ∷ []
unfolding execute_approved authorize account_of update load_state get
ran_once = refl

has_run :
    Ran plain_codec service encode decode catalog whole (at 100) (approval approved) world after
has_run =
    elim (execute_approved-Ran plain_codec service encode decode catalog whole (at 100)
      (approval approved) world) [
        | inl quiet ↦ absurd (ground (arith, sym quiet ∙ ran_once))
        | inr ran ↦ ran
      ]

acting_amy : (now : ℕ) → acting_account (at now) ≡ ok "amy"
unfolding acting_account account_of
acting_amy now = refl

execute_approved_once_example :
    (execute_approved plain_codec service encode decode catalog whole
      (at 300)
      (approval approved)
      (record after { db = run after.db [] })).1.ran
    ≡ after.ran
execute_approved_once_example =
    execute_approved_once plain_codec service encode decode catalog whole (at 100) (at 300)
      (approval approved) (approval approved) world after [] has_run refl
      (acting_amy 300 ∙ sym (acting_amy 100)) tt

-- ===== src/Examples/Runtime.antt =====
-- The theorems on the runtime's choices, on Amy's.
use eggy.Prelude.{ℕ, zero, suc, ◌≡◌, refl, String, none, [], ◌∷◌}
use eggy.Prelude.Dict.{get, put}
use eggy.Prelude.Result.{ok}
use eggy.Context.{account_of}
use eggy.Message.{ModelUsage}
use eggy.Approvals.{pending}
use eggy.Store.{Db, load, load_state, update}
use eggy.Runtime.{AgentRuntime, Attempt, reasoning_effort, select_model, record_usage, is_no_usage}
use eggy.Runtime.Updates.{Counted, record_usage-Counted}
use eggy.Runtime.Choices.{Selected, select_model-Selected}
use eggy.Examples.{at, db_with, state_with}

abbrev runtime : AgentRuntime
runtime = record {
  default_alias = "small";
  aliases = "small" ∷ "large" ∷ [];
  efforts = ("large", "low" ∷ "high" ∷ []) ∷ [];
}

-- Between the two calls of the first attempt somebody else writes.
abbrev disturbed : ℕ → Attempt
disturbed zero = record {
  canceled = none;
  loading = at 1;
  writing = at 2;
  before = λ db. db;
  between = λ db. put db "amy" (record (state_with pending) { version = 8 });
}
disturbed (suc n) = record {
  canceled = none;
  loading = at 3;
  writing = at 4;
  before = λ db. db;
  between = λ db. db;
}

abbrev some_tokens : ModelUsage
some_tokens = record {
  prompt_tokens = 3;
  completion_tokens = 4;
  total_tokens = 7;
  cached_prompt_tokens = 0;
  cache_write_tokens = 0;
  reasoning_tokens = 0;
}

abbrev amys : Db
amys = db_with pending

counted_in_the_end : (record_usage runtime disturbed "large" some_tokens amys).0 ≡ ok tt
unfolding record_usage load load_state update get put account_of
counted_in_the_end = refl

record_usage-Counted_example :
    Counted disturbed "large" some_tokens amys
      (record_usage runtime disturbed "large" some_tokens amys).1
unfolding is_no_usage
record_usage-Counted_example =
    record_usage-Counted runtime disturbed "large" some_tokens amys refl counted_in_the_end

abbrev high : String
high = "high"

abbrev studious : Db
studious =
    (
      "amy",
      record (state_with pending) {
        agent = record ((state_with pending).agent) {
          selected_model = "large";
          reasoning_effort = "high";
        };
      },
    )
    ∷ []

reads_high : reasoning_effort runtime studious (at 1) studious (at 2) ≡ ok high
unfolding reasoning_effort load load_state get account_of
reads_high = refl

chosen_in_the_end : (select_model runtime disturbed "large" amys).0 ≡ ok tt
unfolding select_model load load_state update get put account_of
chosen_in_the_end = refl

select_model-Selected_example :
    Selected runtime disturbed "large" amys (select_model runtime disturbed "large" amys).1
select_model-Selected_example =
    select_model-Selected runtime disturbed "large" amys chosen_in_the_end

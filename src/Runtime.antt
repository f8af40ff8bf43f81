-- ===== src/Runtime.antt =====
-- internal/core/services/agent_runtime.go: the choices of an account, kept in the state store. The store is that of
-- `Store`; what the other users of the store write between two calls is a function on it.
pub mod Updates
pub mod Choices
use eggy.Prelude.{
  ℕ, zero, suc, ◌+◌, String, Bool, true, false, not, ◌&&◌, ◌||◌, Option, none, some, List, [], ◌∷◌,
  ◌==◌, str_eq, if◌then◌else◌,
}
use eggy.Prelude.Dict.{Dict, get, put}
use eggy.Prelude.Result.{Error, Result, ok, err, ◌>>=◌, version_conflict, other}
use eggy.Text.{is_empty}
use eggy.Message.{ModelUsage, add_usage, no_usage}
use eggy.Store.{AgentRuntimeState, State, Db, Call, load, update}

-- `aliases` are the keys of the map that the code builds; no operation depends on their order.
pub record AgentRuntime : Type 0 where
  pub default_alias : String
  pub aliases : List String
  pub efforts : Dict (List String)

-- One turn of the loop of `update`: whether the context has ended, its two calls of the store, and what
-- others write before the first and between them.
pub record Attempt : Type 0 where
  pub canceled : Option Error
  pub loading : Call
  pub writing : Call
  pub before : Db → Db
  pub between : Db → Db

abbrev pub max_attempts : ℕ
max_attempts = 32

-- The end of an attempt: what the next ones bring after a conflict, or the outcome of the write.
unfoldable pub conclude_attempt :
    {A : Type 0} → Result A × Db → Result (Unit {0}) × Db → Result (Unit {0}) × Db
conclude_attempt (ok _, db) rest = (ok tt, db)
conclude_attempt (err version_conflict, db) rest = rest
conclude_attempt (err e, db) rest = (err e, db)

-- The mutation as the store takes it.
abbrev pub changing : (State → State) → State → Result (State × Unit {0})
changing mutate state = ok (mutate state, tt)

-- The write of an attempt, with the database that others have left.
unfoldable pub write_attempt :
    Attempt → (State → State) → Db → State → Result (State × Unit {0}) × Db
write_attempt a mutate db state = update (a.between db) a.writing state.version (changing mutate)

-- The loop of `update`, with the attempts that are left and the number of the next one.
unfoldable pub update_from : (ℕ → Attempt) → (State → State) → ℕ → ℕ → Db → Result (Unit {0}) × Db
unfolding conclude_attempt write_attempt
update_from attempts mutate zero i db =
    (err (other "state update remained conflicted after 32 attempts"), db)
update_from attempts mutate (suc n) i db =
    let a = attempts i in
    let seen = a.before db in
    elim a.canceled [
      | some e ↦ (err e, seen)
      | none ↦ elim (load seen a.loading) [
        | err e ↦ (err e, seen)
        | ok state ↦
            let written = write_attempt a mutate seen state in
            conclude_attempt written (update_from attempts mutate n (suc i) written.1)
      ]
    ]

-- `update`.
unfoldable pub update_state : (ℕ → Attempt) → (State → State) → Db → Result (Unit {0}) × Db
unfolding update_from
update_state attempts mutate db = update_from attempts mutate max_attempts 0 db

unfoldable pub has : List String → String → Bool
has [] s = false
has (t ∷ l) s = str_eq t s || has l s

-- `r.efforts[alias]`.
unfoldable pub efforts_of : AgentRuntime → String → List String
efforts_of r alias = elim (get r.efforts alias) [ none ↦ [] | some efforts ↦ efforts ]

-- The model that a stored choice stands for.
unfoldable pub model_of : AgentRuntime → State → String
unfolding has
model_of r state =
    if str_eq state.agent.selected_model "" || not (has r.aliases state.agent.selected_model)
    then r.default_alias
    else state.agent.selected_model

-- `SelectedModel`.
unfoldable pub selected_model : AgentRuntime → Db → Call → Result String
unfolding model_of
selected_model r db call = do state ← load db call; ok (model_of r state)

-- `ReasoningEffort`, whose two calls of the store may see different states.
unfoldable pub reasoning_effort : AgentRuntime → Db → Call → Db → Call → Result String
unfolding selected_model efforts_of has
reasoning_effort r first call later call' = do
  alias ← selected_model r first call
  state ← load later call'
  (if has (efforts_of r alias) state.agent.reasoning_effort
      then ok state.agent.reasoning_effort
      else ok "")

abbrev pub with_agent : State → AgentRuntimeState → State
with_agent state agent = record state { agent = agent }

-- `SelectModel`.
unfoldable pub select_model : AgentRuntime → (ℕ → Attempt) → String → Db → Result (Unit {0}) × Db
unfolding has update_state
select_model r attempts alias db =
    if not (str_eq alias "") && not (has r.aliases alias)
    then (err (other "model alias is not configured"), db)
    else update_state attempts
        (λ state. with_agent state (record (state.agent) { selected_model = alias })) db

-- `SelectReasoningEffort`; `call` is the one of its `SelectedModel`.
unfoldable pub select_reasoning_effort :
    AgentRuntime → Call → (ℕ → Attempt) → String → Db → Result (Unit {0}) × Db
unfolding has update_state efforts_of selected_model
select_reasoning_effort r call attempts effort db =
    let chosen =
      update_state attempts
        (λ state. with_agent state (record (state.agent) { reasoning_effort = effort })) db in
    if str_eq effort "" then chosen else elim (selected_model r db call) [
      | err e ↦ (err e, db)
      | ok alias ↦
          if is_empty (efforts_of r alias)
          then (err (other "model does not support a reasoning effort option"), db)
          else if not (has (efforts_of r alias) effort)
          then (err (other "model does not support the reasoning effort"), db)
          else chosen
    ]

-- `ShowThinking` and `SetShowThinking`.
unfoldable pub show_thinking : Db → Call → Result Bool
show_thinking db call = do state ← load db call; ok (not state.agent.hide_thinking)

unfoldable pub set_show_thinking : (ℕ → Attempt) → Bool → Db → Result (Unit {0}) × Db
unfolding update_state
set_show_thinking attempts show =
    update_state attempts
      (λ state. with_agent state (record (state.agent) { hide_thinking = not show }))

-- `Theme` and `SetTheme`.
unfoldable pub theme : Db → Call → Result String
theme db call = do state ← load db call; ok state.agent.theme

unfoldable pub set_theme : (ℕ → Attempt) → String → Db → Result (Unit {0}) × Db
unfolding update_state
set_theme attempts chosen =
    update_state attempts (λ state. with_agent state (record (state.agent) { theme = chosen }))

-- `Heartbeat` and `SetHeartbeat`.
unfoldable pub heartbeat : Db → Call → Result Bool
heartbeat db call = do state ← load db call; ok state.agent.heartbeat

unfoldable pub set_heartbeat : (ℕ → Attempt) → Bool → Db → Result (Unit {0}) × Db
unfolding update_state
set_heartbeat attempts on =
    update_state attempts (λ state. with_agent state (record (state.agent) { heartbeat = on }))

-- `Usage` and `ResetUsage`.
unfoldable pub usage : Db → Call → Result (Dict ModelUsage)
usage db call = do state ← load db call; ok state.agent.usage

unfoldable pub reset_usage : (ℕ → Attempt) → Db → Result (Unit {0}) × Db
unfolding update_state
reset_usage attempts =
    update_state attempts (λ state. with_agent state (record (state.agent) { usage = [] }))

-- What the map has for an alias, and with a usage more.
unfoldable pub used_of : Dict ModelUsage → String → ModelUsage
used_of used alias = elim (get used alias) [ none ↦ no_usage | some u ↦ u ]

unfoldable pub more_usage : String → ModelUsage → State → State
unfolding used_of
more_usage alias u state =
    let used = state.agent.usage in
    with_agent state
      (record (state.agent) { usage = put used alias (add_usage (used_of used alias) u) })

unfoldable pub is_no_usage : ModelUsage → Bool
is_no_usage u =
    u.prompt_tokens == 0
    && u.completion_tokens == 0
    && u.total_tokens == 0
    && u.cached_prompt_tokens == 0
    && u.cache_write_tokens == 0
    && u.reasoning_tokens == 0

-- `RecordUsage`, of a usage without a cost.
unfoldable pub record_usage :
    AgentRuntime → (ℕ → Attempt) → String → ModelUsage → Db → Result (Unit {0}) × Db
unfolding has is_no_usage update_state more_usage
record_usage r attempts alias u db =
    if not (has r.aliases alias)
    then (err (other "model alias is not configured"), db)
    else if is_no_usage u
    then (ok tt, db)
    else update_state attempts (more_usage alias u) db

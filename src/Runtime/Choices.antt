-- ===== src/Runtime/Choices.antt =====
-- The choices that internal/core/services/agent_runtime.go answers with.
use mathlib.Core.Path.{subst}
use eggy.Prelude.{
  ℕ, ◌≡◌, ◌⊎◌, inl, inr, refl, sym, ap, ◌∙◌, ◌<◌, String, true, false, not, ◌&&◌, ◌||◌, arith,
  str_eq, eq_refl, if◌then◌else◌, Bool-cases,
}
use eggy.Prelude.Result.{ok, Result-cases, ok-injective}
use eggy.Store.{State, Db, Call, load, load_state, acting_account}
use eggy.Runtime.{
  AgentRuntime, Attempt, with_agent, has, efforts_of, model_of, selected_model, reasoning_effort,
  select_model, max_attempts,
}
use eggy.Runtime.Updates.{others_wrote, Wrote, update_state-Wrote, Wrote-state}

-- The default, or a configured alias.
abbrev pub IsConfigured : AgentRuntime → String → Type 0
IsConfigured r alias = (alias ≡ r.default_alias) ⊎ (has r.aliases alias ≡ true)

model_of-IsConfigured : (r : AgentRuntime) (state : State) → IsConfigured r (model_of r state)
unfolding model_of
model_of-IsConfigured r state =
    elim (Bool-cases
      (str_eq state.agent.selected_model "" || not (has r.aliases state.agent.selected_model))) [
        | inl other ↦ rw other (inl refl)
        | inr kept ↦ rw kept (inr (ground (arith, kept)))
      ]

selected_model-IsConfigured :
    (r : AgentRuntime) (db : Db) (call : Call) (alias : String)
    → selected_model r db call ≡ ok alias
    → IsConfigured r alias
unfolding selected_model
selected_model-IsConfigured r db call alias h = elim (Result-cases (load db call)) [
  | inr (e, refused) ↦ absurd (ground (arith, refused, h))
  | inl (state, loaded) ↦
      subst (IsConfigured r) (ok-injective (model_of r state) alias (rw loaded at h))
        (model_of-IsConfigured r state)
]

-- When `ReasoningEffort` reports no error, its answer is empty, or it is a level that the model it found
-- selected supports, which is the default model or one that is configured; also when the account's state
-- changes between its two reads.
pub reasoning_effort-Supported :
    (r : AgentRuntime) (first later : Db) (call call' : Call) (effort : String)
    → reasoning_effort r first call later call' ≡ ok effort
    → (effort ≡ "")
      ⊎ ((alias : String) × ((selected_model r first call ≡ ok alias)
            × ((has (efforts_of r alias) effort ≡ true) × IsConfigured r alias)))
unfolding reasoning_effort
reasoning_effort-Supported r first later call call' effort h =
    elim (Result-cases (selected_model r first call)) [
      | inr (e, refused) ↦ absurd (ground (arith, refused, h))
      | inl (alias, found) ↦ elim (Result-cases (load later call')) [
        | inr (e, refused) ↦ absurd (ground (arith, refused, found, h))
        | inl (state, loaded) ↦
            elim (Bool-cases (has (efforts_of r alias) state.agent.reasoning_effort)) [
              | inr other ↦ inl (sym (ok-injective "" effort (rw (found, loaded, other) at h)))
              | inl supported ↦
                  let same =
                    ok-injective state.agent.reasoning_effort effort
                      (rw (found, loaded, supported) at h) in
                  inr (
                    alias,
                    (
                      found,
                      (
                        subst (λ x. has (efforts_of r alias) x ≡ true) same supported,
                        selected_model-IsConfigured r first call alias found,
                      ),
                    ),
                  )
            ]
      ]
    ]

-- The account's choice after a write of it.
chosen-state :
    (attempts : ℕ → Attempt) (alias : String) (db db' : Db)
    (d : Wrote attempts
      (λ state. with_agent state (record (state.agent) { selected_model = alias }))
      db
      db')
    → (load_state db' d.account).agent.selected_model ≡ alias
chosen-state attempts alias db db' d =
    ap (λ s. s.agent.selected_model) (Wrote-state d d.account) ∙ rw (eq_refl d.account) refl

chosen-model :
    (r : AgentRuntime) (alias : String) (state : State)
    → (not (str_eq alias "") && not (has r.aliases alias)) ≡ false
    → state.agent.selected_model ≡ alias
    → model_of r state ≡ (if str_eq alias "" then r.default_alias else alias)
unfolding model_of
chosen-model r alias state fine chosen = elim (Bool-cases (str_eq alias "")) [
  | inl empty ↦ rw (model_of, chosen, empty) refl
  | inr named ↦
      let known : has r.aliases alias ≡ true = ground (arith, fine, named) in
      rw (model_of, chosen, named, known) refl
]

-- The model `chosen` is selected by the write of one of the attempts, for the account of its call; the
-- others are as they were left up to that write.
pub record Selected (r : AgentRuntime) (attempts : ℕ → Attempt) (chosen : String) (db db' : Db)
    : Type 0 where
  pub round : ℕ
  pub within : round < max_attempts
  pub account : String
  pub by : acting_account (attempts round).writing ≡ ok account
  pub selected : model_of r (load_state db' account) ≡ chosen
  pub accounts :
      (j : String)
      → str_eq account j ≡ false
      → load_state db' j ≡ load_state (others_wrote attempts round db) j

-- When `SelectModel` reports no error, one of its at most 32 attempts has written the choice: whatever
-- others wrote between its calls of the store, and however often it was refused, the state it leaves for
-- the account that this attempt's write acted for stands for the model chosen, or for the default one
-- when the choice was emptied; the state of the other accounts is as the others have left it.
pub select_model-Selected :
    (r : AgentRuntime) (attempts : ℕ → Attempt) (alias : String) (db : Db)
    → (select_model r attempts alias db).0 ≡ ok tt
    → Selected r attempts
        (if str_eq alias "" then r.default_alias else alias)
        db
        (select_model r attempts alias db).1
unfolding select_model
select_model-Selected r attempts alias db h =
    elim (Bool-cases (not (str_eq alias "") && not (has r.aliases alias))) [
      | inl unknown ↦ absurd (ground (arith, unknown, h))
      | inr fine ↦
          let d = update_state-Wrote attempts _ db (rw (select_model, fine) at h) in
          rw (select_model, fine)
            (record {
              round = d.round;
              within = d.within;
              account = d.account;
              by = d.by;
              selected = chosen-model r alias _ fine (chosen-state attempts alias db _ d);
              accounts = λ j apart. Wrote-state d j ∙ rw apart refl;
            })
    ]

-- ===== src/Gate/Rules.antt =====
-- Which calls a tool's classification lets through in normal mode.
use eggy.Prelude.{
  String, true, false, ◌≡◌, ◌≢◌, ◌↔◌, ◌⊎◌, inl, inr, List, [], ◌∷◌, arith, eq_iff, Bool-cases, ◌||◌,
}
use eggy.Prelude.Result.{Result, ok, Result-cases}
use eggy.Gate.{ToolEffect, rule_for, is_gated, contains, gate_all_calls, normalize_arguments}

-- The text is listed.
abbrev pub Listed : List String → String → Type 0
Listed [] s = ⊥
Listed (x ∷ xs) s = (x ≡ s) ⊎ Listed xs s

contains-Listed : (xs : List String) (s : String) → (contains xs s ≡ true) ↔ Listed xs s
unfolding contains
contains-Listed [] s = ground arith
contains-Listed (x ∷ xs) s = ground (arith, contains-Listed xs s, eq_iff x s)

-- The call says in so many words that it is an action, and that action is not listed.
pub record NamesOther (read_action : String → Result String) (mutations : List String)
    (raw : String) : Type 0 where
  pub action : String
  pub reads : read_action (normalize_arguments raw) ≡ ok action
  pub named : action ≢ ""
  pub unlisted : ¬ (Listed mutations action)

-- A call may run unasked: the tool writes nothing outside, or it lists its writes one by one and
-- the call is another action.
pub record MayRunListed (read_action : String → Result String) (effect : ToolEffect) (raw : String)
    : Type 0 where
  pub lists : effect.mutations ≢ []
  pub not_all : ¬ (Listed effect.mutations gate_all_calls)
  pub other : NamesOther read_action effect.mutations raw

abbrev pub MayRun : (String → Result String) → ToolEffect → String → Type 0
MayRun read_action effect raw =
    ((effect.read_only || effect.internal) ≡ true) ⊎ MayRunListed read_action effect raw

-- In normal mode the rule of a tool lets a call run unasked exactly when it may.
pub rule_for-MayRun :
    (read_action : String → Result String) (effect : ToolEffect) (raw : String)
    → (is_gated (rule_for read_action effect) raw ≡ false) ↔ MayRun read_action effect raw
unfolding rule_for is_gated
rule_for-MayRun read_action effect raw = (to, from)
  where
    from : MayRun read_action effect raw → is_gated (rule_for read_action effect) raw ≡ false
    from (inl h) = ground arith
    from (inr h) = ground (
      arith,
      contains-Listed effect.mutations gate_all_calls,
      contains-Listed effect.mutations h.other.action,
      h.not_all,
      h.lists,
      h.other.reads,
      h.other.named,
      h.other.unlisted,
      eq_iff h.other.action "",
    )

    to : is_gated (rule_for read_action effect) raw ≡ false → MayRun read_action effect raw
    to h = elim (Bool-cases (effect.read_only || effect.internal)) [
      | inl harmless ↦ inl harmless
      | inr writes ↦ elim (Result-cases (read_action (normalize_arguments raw))) [
        | inr (e, p) ↦ absurd (ground arith)
        | inl (action, p) ↦ inr (record {
          lists = λ e. ground arith;
          not_all = λ l. ground (arith, contains-Listed effect.mutations gate_all_calls);
          other = record {
            action = action;
            reads = p;
            named = ground (arith, eq_iff action "");
            unlisted = ground (arith, contains-Listed effect.mutations action);
          };
        })
      ]
    ]

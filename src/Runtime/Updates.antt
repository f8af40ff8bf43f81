-- ===== src/Runtime/Updates.antt =====
-- What the retried updates of internal/core/services/agent_runtime.go do to the store.
use mathlib.Core.Path.{subst}
use eggy.Prelude.{
  ℕ, zero, suc, ◌+◌, ◌%◌, ◌^◌, ◌<◌, ◌≡◌, inl, inr, refl, sym, ap, ◌∙◌, String, false, arith, str_eq,
  eq_refl, if◌then◌else◌, Bool-cases, Option-cases,
}
use eggy.Prelude.Dict.{Dict, put, get-put}
use eggy.Prelude.Result.{Error, Result, ok, err, version_conflict, Result-cases, ok-injective}
use eggy.Message.{ModelUsage, add_usage}
use eggy.Store.{State, Db, load, load_state, acting_account}
use eggy.Store.Laws.{bumped, update_ok, update_error_unchanged, load_state-put}
use eggy.Runtime.{
  AgentRuntime, Attempt, max_attempts, conclude_attempt, changing, write_attempt, update_from,
  update_state, has, used_of, more_usage, is_no_usage, record_usage,
}

-- The store as others alone leave it up to the write of one attempt.
unfoldable pub others_wrote : (ℕ → Attempt) → ℕ → Db → Db
others_wrote attempts zero db = (attempts 0).between ((attempts 0).before db)
others_wrote attempts (suc i) db =
    (attempts (suc i)).between ((attempts (suc i)).before (others_wrote attempts i db))

-- One write of the mutation, by the call of one of the attempts, on the state that its account had at that
-- moment; the attempts before it wrote nothing.
pub record Wrote (attempts : ℕ → Attempt) (mutate : State → State) (db db' : Db) : Type 0 where
  pub round : ℕ
  pub within : round < max_attempts
  pub account : String
  pub by : acting_account (attempts round).writing ≡ ok account
  pub stored :
      let seen = others_wrote attempts round db in
      db' ≡ put seen account (bumped (mutate (load_state seen account)))

-- The store is where the others left it when an attempt begins to write.
abbrev Arrives : (ℕ → Attempt) → ℕ → Db → Db → Type 0
Arrives attempts i start db =
    (attempts i).between ((attempts i).before db) ≡ others_wrote attempts i start

write_attempt-Wrote :
    (attempts : ℕ → Attempt) (mutate : State → State) (i : ℕ) (start db : Db) (state s : State)
    (u : Unit {0})
    → i < max_attempts
    → Arrives attempts i start db
    → (write_attempt (attempts i) mutate ((attempts i).before db) state).0 ≡ ok (s, u)
    → Wrote attempts mutate start
        (write_attempt (attempts i) mutate ((attempts i).before db) state).1
unfolding write_attempt
write_attempt-Wrote attempts mutate i start db state s u within arrives h =
    let a = attempts i in
    let seen = a.between (a.before db) in
    let c = update_ok seen a.writing state.version (changing mutate) h in
    let state' = load_state seen c.account in
    let same = ap (λ p. p.0) (ok-injective (mutate state', u) (c.changed, u) c.mutated) in
    let stored : (write_attempt a mutate (a.before db) state).1
        ≡ put seen c.account (bumped (mutate state')) =
      c.stored ∙ ap (λ t. put seen c.account t) (c.result ∙ ap bumped (sym same)) in
    record {
      round = i;
      within = within;
      account = c.account;
      by = c.by;
      stored =
          stored ∙ ap (λ d. put d c.account (bumped (mutate (load_state d c.account)))) arrives;
    }

-- An attempt that is refused leaves the store to the next one.
refused-Arrives :
    (attempts : ℕ → Attempt) (mutate : State → State) (i : ℕ) (start db : Db) (state : State)
    (e : Error)
    → Arrives attempts i start db
    → (write_attempt (attempts i) mutate ((attempts i).before db) state).0 ≡ err e
    → Arrives attempts
        (suc i)
        start
        (write_attempt (attempts i) mutate ((attempts i).before db) state).1
unfolding write_attempt others_wrote
refused-Arrives attempts mutate i start db state e arrives h =
    let a = attempts i in
    ap (λ d. (attempts (suc i)).between ((attempts (suc i)).before d))
      (update_error_unchanged (a.between (a.before db)) a.writing state.version (changing mutate) h
        ∙ arrives)

conclude_attempt-Wrote :
    (attempts : ℕ → Attempt) (mutate : State → State) (i : ℕ) (start db : Db) (state : State)
    (written : Result (State × Unit {0}) × Db) (rest : Result (Unit {0}) × Db)
    → i < max_attempts
    → Arrives attempts i start db
    → write_attempt (attempts i) mutate ((attempts i).before db) state ≡ written
    → (Arrives attempts (suc i) start written.1
        → rest.0 ≡ ok tt
        → Wrote attempts mutate start rest.1)
    → (conclude_attempt written rest).0 ≡ ok tt
    → Wrote attempts mutate start (conclude_attempt written rest).1
unfolding conclude_attempt
conclude_attempt-Wrote attempts mutate i start db state (ok (s, u), db') rest within arrives same
      later h =
    subst (λ p. Wrote attempts mutate start p.1) same
      (write_attempt-Wrote attempts mutate i start db state s u within arrives (ap (λ p. p.0) same))
conclude_attempt-Wrote attempts mutate i start db state (err version_conflict, db') rest within
      arrives same later h =
    later
      (subst (λ p. Arrives attempts (suc i) start p.1) same
        (refused-Arrives attempts mutate i start db state version_conflict arrives
          (ap (λ p. p.0) same)))
      h
conclude_attempt-Wrote attempts mutate i start db state (err e, db') rest within arrives same later
      h =
    absurd (ground (arith, h))

update_from-Wrote :
    (attempts : ℕ → Attempt) (mutate : State → State) (n i : ℕ) (start db : Db)
    → i + n ≡ max_attempts
    → Arrives attempts i start db
    → (update_from attempts mutate n i db).0 ≡ ok tt
    → Wrote attempts mutate start (update_from attempts mutate n i db).1
unfolding update_from
update_from-Wrote attempts mutate zero i start db count arrives h = absurd (ground (arith, h))
update_from-Wrote attempts mutate (suc n) i start db count arrives h =
    let a = attempts i in
    elim (Option-cases a.canceled) [
      | inr (e, ended) ↦ absurd (ground (arith, ended, h))
      | inl going ↦ elim (Result-cases (load (a.before db) a.loading)) [
        | inr (e, refused) ↦ absurd (ground (arith, going, refused, h))
        | inl (state, loaded) ↦
            rw (update_from, going, loaded)
              (conclude_attempt-Wrote attempts mutate i start db state
                (write_attempt a mutate (a.before db) state)
                (update_from attempts mutate n (suc i)
                  (write_attempt a mutate (a.before db) state).1)
                (omega (arith, count)) arrives refl
                (update_from-Wrote attempts mutate n (suc i) start
                  (write_attempt a mutate (a.before db) state).1 (omega (arith, count)))
                (rw (update_from, going, loaded) at h))
      ]
    ]

pub update_state-Wrote :
    (attempts : ℕ → Attempt) (mutate : State → State) (db : Db)
    → (update_state attempts mutate db).0 ≡ ok tt
    → Wrote attempts mutate db (update_state attempts mutate db).1
unfolding update_state others_wrote
update_state-Wrote attempts mutate db h =
    update_from-Wrote attempts mutate max_attempts 0 db db refl refl h

-- The accounts after a write.
pub Wrote-state :
    {attempts : ℕ → Attempt} {mutate : State → State} {db db' : Db}
    (d : Wrote attempts mutate db db') (j : String)
    → let seen = others_wrote attempts d.round db in
      load_state db' j ≡ (
        if str_eq d.account j
        then bumped (mutate (load_state seen d.account))
        else load_state seen j)
Wrote-state {attempts} {mutate} {db} {db'} d j =
    let seen = others_wrote attempts d.round db in
    rw d.stored (load_state-put seen d.account (bumped (mutate (load_state seen d.account))) j)

-- Every count of a usage has grown by that of another, as 64 bits.
pub record Grown (before more after : ModelUsage) : Type 0 where
  pub prompt : after.prompt_tokens ≡ (before.prompt_tokens + more.prompt_tokens) % 2 ^ 64
  pub completion :
      after.completion_tokens ≡ (before.completion_tokens + more.completion_tokens) % 2 ^ 64
  pub total : after.total_tokens ≡ (before.total_tokens + more.total_tokens) % 2 ^ 64
  pub cached :
      after.cached_prompt_tokens
      ≡ (before.cached_prompt_tokens + more.cached_prompt_tokens) % 2 ^ 64
  pub cache_write :
      after.cache_write_tokens ≡ (before.cache_write_tokens + more.cache_write_tokens) % 2 ^ 64
  pub reasoning :
      after.reasoning_tokens ≡ (before.reasoning_tokens + more.reasoning_tokens) % 2 ^ 64

add_usage-Grown : (u v : ModelUsage) → Grown u v (add_usage u v)
unfolding add_usage
add_usage-Grown u v = record {
  prompt = refl;
  completion = refl;
  total = refl;
  cached = refl;
  cache_write = refl;
  reasoning = refl;
}

-- The usage is counted by the write of one of the attempts, for the account of its call, on top of what the
-- others have left there up to that write, and nothing else has changed.
pub record Counted (attempts : ℕ → Attempt) (alias : String) (u : ModelUsage) (db db' : Db)
    : Type 0 where
  pub round : ℕ
  pub within : round < max_attempts
  pub account : String
  pub by : acting_account (attempts round).writing ≡ ok account
  pub counted :
      Grown
        (used_of (load_state (others_wrote attempts round db) account).agent.usage alias)
        u
        (used_of (load_state db' account).agent.usage alias)
  pub others :
      (alias' : String)
      → str_eq alias alias' ≡ false
      → used_of (load_state db' account).agent.usage alias'
        ≡ used_of (load_state (others_wrote attempts round db) account).agent.usage alias'
  pub accounts :
      (j : String)
      → str_eq account j ≡ false
      → load_state db' j ≡ load_state (others_wrote attempts round db) j

used_of-put :
    (used : Dict ModelUsage) (alias : String) (u : ModelUsage) (j : String)
    → used_of (put used alias u) j ≡ (if str_eq alias j then u else used_of used j)
unfolding used_of
used_of-put used alias u j = ground (arith, get-put used alias u j)

Wrote-Counted :
    (attempts : ℕ → Attempt) (alias : String) (u : ModelUsage) (db db' : Db)
    → Wrote attempts (more_usage alias u) db db'
    → Counted attempts alias u db db'
unfolding more_usage used_of
Wrote-Counted attempts alias u db db' d = record {
  round = d.round;
  within = d.within;
  account = d.account;
  by = d.by;
  counted =
      subst (Grown (used_of used alias) u)
        (sym (
          ap (λ s. used_of s.agent.usage alias) own
          ∙ (used_of-put used alias more alias ∙ rw (eq_refl alias) refl)))
        (add_usage-Grown (used_of used alias) u);
  others = λ alias' apart.
      ap (λ s. used_of s.agent.usage alias') own
      ∙ (used_of-put used alias more alias' ∙ rw apart refl);
  accounts = λ j apart. Wrote-state d j ∙ rw apart refl;
}
  where
    seen : Db
    seen = others_wrote attempts d.round db

    used : Dict ModelUsage
    used = (load_state seen d.account).agent.usage

    more : ModelUsage
    more = add_usage (used_of used alias) u

    own : load_state db' d.account ≡ bumped (more_usage alias u (load_state seen d.account))
    own = Wrote-state d d.account ∙ rw (eq_refl d.account) refl

-- When `RecordUsage` of a usage that is not empty reports no error, one of its at most 32 attempts has
-- written it: whatever others wrote between its calls of the store, and however often it was refused,
-- every count of the model's usage, for the account that this attempt's write acted for, is as 64 bits
-- the sum of what the others have left there up to that write and of the count recorded; the usage of
-- the other models and the state of the other accounts are as the others have left them.
pub record_usage-Counted :
    (r : AgentRuntime) (attempts : ℕ → Attempt) (alias : String) (u : ModelUsage) (db : Db)
    → is_no_usage u ≡ false
    → (record_usage r attempts alias u db).0 ≡ ok tt
    → Counted attempts alias u db (record_usage r attempts alias u db).1
unfolding record_usage
record_usage-Counted r attempts alias u db some_usage h = elim (Bool-cases (has r.aliases alias)) [
  | inr unknown ↦ absurd (ground (arith, unknown, h))
  | inl known ↦
      rw (record_usage, known, some_usage)
        (Wrote-Counted attempts alias u db _ (
          update_state-Wrote attempts (more_usage alias u) db
            (rw (record_usage, known, some_usage) at h)))
]

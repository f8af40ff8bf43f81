-- ===== src/Turns/Steps.antt =====
-- The interleavings of `Admit`, `Pending`, `Release` and `Stop` on one entry. An action that cannot
-- happen yet is `disabled`; `panic` is a nil dereference.
use eggy.Prelude.{ℕ, ◌≡◌, Bool, true, false, Option, none, some, List, [], ◌∷◌, ◌++◌, if◌then◌else◌}
use eggy.Message.{Message}
use eggy.Turns.{
  Waiter, TurnEntry, enqueue, leave, is_none, finish_preparation, publish_owner, publish_join,
  as_user, drain, release, stop,
}

-- `owner` is the local variable of the granted `Admit`, once it has read it. `accepted` and
-- `delivered` record the messages that joined a turn, and those that `Pending` or `Release` gave back.
pub record System : Type 0 where
  pub entry : TurnEntry
  pub owner : Option Bool
  pub accepted : List Message
  pub delivered : List Message

pub data Action : Type 0 where
  arrive : Waiter → Action
  give_up : ℕ → Action
  -- the granted waiter finds its context ended, or its `prepare` fails
  abandon : Action
  read_owner : Action
  publish : Action
  pending release_turn : ℕ → Action
  stop_turn : Action

pub data Outcome : Type 0 where
  moved : System → Outcome
  disabled panic : Outcome

unfoldable pub init : System
init = record {
  entry = record { next = 0; active = none; preparing = false; waiters = []; granted = none };
  owner = none;
  accepted = [];
  delivered = [];
}

join : System → Waiter → Outcome
unfolding publish_join as_user
join s w = elim (publish_join s.entry w) [
  | none ↦ panic
  | some e ↦
      moved (record s { entry = e; owner = none; accepted = s.accepted ++ as_user w.message ∷ [] })
]

publish_by : System → Bool → Waiter → Outcome
unfolding join publish_owner
publish_by s true w = moved (record s { entry = publish_owner s.entry w; owner = none })
publish_by s false w = join s w

unfoldable pub step : System → Action → Outcome
unfolding enqueue leave finish_preparation publish_by drain release stop
step s (arrive w) = moved (record s { entry = enqueue s.entry w })
step s (give_up id) = moved (record s { entry = leave s.entry id })
step s abandon = elim s.entry.granted [
  | none ↦ disabled
  | some w ↦ moved (record s { entry = finish_preparation s.entry; owner = none })
]
step s read_owner = elim s.entry.granted [
  | none ↦ disabled
  | some w ↦ moved (record s { owner = some (is_none s.entry.active) })
]
step s publish = elim s.entry.granted [
  | none ↦ disabled
  | some w ↦ elim s.owner [ none ↦ disabled | some owner ↦ publish_by s owner w ]
]
step s (pending generation) =
    let (messages, e) = drain s.entry generation in
    moved (record s { entry = e; delivered = s.delivered ++ messages })
step s (release_turn generation) =
    let (messages, e) = release s.entry generation in
    if s.entry.preparing
    then disabled
    else moved (record s { entry = e; delivered = s.delivered ++ messages })
step s stop_turn =
    if s.entry.preparing then disabled else moved (record s { entry = (stop s.entry).1 })

-- A run of actions; those that are disabled change nothing.
pub data Reach : System → Type 0 where
  start : Reach init
  after : {s t : System} (a : Action) → Reach s → step s a ≡ moved t → Reach t

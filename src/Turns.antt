-- ===== src/Turns.antt =====
-- internal/core/services/turns.go: admission to one account's conversation. Each critical section of the
-- code, under the lock of its entry, is one function here; a goroutine between two of them is the
-- state that it carries: a queued waiter, or the granted one with the local `owner` that it read.
pub mod Steps
pub mod Invariant
pub mod Preserve
pub mod Delivery
pub mod Table
pub mod Keys
pub mod Kept
pub mod Made
pub mod OneEntry
use eggy.Prelude.{
  ℕ, ◌+◌, Bool, true, false, not, ◌&&◌, ◌||◌, Option, none, some, List, [], ◌∷◌, ◌++◌, ◌==◌,
  if◌then◌else◌,
}
use eggy.Message.{Message, user}
use eggy.Store.{u64}
use eggy.Text.{trim_space, is_empty}

pub record Waiter : Type 0 where
  pub id : ℕ
  pub message : Message
  pub steerable : Bool
  pub joinable : Bool

pub record ActiveTurn : Type 0 where
  pub generation : ℕ
  pub canceled : Bool
  pub steerable : Bool
  pub stopping : Bool
  pub pending : List Message

-- `granted` is the waiter whose own flag is set, until it finishes its preparation.
pub record TurnEntry : Type 0 where
  pub next : ℕ
  pub active : Option ActiveTurn
  pub preparing : Bool
  pub waiters : List Waiter
  pub granted : Option Waiter

-- What the head of the queue has to wait for: a running turn that it cannot join.
unfoldable pub blocked : Option ActiveTurn → Waiter → Bool
blocked none w = false
blocked (some a) w = not w.joinable || not w.steerable || not a.steerable || a.stopping

unfoldable pub grant_head : TurnEntry → List Waiter → TurnEntry
unfolding blocked
grant_head e [] = e
grant_head e (w ∷ ws) =
    if blocked e.active w then e else record e { waiters = ws; preparing = true; granted = some w }

-- `grantNextLocked`.
unfoldable pub grant_next : TurnEntry → TurnEntry
unfolding grant_head
grant_next e = if e.preparing then e else grant_head e e.waiters

-- `finishPreparationLocked`.
unfoldable pub finish_preparation : TurnEntry → TurnEntry
unfolding grant_next
finish_preparation e = grant_next (record e { preparing = false; granted = none })

unfoldable pub new_waiter : ℕ → Message → Bool → Waiter
unfolding trim_space
new_waiter id message steerable = record {
  id = id;
  message = message;
  steerable = steerable;
  joinable = not (is_empty (trim_space message.content)) || not (is_empty message.parts);
}

-- `Admit` up to its `select`.
unfoldable pub enqueue : TurnEntry → Waiter → TurnEntry
unfolding grant_next
enqueue e w = grant_next (record e { waiters = e.waiters ++ w ∷ [] })

unfoldable pub without : ℕ → List Waiter → List Waiter
without id [] = []
without id (w ∷ ws) = let rest = without id ws in if w.id == id then ws else w ∷ rest

-- `Admit` when its context ends while it is still queued.
unfoldable pub leave : TurnEntry → ℕ → TurnEntry
unfolding grant_next without
leave e id = grant_next (record e { waiters = without id e.waiters })

abbrev pub is_none {ℓ} : {A : Type ℓ} → Option A → Bool
is_none none = true
is_none (some _) = false

-- The end of `Admit` for an owner.
unfoldable pub publish_owner : TurnEntry → Waiter → TurnEntry
unfolding finish_preparation
publish_owner e w = finish_preparation (record e {
  next = u64 (e.next + 1);
  active = some (record {
    generation = u64 (e.next + 1);
    canceled = false;
    steerable = w.steerable;
    stopping = false;
    pending = [];
  });
})

unfoldable pub as_user : Message → Message
as_user m = record m { role = user }

-- The end of `Admit` for a joiner; `none` is the nil dereference of `entry.active.pending`.
unfoldable pub publish_join : TurnEntry → Waiter → Option TurnEntry
unfolding finish_preparation as_user
publish_join e w = elim e.active [
  | none ↦ none
  | some a ↦ some (
      finish_preparation
        (record e { active = some (record a { pending = a.pending ++ as_user w.message ∷ [] }) }))
]

-- `Pending`: the drained messages and the entry.
unfoldable pub drain : TurnEntry → ℕ → List Message × TurnEntry
drain e generation = elim e.active [
  | none ↦ ([], e)
  | some a ↦
      if a.generation == generation
      then (a.pending, record e { active = some (record a { pending = [] }) })
      else ([], e)
]

-- `Release`, once nothing is preparing.
unfoldable pub release : TurnEntry → ℕ → List Message × TurnEntry
unfolding grant_next
release e generation = elim e.active [
  | none ↦ ([], e)
  | some a ↦
      if a.generation == generation
      then (a.pending, grant_next (record e { active = none }))
      else ([], e)
]

-- `Stop`, once nothing is preparing.
unfoldable pub stop : TurnEntry → Bool × TurnEntry
stop e = elim e.active [
  | none ↦ (false, e)
  | some a ↦
      if a.stopping
      then (false, e)
      else (true, record e { active = some (record a { stopping = true; canceled = true }) })
]

-- ===== src/Dispatcher.antt =====
-- internal/core/services/dispatcher.go: one event, handled as the account that owns it. The configured
-- accounts and the handlers are arguments, as they are in the code. A run of a handler is seen as an
-- entry of a log. The lock of an event lets one `Handle` at a time run for its identifier.
pub mod Locks
pub mod Counts
pub mod Kept
pub mod Alone
pub mod Once
use eggy.Prelude.{
  ℕ, ◌+◌, String, Bool, true, false, not, ◌||◌, Option, none, some, List, [], ◌∷◌, ◌++◌, str_eq,
  ltb, if◌then◌else◌,
}
use eggy.Prelude.Dict.{Dict, get, put}
use eggy.Prelude.Result.{Error, Result, ok, err, owner_denied, other}
use eggy.Context.{Destination}
use eggy.Store.{State, Db, Call, load, update}

pub record Event : Type 0 where
  pub id : String
  pub kind : String
  pub source : String
  pub owner : String
  pub timestamp : ℕ
  pub correlation_id : String
  pub destination : Destination
  pub payload : String
  pub sender_id : String

abbrev pub Handler : Type 0
Handler = Event → Db → Result (Unit {0}) × Db

-- The state store, and the identifiers of the events that a handler ran for.
pub record Desk : Type 0 where
  pub db : Db
  pub ran : List String

-- A week of seconds.
abbrev pub processed_event_retention : ℕ
processed_event_retention = 604800

unfoldable pub swept : ℕ → Dict ℕ → Dict ℕ
swept now [] = []
swept now ((id, handled) ∷ l) =
    let rest = swept now l in
    if ltb (handled + processed_event_retention) now then rest else (id, handled) ∷ rest

-- The mutation at the end of `Handle`.
unfoldable pub recorded : String → ℕ → State → Result (State × Unit {0})
unfolding swept
recorded id now state =
    ok (record state { processed_events = put (swept now state.processed_events) id now }, tt)

abbrev pub is_seen : Option ℕ → Bool
is_seen none = false
is_seen (some _) = true

-- The call as the event's owner.
unfoldable pub as_owner_of : Event → Call → Call
as_owner_of event call = record call { ctx = record (call.ctx) { principal = some event.owner } }

-- `Handle` once the handler has run without an error.
unfoldable pub settle : Call → Call → ℕ → Event → Desk → Result (Unit {0}) × Desk
unfolding recorded as_owner_of
settle second third now event w = elim (load w.db (as_owner_of event second)) [
  | err e ↦ (err e, w)
  | ok state ↦
      let (r, db') = update w.db (as_owner_of event third) state.version (recorded event.id now) in
      if is_seen (get state.processed_events event.id)
      then (ok tt, w)
      else (elim r [ err e ↦ err e | ok _ ↦ ok tt ], record w { db = db' })
]

-- The handler's run, and what follows it.
unfoldable pub run_handler : Handler → Call → Call → ℕ → Event → Desk → Result (Unit {0}) × Desk
unfolding settle
run_handler handler second third now event w =
    let (r, db') = handler event w.db in
    let w' : Desk = record { db = db'; ran = w.ran ++ event.id ∷ [] } in
    elim r [ err e ↦ (err e, w') | ok _ ↦ settle second third now event w' ]

module _ (accounts : String → Bool) (handlers : String → Option Handler) where
  -- `Handle`. Its three calls of the store meet what the three calls say; `now` is the time after
  -- the second one.
  unfoldable pub handle : Call → Call → Call → ℕ → Event → Desk → Result (Unit {0}) × Desk
  unfolding run_handler as_owner_of
  handle first second third now event w =
      if str_eq event.owner "" || not (accounts event.owner)
      then (err owner_denied, w)
      else elim (load w.db (as_owner_of event first)) [
        | err e ↦ (err e, w)
        | ok state ↦
            if is_seen (get state.processed_events event.id)
            then (ok tt, w)
            else elim (handlers event.kind) [
              | none ↦ (err (other "no handler for event type"), w)
              | some handler ↦ run_handler handler second third now event w
            ]
      ]

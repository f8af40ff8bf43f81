-- ===== src/Schedule.antt =====
-- Scheduled jobs: internal/ports/schedules.go and the table of internal/storage/sqlite/schedules.go.
-- The table is a map from an id to its row, as ids are global. A time is a number of seconds, and 0
-- is Go's zero time.
pub mod Cron
pub mod Occurrence
pub mod Ranges
pub mod Scheduler
pub mod Updates
pub mod Claims
pub mod Dues
pub mod Once
pub mod Ends
use Prim.Native.Char.{code}
use eggy.Prelude.{
  ℕ, zero, suc, String, Bool, true, false, not, ◌&&◌, ◌||◌, List, [], ◌∷◌, Option, none, some, leb,
  ◌==◌, str_eq, if◌then◌else◌,
}
use eggy.Prelude.Dict.{Dict, get, put, remove}
use eggy.Prelude.Result.{Result, ok, err, Error, ◌>>=◌, schedule_not_found, schedule_invalid, other}
use eggy.Text.{is_blank}
use eggy.Context.{account_of}
use eggy.Store.{Call}

pub data ScheduleKind : Type 0 where
  exact recurring : ScheduleKind
  other_kind : String → ScheduleKind

pub data ScheduleExecution : Type 0 where
  unset agent message : ScheduleExecution
  other_execution : String → ScheduleExecution

pub record Schedule : Type 0 where
  pub id : String
  pub owner : String
  pub kind : ScheduleKind
  pub execution : ScheduleExecution
  pub instruction : String
  pub expression : List ℕ
  pub next_run : ℕ
  pub last_run : ℕ
  pub pending_run : ℕ
  pub enabled : Bool

abbrev pub Table : Type 0
Table = Dict Schedule

-- `namePattern`: a letter or a digit, and then 63 letters, digits, dots, underscores and dashes at most.
is_alphanumeric : ℕ → Bool
is_alphanumeric c = (leb 65 c && leb c 90) || (leb 97 c && leb c 122) || (leb 48 c && leb c 57)

is_name_rest : ℕ → String → Bool
unfolding is_alphanumeric
is_name_rest n String.[] = true
is_name_rest zero (String.◌∷◌ c s) = false
is_name_rest (suc n) (String.◌∷◌ c s) =
    (is_alphanumeric (code c) || code c == 46 || code c == 95 || code c == 45) && is_name_rest n s

unfoldable pub is_name : String → Bool
unfolding is_alphanumeric is_name_rest
is_name String.[] = false
is_name (String.◌∷◌ c s) = is_alphanumeric (code c) && is_name_rest 63 s

-- The checks that every operation on one row begins with, up to its first query.
unfoldable pub acting_on : Call → String → Result String
unfolding is_name account_of
acting_on call id = if not (is_name id) then err schedule_invalid else (do
  account ← account_of call.ctx
  elim call.read_fault [ some e ↦ err e | none ↦ ok account ])

-- `getSchedule`: another account's row is as one that is gone.
unfoldable pub get_schedule : Table → String → String → Result Schedule
get_schedule table account id = elim (get table id) [
  | none ↦ err schedule_not_found
  | some s ↦ if str_eq s.owner account then ok s else err schedule_not_found
]

-- `Create`: the identifier must be free.
unfoldable pub create : Table → Call → Schedule → Result (Unit {0}) × Table
unfolding acting_on is_blank
create table call s =
    if is_name s.id && is_blank s.instruction
    then (err (other "instruction is required"), table)
    else elim (acting_on call s.id) [
      | err e ↦ (err e, table)
      | ok account ↦ elim (get table s.id) [
        | some _ ↦ (err (other "schedule already exists"), table)
        | none ↦ elim call.write_fault [
          | some e ↦ (err e, table)
          | none ↦ (ok tt, put table s.id (record s { owner = account }))
        ]
      ]
    ]

module _ {A : Type 0} where
  -- What `Update` computes from the row that it read. The identifier and the owner stay.
  unfoldable pub changed :
      String → (Schedule → Result (Schedule × A)) → Schedule → Result (Schedule × A)
  unfolding is_blank
  changed id mutate s = do
    (s', a) ← mutate s
    if is_blank s'.instruction
        then err (other "instruction is required")
        else ok (record s' { id = id; owner = s.owner }, a)

  -- `Update`: a transaction, which an error leaves without effect.
  unfoldable pub update_schedule :
      Table → Call → String → (Schedule → Result (Schedule × A)) → Result A × Table
  unfolding acting_on get_schedule changed
  update_schedule table call id mutate = elim (acting_on call id) [
    | err e ↦ (err e, table)
    | ok account ↦ elim (get_schedule table account id >>= changed id mutate) [
      | err e ↦ (err e, table)
      | ok (s, a) ↦ elim call.write_fault [
        | some e ↦ (err e, table)
        | none ↦ (ok a, put table id s)
      ]
    ]
  ]

-- `Delete`: another account's row stays, and an absent one is no error.
unfoldable pub delete : Table → Call → String → Result (Unit {0}) × Table
unfolding acting_on
delete table call id = elim (acting_on call id) [
  | err e ↦ (err e, table)
  | ok account ↦ elim call.write_fault [
    | some e ↦ (err e, table)
    | none ↦ elim (get table id) [
      | none ↦ (ok tt, table)
      | some s ↦ if str_eq s.owner account then (ok tt, remove table id) else (ok tt, table)
    ]
  ]
]

-- ===== src/Schedule/Scheduler.antt =====
-- The `Scheduler` of internal/schedule/local/scheduler.go over the table of jobs. The order that the
-- database lists the rows in, and what each job's own transaction meets, are arguments.
use eggy.Prelude.{
  ℕ, String, Bool, true, false, not, ◌&&◌, ◌||◌, List, [], ◌∷◌, Option, none, some, ltb, ◌==◌,
  str_eq, if◌then◌else◌,
}
use eggy.Prelude.Result.{Result, ok, err, Error, ◌>>=◌, schedule_not_found, not_due, other}
use eggy.Store.{Call}
use eggy.Schedule.{
  Schedule, Table, ScheduleKind, recurring, ScheduleExecution, unset, agent, message,
  other_execution, create, update_schedule, delete,
}
use eggy.Schedule.Cron.{Calendar, parse_cron, next}

-- `asOwner`.
unfoldable pub as_owner : Call → Schedule → Call
as_owner call s = record call { ctx = record (call.ctx) { principal = some s.owner } }

abbrev pub is_recurring : ScheduleKind → Bool
is_recurring recurring = true
is_recurring _ = false

abbrev pub defaulted : ScheduleExecution → Result ScheduleExecution
defaulted unset = ok agent
defaulted agent = ok agent
defaulted message = ok message
defaulted (other_execution name) = err (other "unknown schedule execution")

-- `Add`.
checked_expression : Schedule → Result (Unit {0})
checked_expression s =
    if is_recurring s.kind then parse_cron s.expression >>= (λ _. ok tt) else ok tt

unfoldable pub added : Schedule → Result Schedule
unfolding checked_expression
added s =
    if str_eq s.id "" || str_eq s.instruction ""
    then err (other "schedule id and instruction are required")
    else if s.next_run == 0
    then err (other "schedule next_run is required")
    else (do
      _ ← checked_expression s
      execution ← defaulted s.execution
      ok (record s { execution = execution }))

unfoldable pub add : Table → Call → Schedule → Result (Unit {0}) × Table
unfolding added
add table call s = elim (added s) [ err e ↦ (err e, table) | ok s' ↦ create table call s' ]

-- The test of `Due`, on the listing and again under the transaction.
abbrev pub is_ready : ℕ → Schedule → Bool
is_ready now s = s.enabled && (s.pending_run == 0 && not (ltb now s.next_run))

unfoldable pub claim : ℕ → Schedule → Result (Schedule × Schedule)
claim now s =
    let claimed : Schedule = record s { pending_run = s.next_run } in
    if is_ready now s then ok (claimed, claimed) else err not_due

-- The two errors that only say that the job is no longer there to claim.
abbrev pub is_gone : Error → Bool
is_gone not_due = true
is_gone schedule_not_found = true
is_gone _ = false

pub record Claimed : Type 0 where
  pub due : List Schedule
  pub errors : List Error

unfoldable pub with_claim : Result Schedule → Claimed → Claimed
with_claim (ok s) rest = record rest { due = s ∷ rest.due }
with_claim (err e) rest = if is_gone e then rest else record rest { errors = e ∷ rest.errors }

-- One round of the loop of `Due`.
unfoldable pub claim_one : (String → Call) → ℕ → Table → Schedule → Result Schedule × Table
unfolding claim as_owner
claim_one calls now table s =
    if is_ready now s
    then update_schedule table (as_owner (calls s.id) s) s.id (claim now)
    else (err not_due, table)

unfoldable pub claim_each : (String → Call) → ℕ → Table → List Schedule → Claimed × Table
unfolding claim_one with_claim
claim_each calls now table [] = (record { due = []; errors = [] }, table)
claim_each calls now table (s ∷ listing) =
    let first = claim_one calls now table s in
    let rest = claim_each calls now (first.1) listing in (with_claim (first.0) (rest.0), rest.1)

-- `Due`. The listing is a snapshot of the table, unless it cannot be read.
unfoldable pub due :
    (Table → List Schedule) → Option Error → (String → Call) → ℕ → Table → Claimed × Table
unfolding claim_each
due list_all fault calls now table = elim fault [
  | some e ↦ (record { due = []; errors = e ∷ [] }, table)
  | none ↦ claim_each calls now table (list_all table)
]

-- The mutation of `Complete`, which says whether a job that runs once is finished.
unfoldable pub completed : Calendar → ℕ → ℕ → Schedule → Result (Schedule × Bool)
completed calendar scheduled_for completed_at s =
    let done : Schedule = record s { last_run = scheduled_for; pending_run = 0 } in
    if not (s.pending_run == scheduled_for)
    then err (other "schedule completion does not match pending run")
    else if is_recurring s.kind
    then (do
      cron ← parse_cron s.expression
      at ← next cron calendar completed_at
      ok (record done { next_run = at }, false))
    else ok (record done { enabled = false }, true)

-- A job that is not there any more is as good as removed.
forgiven : Result (Unit {0}) → Result (Unit {0})
forgiven (err schedule_not_found) = ok tt
forgiven r = r

unfoldable pub remove_finished : Table → Call → String → Result (Unit {0}) × Table
unfolding forgiven
remove_finished table call id =
    let deleted = delete table call id in (forgiven (deleted.0), deleted.1)

-- The end of `Complete`: a finished job is deleted.
unfoldable pub completion : Call → String → Result Bool × Table → Result (Unit {0}) × Table
unfolding remove_finished
completion call id (err e, table) = (err e, table)
completion call id (ok true, table) = remove_finished table call id
completion call id (ok false, table) = (ok tt, table)

-- `Complete`. The second call says what the deletion of a finished job meets; its context is the
-- first one's.
unfoldable pub complete :
    Calendar → Table → Call → Call → String → ℕ → ℕ → Result (Unit {0}) × Table
unfolding completed completion
complete calendar table call again id scheduled_for completed_at =
    completion (record again { ctx = call.ctx }) id
      (update_schedule table call id (completed calendar scheduled_for completed_at))

unfoldable pub disabled : Schedule → Result (Schedule × Unit {0})
disabled s = ok (record s { enabled = false; pending_run = 0 }, tt)

-- `Disable`.
unfoldable pub disable : Table → Call → String → Result (Unit {0}) × Table
unfolding disabled
disable table call id = update_schedule table call id disabled

unfoldable pub failed : ℕ → Schedule → Result (Schedule × Unit {0})
failed scheduled_for s =
    if s.pending_run == scheduled_for
    then ok (record s { pending_run = 0 }, tt)
    else err (other "schedule failure does not match pending run")

-- `Fail`.
unfoldable pub fail : Table → Call → String → ℕ → Result (Unit {0}) × Table
unfolding failed
fail table call id scheduled_for = update_schedule table call id (failed scheduled_for)

unfoldable pub finished_once : Schedule → Bool
finished_once s = not (is_recurring s.kind) && (not s.enabled && not (s.last_run == 0))

unfoldable pub freed : Schedule → Result (Schedule × Unit {0})
freed s = ok (record s { pending_run = 0 }, tt)

-- One round of the loop of `Recover`.
unfoldable pub recover_one : (String → Call) → Table → Schedule → Result (Unit {0}) × Table
unfolding finished_once freed forgiven remove_finished as_owner
recover_one calls table s =
    let call = as_owner (calls s.id) s in
    let updated = update_schedule table call s.id freed in
    if finished_once s
    then remove_finished table call s.id
    else if s.pending_run == 0
    then (ok tt, table)
    else (forgiven (updated.0), updated.1)

unfoldable pub recover_each : (String → Call) → Table → List Schedule → Result (Unit {0}) × Table
unfolding recover_one
recover_each calls table [] = (ok tt, table)
recover_each calls table (s ∷ listing) =
    let first = recover_one calls table s in
    let rest = recover_each calls (first.1) listing in
    elim (first.0) [ err e ↦ first | ok _ ↦ rest ]

-- `Recover`.
unfoldable pub recover :
    (Table → List Schedule) → Option Error → (String → Call) → Table → Result (Unit {0}) × Table
unfolding recover_each
recover list_all fault calls table = elim fault [
  | some e ↦ (err e, table)
  | none ↦ recover_each calls table (list_all table)
]

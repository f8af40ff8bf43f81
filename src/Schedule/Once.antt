-- ===== src/Schedule/Once.antt =====
-- Two calls of `Due` of internal/schedule/local/scheduler.go, one after the other.
use eggy.Prelude.{ℕ, ◌≡◌, ◌≢◌, ap, String, List, [], ◌∷◌, Option, some, arith, All}
use eggy.Prelude.Dict.{get}
use eggy.Prelude.Result.{Error}
use eggy.Store.{Call}
use eggy.Schedule.{Schedule, Table}
use eggy.Schedule.Scheduler.{due}
use eggy.Schedule.Claims.{IsTable, IsClaim}
use eggy.Schedule.Dues.{due-Claims}

-- Two calls of `Due`, one right after the other, each at its time and with any listing, on a table whose
-- rows stand under their own identifiers and have a next run, never return the same job: the first
-- claimed it.
pub due_twice_disjoint :
    (list_all : Table → List Schedule) (fault again : Option Error) (calls more : String → Call)
    (now later : ℕ) (table : Table)
    → IsTable table
    → All
        (λ c.
          All
            (λ d. d.id ≢ c.id)
            (due list_all again more later (due list_all fault calls now table).1).0.due)
        (due list_all fault calls now table).0.due
due_twice_disjoint list_all fault again calls more now later table good =
    let first = due-Claims now list_all fault calls table good in
    let second =
      due-Claims later list_all again more (due list_all fault calls now table).1 first.rows in
    go (due list_all fault calls now table).0.due first.each second.kept
  where
    go :
        (l : List Schedule)
        → All
            (λ c. IsClaim now table c × (get (due list_all fault calls now table).1 c.id ≡ some c))
            l
        → ((id : String) (s : Schedule)
            → get (due list_all fault calls now table).1 id ≡ some s
            → s.pending_run ≢ 0
            → (get (due list_all again more later (due list_all fault calls now table).1).1 id
                ≡ some s)
              × All
                  (λ d. d.id ≢ id)
                  (due list_all again more later (due list_all fault calls now table).1).0.due)
        → All
            (λ c.
              All
                (λ d. d.id ≢ c.id)
                (due list_all again more later (due list_all fault calls now table).1).0.due)
            l
    go [] h kept = tt
    go (c ∷ l) h kept =
        let k = h.0.0 in
        let starts = (good c.id k.row k.found).1 in
        (
          (kept c.id c h.0.1
              (λ z. absurd (omega (arith, starts, z, ap (λ x. x.pending_run) k.is)))).1,
          go l h.1 kept,
        )

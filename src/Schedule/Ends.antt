-- ===== src/Schedule/Ends.antt =====
-- `Complete` of internal/schedule/local/scheduler.go: a run that ended is not run again.
use mathlib.Core.Path.{subst}
use eggy.Prelude.{
  ℕ, ◌≡◌, ◌<◌, ◌+◌, ◌/◌, refl, ◌∙◌, ap, sym, String, Bool, true, false, Option, none, some, str_eq,
  eq_refl, arith, Bool-cases, inl, inr, Option-cases, ◌⊎◌, ◌==◌,
}
use eggy.Prelude.Dict.{get, put, remove, get-put, get-remove}
use eggy.Prelude.Result.{ok, err, Error, Result-cases, ok-injective}
use eggy.Store.{Call}
use eggy.Schedule.{Schedule, Table, delete, acting_on}
use eggy.Schedule.Cron.{Calendar, Cron, next, parse_cron, next_minute}
use eggy.Schedule.Occurrence.{Searched, next-Searched}
use eggy.Schedule.Updates.{update_schedule-Wrote}
use eggy.Schedule.Scheduler.{is_recurring, completed, remove_finished, completion, complete}

delete-cases :
    (table : Table) (call : Call) (id : String)
    → ((delete table call id).1 ≡ table) ⊎ ((delete table call id).1 ≡ remove table id)
unfolding delete
delete-cases table call id = elim (Result-cases (acting_on call id)) [
  | inr (e, refused) ↦ inl (rw (refused, delete) refl)
  | inl (account, acting) ↦ elim (Option-cases call.write_fault) [
    | inr (e, fault) ↦ inl (rw (acting, delete, fault) refl)
    | inl clear ↦ elim (Option-cases (get table id)) [
      | inl missing ↦ inl (rw (acting, delete, clear, missing) refl)
      | inr (s, found) ↦ elim (Bool-cases (str_eq s.owner account)) [
        | inl owned ↦ inr (rw (acting, delete, clear, found, owned) refl)
        | inr another ↦ inl (rw (acting, delete, clear, found, another) refl)
      ]
    ]
  ]
]

remove_finished-table :
    (table : Table) (call : Call) (id : String)
    → (remove_finished table call id).1 ≡ (delete table call id).1
unfolding remove_finished
remove_finished-table table call id = refl

next-later : (cron : Cron) (c : Calendar) (after t : ℕ) → next cron c after ≡ ok t → after < t
next-later cron c after t found =
    let (searched, later) = next-Searched cron c after in
    let answer =
      subst (λ r. Searched cron c (after / 60 + 1) (c.five_years (next_minute after)) r) found
        searched in
    omega (arith, later, answer.0)

-- The row of a run that ended: its claim is released, and it is switched off or its next run is later.
pub record Ended (scheduled_for completed_at : ℕ) (s : Schedule) : Type 0 where
  pub released : s.pending_run ≡ 0
  pub ran : s.last_run ≡ scheduled_for
  pub over : (s.enabled ≡ false) ⊎ (completed_at < s.next_run)

completed-Ended :
    (calendar : Calendar) (scheduled_for completed_at : ℕ) (s t : Schedule) (finished : Bool)
    → completed calendar scheduled_for completed_at s ≡ ok (t, finished)
    → (s.pending_run ≡ scheduled_for) × Ended scheduled_for completed_at t
unfolding completed
completed-Ended calendar scheduled_for completed_at s t finished h =
    elim (Bool-cases (s.pending_run == scheduled_for)) [
      | inr another ↦ absurd (ground (arith, another, h))
      | inl pending ↦ elim (Bool-cases (is_recurring s.kind)) [
        | inr once ↦
            let made : ok (record done { enabled = false }, true) ≡ ok (t, finished) =
              sym (rw (pending, once) refl) ∙ h in
            (
              ground (arith, pending),
              subst (λ x. Ended scheduled_for completed_at x)
                  (ap (λ p. p.0)
                    (ok-injective (record done { enabled = false }, true) (t, finished) made))
                  (record { released = refl; ran = refl; over = inl refl }),
            )
        | inl often ↦ elim (Result-cases (parse_cron s.expression)) [
          | inr (e, refused) ↦ absurd (ok-ne-err e (sym h ∙ rw (pending, often, refused) refl))
          | inl (cron, parsed) ↦ elim (Result-cases (next cron calendar completed_at)) [
            | inr (e, refused) ↦
                absurd (ok-ne-err e (sym h ∙ rw (pending, often, parsed, refused) refl))
            | inl (at, found) ↦
                let made : ok (record done { next_run = at }, false) ≡ ok (t, finished) =
                  sym (rw (pending, often, parsed, found) refl) ∙ h in
                (
                  ground (arith, pending),
                  subst (λ x. Ended scheduled_for completed_at x)
                      (ap (λ p. p.0)
                        (ok-injective (record done { next_run = at }, false) (t, finished) made))
                      (record {
                        released = refl;
                        ran = refl;
                        over = inr (next-later cron calendar completed_at at found);
                      }),
                )
          ]
        ]
      ]
    ]
  where
    done : Schedule
    done = record s { last_run = scheduled_for; pending_run = 0 }

    ok-ne-err : {a : Schedule × Bool} (e : Error) → ok a ≡ err e → ⊥
    ok-ne-err e k = absurd (ground (arith, k))

-- The row after a completion that wrote: gone, or ended.
abbrev pub IsOver : ℕ → ℕ → Option Schedule → Type 0
IsOver scheduled_for completed_at row =
    (row ≡ none) ⊎ ((s : Schedule) × ((row ≡ some s) × Ended scheduled_for completed_at s))

removed-IsOver :
    (scheduled_for completed_at : ℕ) (table : Table) (call : Call) (id : String)
    → IsOver scheduled_for completed_at (get table id)
    → IsOver scheduled_for completed_at (get (remove_finished table call id).1 id)
removed-IsOver scheduled_for completed_at table call id over = elim (delete-cases table call id) [
  | inl same ↦
      subst (λ t. IsOver scheduled_for completed_at (get t id))
        (sym (remove_finished-table table call id ∙ same)) over
  | inr less ↦ inl (
      ap (λ t. get t id) (remove_finished-table table call id ∙ less)
      ∙ (get-remove table id id ∙ rw (eq_refl id) refl))
]

-- `Complete`, however it ends: either it fails and the table is as it was, or the row's run was the
-- one that it completes, and the row is then gone, or is released with that run as its last one and
-- switched off or due only after the completion. So no failure of the later deletion runs it twice.
pub complete-IsOver :
    (calendar : Calendar) (table : Table) (call again : Call) (id : String)
    (scheduled_for completed_at : ℕ)
    → ((e : Error) × (complete calendar table call again id scheduled_for completed_at
          ≡ (err e, table)))
      ⊎ ((s : Schedule) × ((get table id ≡ some s)
            × ((s.pending_run ≡ scheduled_for)
                × IsOver scheduled_for completed_at
                    (get (complete calendar table call again id scheduled_for completed_at).1 id))))
unfolding complete completion
complete-IsOver calendar table call again id scheduled_for completed_at =
    elim (update_schedule-Wrote table call id (completed calendar scheduled_for completed_at)) [
      | inl (e, refused) ↦
          inl (e, ap (λ r. completion (record again { ctx = call.ctx }) id r) refused)
      | inr w ↦
          let (pending, ended) =
            completed-Ended calendar scheduled_for completed_at w.before w.after w.answer w.made in
          let row : Schedule = record w.after { id = id; owner = w.before.owner } in
          let kept : IsOver scheduled_for completed_at (get (put table id row) id) = inr (
            row,
            (
              get-put table id row id ∙ rw (eq_refl id) refl,
              record { released = ended.released; ran = ended.ran; over = ended.over },
            ),
          ) in
          inr (
            w.before,
            (
              w.found,
              (
                pending,
                subst
                    (λ r.
                      IsOver scheduled_for completed_at
                        (get (completion (record again { ctx = call.ctx }) id r).1 id))
                    (sym w.written)
                    (elim (Bool-cases w.answer) [
                      | inl finished ↦ rw finished (
                          removed-IsOver scheduled_for completed_at (put table id row)
                            (record again { ctx = call.ctx }) id kept)
                      | inr more ↦ rw more kept
                    ]),
              ),
            ),
          )
    ]

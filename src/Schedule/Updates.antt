-- ===== src/Schedule/Updates.antt =====
-- What one transaction on a row does: internal/storage/sqlite/schedules.go `Update`.
use eggy.Prelude.{◌≡◌, refl, String, some, str_eq, Bool-cases, inl, inr, Option-cases, ◌⊎◌}
use eggy.Prelude.Dict.{get, put}
use eggy.Prelude.Result.{Result, ok, err, Error, Result-cases, other, schedule_not_found}
use eggy.Text.{is_blank}
use eggy.Store.{Call}
use eggy.Schedule.{Schedule, Table, acting_on, get_schedule, changed, update_schedule}

module _ {A : Type 0} where
  -- A row was there, the mutation made another of it, and that was written.
  pub record Wrote (table : Table) (id : String) (mutate : Schedule → Result (Schedule × A))
      (r : Result A × Table) : Type 0 where
    pub before : Schedule
    pub after : Schedule
    pub answer : A
    pub found : get table id ≡ some before
    pub made : mutate before ≡ ok (after, answer)
    pub written : r ≡ (ok answer, put table id (record after { id = id; owner = before.owner }))

  -- Either an error leaves the table as it was, or the row was there and is written.
  pub update_schedule-Wrote :
      (table : Table) (call : Call) (id : String) (mutate : Schedule → Result (Schedule × A))
      → ((e : Error) × (update_schedule table call id mutate ≡ (err e, table)))
        ⊎ Wrote table id mutate (update_schedule table call id mutate)
  unfolding update_schedule get_schedule changed
  update_schedule-Wrote table call id mutate = elim (Result-cases (acting_on call id)) [
    | inr (e, refused) ↦ inl (e, rw (refused, update_schedule) refl)
    | inl (account, acting) ↦ elim (Option-cases (get table id)) [
      | inl missing ↦
          inl (schedule_not_found, rw (acting, update_schedule, get_schedule, missing) refl)
      | inr (s, found) ↦ elim (Bool-cases (str_eq s.owner account)) [
        | inr another ↦
            inl
              (schedule_not_found, rw (acting, update_schedule, get_schedule, found, another) refl)
        | inl owned ↦ elim (Result-cases (mutate s)) [
          | inr (e, refused) ↦
              inl
                (e, rw (acting, update_schedule, get_schedule, found, owned, changed, refused) refl)
          | inl ((s', a), made) ↦ elim (Bool-cases (is_blank s'.instruction)) [
            | inl blank ↦ inl (
              other "instruction is required",
              rw (acting, update_schedule, get_schedule, found, owned, changed, made, blank) refl,
            )
            | inr worded ↦ elim (Option-cases call.write_fault) [
              | inr (e, fault) ↦ inl (
                e,
                rw
                    (
                      acting, update_schedule, get_schedule, found, owned, changed, made, worded,
                      fault,
                    )
                    refl,
              )
              | inl clear ↦ inr (record {
                before = s;
                after = s';
                answer = a;
                found = found;
                made = made;
                written =
                    rw
                      (
                        acting, update_schedule, get_schedule, found, owned, changed, made, worded,
                        clear,
                      )
                      refl;
              })
            ]
          ]
        ]
      ]
    ]
  ]

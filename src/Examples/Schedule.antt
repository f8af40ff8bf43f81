-- ===== src/Examples/Schedule.antt =====
-- The theorems on scheduled jobs, on a table with two of them.
use mathlib.Core.Path.{subst}
use eggy.Prelude.{
  Bool-cases, str_eq, eq_iff, ap, sym, ◌∙◌, String, ◌≡◌, ◌≢◌, ◌<◌, ◌+◌, ◌/◌, ◌⊎◌, refl, true, false,
  none, some, inl, inr, List, [], ◌∷◌, All, arith,
}
use eggy.Prelude.Dict.{get}
use eggy.Prelude.Result.{Error, ok, err}
use eggy.Text.{codes}
use eggy.Store.{Call}
use eggy.Schedule.{Schedule, Table, exact, agent}
use eggy.Schedule.Cron.{Cron, CronField, parse_cron_field, Calendar, next, next_minute}
use eggy.Schedule.Occurrence.{Searched, next-Searched}
use eggy.Schedule.Scheduler.{due, complete}
use eggy.Schedule.Claims.{IsTable}
use eggy.Schedule.Once.{due_twice_disjoint}
use eggy.Schedule.Ends.{IsOver, complete-IsOver}
use eggy.Examples.{at}

abbrev job : Schedule
job = record {
  id = "tea";
  owner = "amy";
  kind = exact;
  execution = agent;
  instruction = "Make tea";
  expression = [];
  next_run = 60;
  last_run = 0;
  pending_run = 0;
  enabled = true;
}

abbrev table : Table
table = ("tea", job) ∷ []

abbrev listing : Table → List Schedule
listing rows = job ∷ []

abbrev call_for : String → Call
call_for id = at 90

starts : 0 < 60
starts = omega arith

table-IsTable : IsTable table
unfolding get
table-IsTable id s found = elim (Bool-cases (str_eq "tea" id)) [
  | inl same ↦
      let here : get table id ≡ some job = rw same refl in
      let is : job ≡ s = ap (λ r. elim r [ some x ↦ x | none ↦ job ]) (sym here ∙ found) in
      (ap (λ x. x.id) (sym is) ∙ (eq_iff "tea" id).0 same, subst (λ x. 0 < x.next_run) is starts)
  | inr other ↦
      let gone : get table id ≡ none = rw other refl in absurd (ground (arith, sym gone ∙ found))
]

due_twice_disjoint_example :
    All
      (λ c.
        All
          (λ d. d.id ≢ c.id)
          (due listing none call_for 150 (due listing none call_for 90 table).1).0.due)
      (due listing none call_for 90 table).0.due
due_twice_disjoint_example =
    due_twice_disjoint listing none none call_for call_for 90 150 table table-IsTable

abbrev claimed_table : Table
claimed_table = ("tea", record job { pending_run = 60 }) ∷ []

abbrev minutes : Calendar
minutes = record {
  minute = λ t. t / 60;
  hour = λ t. 0;
  day = λ t. 1;
  month = λ t. 1;
  weekday = λ t. 4;
  five_years = λ t. t + 600;
}

complete-IsOver_example :
    ((e : Error) × (complete minutes claimed_table (at 95) (at 96) "tea" 60 95
        ≡ (err e, claimed_table)))
    ⊎ ((s : Schedule) × ((get claimed_table "tea" ≡ some s)
          × ((s.pending_run ≡ 60)
              × IsOver 60 95
                  (get (complete minutes claimed_table (at 95) (at 96) "tea" 60 95).1 "tea"))))
complete-IsOver_example = complete-IsOver minutes claimed_table (at 95) (at 96) "tea" 60 95

abbrev any : CronField
any = record { allowed = 0 ∷ 1 ∷ 4 ∷ []; wildcard = true }

abbrev every_three : Cron
every_three = record {
  minute = record { allowed = 3 ∷ []; wildcard = false };
  hour = any;
  day = any;
  month = any;
  weekday = any;
}

next-Searched_example :
    Searched every_three minutes
      (70 / 60 + 1)
      (minutes.five_years (next_minute 70))
      (next every_three minutes 70)
    × (70 < next_minute 70)
next-Searched_example = next-Searched every_three minutes 70

abbrev two_minutes : CronField
two_minutes = record { allowed = 1 ∷ 3 ∷ []; wildcard = false }

two_parsed : parse_cron_field (codes "1-4/2") 0 59 false ≡ ok two_minutes
unfolding parse_cron_field
two_parsed = refl

-- ===== src/Schedule/Claims.antt =====
-- `Due` of internal/schedule/local/scheduler.go: which jobs it claims, and that a claim is held.
use mathlib.Core.Path.{subst}
use eggy.Prelude.{
  ℕ, ◌≡◌, ◌≢◌, ◌<◌, refl, ◌∙◌, ap, sym, String, true, List, [], none, some, str_eq, eq_iff, eq_refl,
  if◌then◌else◌, arith, Bool-cases, inl, inr, ◌⊎◌, All,
}
use eggy.Prelude.Dict.{get, put, get-put}
use eggy.Prelude.Result.{Result, ok, err, Error, ok-injective, not_due}
use eggy.Store.{Call}
use eggy.Schedule.{Schedule, Table}
use eggy.Schedule.Updates.{Wrote, update_schedule-Wrote}
use eggy.Schedule.Scheduler.{as_owner, is_ready, claim, claim_one}

-- Every row stands under its own identifier, and has a time to run at.
abbrev pub IsTable : Table → Type 0
IsTable table =
    (id : String) (s : Schedule) → get table id ≡ some s → (s.id ≡ id) × (0 < s.next_run)

abbrev pub claimed : Schedule → Schedule
claimed s = record s { pending_run = s.next_run }

pub some-injective : (a b : Schedule) → some a ≡ some b → a ≡ b
some-injective a b e = ap (λ r. elim r [ some x ↦ x | none ↦ a ]) e

module _ (now : ℕ) where
  -- The job is one of the table's that was ready, with its run now pending.
  pub record IsClaim (table : Table) (c : Schedule) : Type 0 where
    pub row : Schedule
    pub found : get table c.id ≡ some row
    pub ready : is_ready now row ≡ true
    pub is : c ≡ claimed row

  pub record Taken (table : Table) (r : Result Schedule × Table) : Type 0 where
    pub row : Schedule
    pub found : get table row.id ≡ some row
    pub ready : is_ready now row ≡ true
    pub done : r.0 ≡ ok (claimed row)
    pub written : r.1 ≡ put table row.id (claimed row)

  made-claimed :
      (row after answer : Schedule)
      → claim now row ≡ ok (after, answer)
      → (is_ready now row ≡ true) × ((claimed row ≡ after) × (claimed row ≡ answer))
  unfolding claim
  made-claimed row after answer made = elim (Bool-cases (is_ready now row)) [
    | inr early ↦ absurd (ground (arith, early, made))
    | inl ready ↦
        let same : ok (claimed row, claimed row) ≡ ok (after, answer) =
          sym (rw ready refl) ∙ made in
        let pair = ok-injective (claimed row, claimed row) (after, answer) same in
        (ready, (ap (λ p. p.0) pair, ap (λ p. p.1) pair))
  ]

  pub Wrote-Taken :
      (table : Table) (id : String) (r : Result Schedule × Table)
      → IsTable table
      → Wrote table id (claim now) r
      → Taken table r
  Wrote-Taken table id r good w =
      let (ready, (after, answer)) = made-claimed w.before w.after w.answer w.made in
      let key = (good id w.before w.found).0 in
      record {
        row = w.before;
        found = subst (λ k. get table k ≡ some w.before) (sym key) w.found;
        ready = ready;
        done = ap (λ x. x.0) w.written ∙ ap (λ a. ok a) (sym answer);
        written =
            ap (λ x. x.1) w.written
            ∙ (ap (λ a. put table id (record a { id = id; owner = w.before.owner })) (sym after)
                ∙ ap (λ k. put table k (record (claimed w.before) { id = k })) (sym key));
      }

  pub claim_one-Taken :
      (calls : String → Call) (table : Table) (s : Schedule)
      → IsTable table
      → ((e : Error) × (claim_one calls now table s ≡ (err e, table)))
        ⊎ Taken table (claim_one calls now table s)
  unfolding claim_one
  claim_one-Taken calls table s good = elim (Bool-cases (is_ready now s)) [
    | inr early ↦ inl (not_due, rw early refl)
    | inl listed ↦ elim (update_schedule-Wrote table (as_owner (calls s.id) s) s.id (claim now)) [
      | inl (e, refused) ↦ inl (e, rw listed refused)
      | inr w ↦ inr (rw listed (Wrote-Taken table s.id _ good w))
    ]
  ]

  -- What a round, or the whole loop, has done to the table and added to the list.
  pub record Claims (table : Table) (due : List Schedule) (after : Table) : Type 0 where
    pub rows : IsTable after
    -- a row whose run is pending stays, and is not listed
    pub kept :
        (id : String) (s : Schedule)
        → get table id ≡ some s
        → s.pending_run ≢ 0
        → (get after id ≡ some s) × All (λ c. c.id ≢ id) due
    -- every job of the list was ready, and its row now is the one of the list
    pub each : All (λ c. IsClaim table c × (get after c.id ≡ some c)) due

  pub Claims-nil : (table : Table) → IsTable table → Claims table [] table
  Claims-nil table good = record { rows = good; kept = λ id s h p. (h, tt); each = tt }

  pub Taken-get :
      (table : Table) (r : Result Schedule × Table) (t : Taken table r) (j : String)
      → get (r.1) j ≡ (if str_eq t.row.id j then some (claimed t.row) else get table j)
  Taken-get table r t j = ap (λ m. get m j) t.written ∙ get-put table t.row.id (claimed t.row) j

  pub Taken-other :
      (table : Table) (r : Result Schedule × Table) (t : Taken table r) (j : String)
      → t.row.id ≢ j
      → get (r.1) j ≡ get table j
  Taken-other table r t j other = Taken-get table r t j ∙ ground (arith, eq_iff t.row.id j, other)

  pub Taken-same :
      (table : Table) (r : Result Schedule × Table) (t : Taken table r)
      → get (r.1) t.row.id ≡ some (claimed t.row)
  Taken-same table r t = Taken-get table r t t.row.id ∙ rw (eq_refl t.row.id) refl

  pub Taken-IsTable :
      (table : Table) (r : Result Schedule × Table) → IsTable table → Taken table r → IsTable (r.1)
  Taken-IsTable table r good t id s found = elim (Bool-cases (str_eq t.row.id id)) [
    | inl same ↦
        let is : claimed t.row ≡ s =
          some-injective (claimed t.row) s (sym (Taken-get table r t id ∙ rw same refl) ∙ found) in
        let key = (eq_iff t.row.id id).0 same in
        (
          ap (λ x. x.id) (sym is) ∙ key,
          subst (λ x. 0 < x.next_run) is (good t.row.id t.row t.found).1,
        )
    | inr other ↦ good id s (sym (Taken-get table r t id ∙ rw other refl) ∙ found)
  ]

  pub pending-unready : (s : Schedule) → s.pending_run ≢ 0 → is_ready now s ≡ true → ⊥
  pending-unready s pending ready = absurd (pending (ground (arith, ready)))

  -- A row whose run is pending is not the one that was taken.
  pub Taken-ne :
      (table : Table) (r : Result Schedule × Table) (t : Taken table r) (id : String) (s : Schedule)
      → get table id ≡ some s
      → s.pending_run ≢ 0
      → t.row.id ≢ id
  Taken-ne table r t id s found pending same =
      let is = some-injective s t.row (sym found ∙ (ap (λ k. get table k) (sym same) ∙ t.found)) in
      pending-unready s pending (ap (λ x. is_ready now x) is ∙ t.ready)

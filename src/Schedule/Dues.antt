-- ===== src/Schedule/Dues.antt =====
-- The loop of `Due` of internal/schedule/local/scheduler.go, over its rounds.
use mathlib.Core.Path.{subst}
use eggy.Prelude.{
  ℕ, ◌≡◌, refl, ◌∙◌, ap, sym, String, List, [], ◌∷◌, Option, none, some, str_eq, arith, Bool-cases,
  inl, inr, All,
}
use eggy.Prelude.Dict.{get}
use eggy.Prelude.Result.{Result, err, Error}
use eggy.Store.{Call}
use eggy.Schedule.{Schedule, Table}
use eggy.Schedule.Scheduler.{is_ready, is_gone, Claimed, with_claim, claim_one, claim_each, due}
use eggy.Schedule.Claims.{
  IsTable, claimed, some-injective, IsClaim, Taken, Claims, Claims-nil, Taken-get, Taken-other,
  Taken-same, Taken-IsTable, Taken-ne, pending-unready, claim_one-Taken,
}

module _ (now : ℕ) where
  -- A claim on the table that a round left is one on the table before it.
  Taken-IsClaim :
      (table : Table) (r : Result Schedule × Table)
      → IsTable table
      → (t : Taken now table r) → (c : Schedule) → IsClaim now (r.1) c
      → IsClaim now table c
  Taken-IsClaim table r good t c k = elim (Bool-cases (str_eq t.row.id c.id)) [
    | inr other ↦ record {
      row = k.row;
      found = sym (Taken-get now table r t c.id ∙ rw other refl) ∙ k.found;
      ready = k.ready;
      is = k.is;
    }
    | inl same ↦
        let is =
          some-injective (claimed t.row) k.row
            (sym (Taken-get now table r t c.id ∙ rw same refl) ∙ k.found) in
        let starts = (good t.row.id t.row t.found).1 in
        absurd (
          pending-unready now (claimed t.row) (λ z. absurd (omega (arith, starts, z)))
            (ap (λ x. is_ready now x) is ∙ k.ready))
  ]

  with_claim-err : (e : Error) (rest : Claimed) → (with_claim (err e) rest).due ≡ rest.due
  unfolding with_claim
  with_claim-err e rest = elim (Bool-cases (is_gone e)) [
    | inl gone ↦ rw gone refl
    | inr told ↦ rw told refl
  ]

  -- The loop from a state that the first round left, and what its list then says of the start.
  Taken-Claims :
      (table : Table) (r : Result Schedule × Table) (due : List Schedule) (after : Table)
      → IsTable table
      → (t : Taken now table r) → Claims now (r.1) due after
      → Claims now table (claimed t.row ∷ due) after
  Taken-Claims table r due after good t rest = record {
    rows = rest.rows;
    kept = λ id s found pending.
        (let other = Taken-ne now table r t id s found pending in
          let (stays, unlisted) =
            rest.kept id s (Taken-other now table r t id other ∙ found) pending in
          (stays, (other, unlisted)));
    each = (
      (record { row = t.row; found = t.found; ready = t.ready; is = refl }, fresh),
      earlier due rest.each,
    );
  }
    where
      fresh : get after t.row.id ≡ some (claimed t.row)
      fresh =
          let starts = (good t.row.id t.row t.found).1 in
          (rest.kept t.row.id (claimed t.row) (Taken-same now table r t)
            (λ z. absurd (omega (arith, starts, z)))).0

      earlier :
          (l : List Schedule)
          → All (λ c. IsClaim now (r.1) c × (get after c.id ≡ some c)) l
          → All (λ c. IsClaim now table c × (get after c.id ≡ some c)) l
      earlier [] h = tt
      earlier (c ∷ l) h = ((Taken-IsClaim table r good t c h.0.0, h.0.1), earlier l h.1)

  claim_each-Claims :
      (calls : String → Call) (table : Table) (listing : List Schedule)
      → IsTable table
      → Claims now table
          (claim_each calls now table listing).0.due
          (claim_each calls now table listing).1
  unfolding claim_each
  claim_each-Claims calls table [] good = Claims-nil now table good
  claim_each-Claims calls table (s ∷ listing) good = elim (claim_one-Taken now calls table s good) [
    | inl (e, refused) ↦
        let rest = claim_each calls now table listing in
        rw refused (
          subst (λ d. Claims now table d (rest.1)) (sym (with_claim-err e (rest.0)))
            (claim_each-Claims calls table listing good))
    | inr t ↦
        let first = claim_one calls now table s in
        let rest = claim_each calls now (first.1) listing in
        subst (λ q. Claims now table (with_claim q (rest.0)).due (rest.1)) (sym t.done)
          (unfold with_claim in
            Taken-Claims table first rest.0.due (rest.1) good t
              (claim_each-Claims calls (first.1) listing (Taken-IsTable now table first good t)))
  ]

  pub due-Claims :
      (list_all : Table → List Schedule) (fault : Option Error) (calls : String → Call)
      (table : Table)
      → IsTable table
      → Claims now table
          (due list_all fault calls now table).0.due
          (due list_all fault calls now table).1
  unfolding due
  due-Claims list_all none calls table good = claim_each-Claims calls table (list_all table) good
  due-Claims list_all (some e) calls table good = Claims-nil now table good

  -- Over a table whose rows stand under their identifiers and have a time to run at, and whatever the
  -- listing and the database's errors: each job that `Due` returns was enabled, unclaimed and due in
  -- the table, it has its run pending, and it is stored so.
  pub due-IsClaim :
      (list_all : Table → List Schedule) (fault : Option Error) (calls : String → Call)
      (table : Table)
      → IsTable table
      → All
          (λ c. IsClaim now table c × (get (due list_all fault calls now table).1 c.id ≡ some c))
          (due list_all fault calls now table).0.due
  due-IsClaim list_all fault calls table good = (due-Claims list_all fault calls table good).each

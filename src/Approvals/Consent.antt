-- ===== src/Approvals/Consent.antt =====
-- Nothing is approved but by the owner's own tap, in time.
use mathlib.Core.Path.{subst}
use eggy.Prelude.{
  ℕ, String, true, ◌≡◌, ◌≢◌, refl, ◌<◌, ◌⊎◌, inl, inr, Option, some, List, [], ◌∷◌, arith, eq_iff,
  str_eq, Option-cases, Bool-cases,
}
use eggy.Prelude.Dict.{get, get-put}
use eggy.Prelude.Result.{Error, Result, ok, Result-cases}
use eggy.Approvals.{Status, Approval, pending, approved, rejected, expired, invalidated, used}
use eggy.Approvals.Service.{on_approval, decided, withdrawn, authorized}
use eggy.Approvals.Lifecycle.{Op, decide, mutation, IsFresh, edge}
use eggy.Approvals.Trace.{approval_of, Event, step, run, AllFresh, step-Later, run-Kept, Settled}
use eggy.Store.{State, Db, Call, load_state, acting_account, update}
use eggy.Store.Laws.{Committed, update_error_unchanged, update_ok, Committed-state}

-- A mutation through `on_approval` leaves a record alone or applies its change to it.
on_approval-cases :
    (s t : State) (j id : String) (change : Approval → Result (Approval × Option Error))
    (r : Option Error) (a b : Approval)
    → on_approval s j change ≡ ok (t, r)
    → get s.approvals id ≡ some a
    → get t.approvals id ≡ some b
    → (b ≡ a) ⊎ ((j ≡ id) × (change a ≡ ok (b, r)))
unfolding on_approval
on_approval-cases s t j id change r a b h found now = elim (Option-cases (get s.approvals j)) [
  | inl gone ↦ absurd (ground arith)
  | inr (x, there) ↦ elim (Result-cases (change x)) [
    | inr (e, p) ↦ absurd (ground arith)
    | inl ((y, z), p) ↦ ground (arith, get-put s.approvals j y id, eq_iff j id)
  ]
]

-- The tap that approves: a `Decide` with `approved` true for this approval, before its expiry.
pub record IsTap (id : String) (expires : ℕ) (op : Op) (call : Call) : Type 0 where
  pub op_is : op ≡ decide id true
  pub in_time : call.clock 0 < expires

mutation-approves :
    (op : Op) (call : Call) (s t : State) (r : Option Error) (id : String) (a b : Approval)
    → IsFresh op s
    → mutation op call s ≡ ok (t, r)
    → get s.approvals id ≡ some a
    → get t.approvals id ≡ some b
    → a.status ≡ pending
    → b.status ≡ approved
    → IsTap id a.expires_at op call
unfolding mutation
mutation-approves (Op.request x) call s t r id a b fresh h found now p q =
    absurd (ground (arith, get-put s.approvals x.id x id, eq_iff x.id id))
mutation-approves (Op.set_mode mode) call s t r id a b fresh h found now p q = absurd (ground arith)
mutation-approves (Op.decide j yes_tapped) call s t r id a b fresh h found now p q =
    unfold decided in
    ground (arith, on_approval-cases s t j id (decided call yes_tapped) r a b h found now)
mutation-approves (Op.invalidate j) call s t r id a b fresh h found now p q =
    unfold withdrawn in
    absurd (ground (arith, on_approval-cases s t j id (withdrawn call) r a b h found now))
mutation-approves (Op.authorize j claim) call s t r id a b fresh h found now p q =
    unfold authorized in
    absurd (ground (arith, on_approval-cases s t j id (authorized call claim) r a b h found now))

-- The event is that tap, made for the account.
pub record IsConsent (account id : String) (expires : ℕ) (e : Event) : Type 0 where
  pub by : acting_account e.call ≡ ok account
  pub tap : IsTap id expires e.op e.call

step-approves :
    (db : Db) (e : Event) (account id : String) (a b : Approval)
    → ((account : String)
        → acting_account e.call ≡ ok account
        → IsFresh e.op (load_state db account))
    → approval_of db account id ≡ some a
    → approval_of (step db e) account id ≡ some b
    → a.status ≡ pending
    → b.status ≡ approved
    → IsConsent account id a.expires_at e
unfolding step approval_of
step-approves db e account id a b fresh found now p q =
    elim (Result-cases (update db e.call e.version (mutation e.op e.call)).0) [
      | inr (x, failed) ↦
          absurd (
            ground
              (arith, update_error_unchanged db e.call e.version (mutation e.op e.call) failed))
      | inl ((s, r), done) ↦ written (update_ok db e.call e.version (mutation e.op e.call) done) now
    ]
  where
    written :
        {s : State} {r : Option Error} {db' : Db}
        → Committed db e.call e.version (mutation e.op e.call) s r db'
        → get (load_state db' account).approvals id ≡ some b
        → IsConsent account id a.expires_at e
    written {r = r} {db' = db'} c now = elim (Bool-cases (str_eq c.account account)) [
      | inr other ↦ absurd (ground (arith, Committed-state c account))
      | inl same ↦
          let e_same : c.account ≡ account = (eq_iff c.account account).0 same in
          record {
            by = rw (← e_same) c.by;
            tap =
                mutation-approves e.op e.call (load_state db c.account) c.changed r id a b
                  (fresh c.account c.by) c.mutated (rw e_same found)
                  (ground (arith, Committed-state c account)) p q;
          }
    ]

-- Some event of the run is one.
abbrev pub Any : (Event → Type 0) → List Event → Type 0
Any P [] = ⊥
Any P (e ∷ es) = P e ⊎ Any P es

-- A stored approval is pending, approved, or settled without being used.
status-cases :
    (s t : Status)
    → s ≡ pending
    → edge s t ≡ true
    → (t ≡ pending) ⊎ (t ≡ approved) ⊎ (Settled t × (t ≢ approved) × (t ≢ used))
status-cases s pending p q = inl refl
status-cases s approved p q = inr (inl refl)
status-cases s rejected p q = inr (inr (tt, (λ h. cc), (λ h. cc)))
status-cases s expired p q = inr (inr (tt, (λ h. cc), (λ h. cc)))
status-cases s invalidated p q = inr (inr (tt, (λ h. cc), (λ h. cc)))
status-cases s used p q = absurd (ground arith)

-- A pending approval is approved or used after some writes, whose fresh identifiers were free when
-- drawn, only if one of them was the owner's tap on it: a `Decide` by its account with `approved`
-- true, before it expired.
pub approved_by-IsConsent :
    (db : Db) (es : List Event) (account id : String) (a b : Approval)
    → AllFresh db es
    → approval_of db account id ≡ some a
    → a.status ≡ pending
    → approval_of (run db es) account id ≡ some b
    → (b.status ≡ approved) ⊎ (b.status ≡ used)
    → Any (IsConsent account id a.expires_at) es
unfolding run
approved_by-IsConsent db [] account id a b fresh found p now q = absurd (ground arith)
approved_by-IsConsent db (e ∷ es) account id a b fresh found p now q =
    let (m, mid, later) = step-Later db e account id a fresh.0 found in
    elim (status-cases a.status m.status p later.moved) [
      | inl still ↦ inr (
          subst (λ x. Any (IsConsent account id x) es) later.expires_at
            (approved_by-IsConsent (step db e) es account id m b fresh.1 mid still now q))
      | inr (inl granted) ↦ inl (step-approves db e account id a m fresh.0 found mid p granted)
      | inr (inr (settled, n, u)) ↦
          let (z, last, kept) = run-Kept (step db e) es account id m fresh.1 mid in
          absurd (ground (arith, kept.settled settled))
    ]

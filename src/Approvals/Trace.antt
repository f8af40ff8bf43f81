-- ===== src/Approvals/Trace.antt =====
-- Runs of approval operations: the writes of any calls, in any order and at any versions, so that
-- every interleaving of concurrent operations is among them.
use eggy.Prelude.{
  ℕ, String, ◌≡◌, inl, inr, Option, some, List, [], ◌∷◌, arith, eq_iff, str_eq, Bool-cases,
}
use eggy.Prelude.Dict.{get}
use eggy.Prelude.Result.{Error, ok, Result-cases}
use eggy.Approvals.{Status, Approval, pending, approved}
use eggy.Approvals.Service.{commit}
use eggy.Approvals.Lifecycle.{Later, Later-refl, Op, mutation, IsFresh, mutation-Evolves}
use eggy.Store.{State, Db, Call, load_state, acting_account, update}
use eggy.Store.Laws.{Committed, update_error_unchanged, update_ok, Committed-state}

unfoldable pub approval_of : Db → String → String → Option Approval
approval_of db account id = get (load_state db account).approvals id

-- The statuses that nothing leaves.
abbrev pub Settled : Status → Type 0
Settled pending = ⊥
Settled approved = ⊥
Settled _ = Unit

-- One write that reaches the store.
pub record Event : Type 0 where
  pub op : Op
  pub call : Call
  pub version : ℕ

unfoldable pub step : Db → Event → Db
unfolding commit
step db e = (commit db e.call e.version (mutation e.op e.call)).1

unfoldable pub run : Db → List Event → Db
run db [] = db
run db (e ∷ es) = run (step db e) es

-- Every identifier drawn on the way was free for the account that drew it.
abbrev pub AllFresh : Db → List Event → Type 0
AllFresh db [] = Unit
AllFresh db (e ∷ es) =
    ((account : String) → acting_account e.call ≡ ok account → IsFresh e.op (load_state db account))
    × AllFresh (step db e) es

pub step-Later :
    (db : Db) (e : Event) (account id : String) (a : Approval)
    → ((account : String)
        → acting_account e.call ≡ ok account
        → IsFresh e.op (load_state db account))
    → approval_of db account id ≡ some a
    → (b : Approval) × (approval_of (step db e) account id ≡ some b) × Later a b
unfolding step approval_of
step-Later db e account id a fresh found =
    elim (Result-cases (update db e.call e.version (mutation e.op e.call)).0) [
      | inr (x, p) ↦ (
        a,
        rw (update_error_unchanged db e.call e.version (mutation e.op e.call) p) found,
        Later-refl a,
      )
      | inl ((s, r), p) ↦ written (update_ok db e.call e.version (mutation e.op e.call) p)
    ]
  where
    written :
        {s : State} {r : Option Error} {db' : Db}
        → Committed db e.call e.version (mutation e.op e.call) s r db'
        → (b : Approval) × (get (load_state db' account).approvals id ≡ some b) × Later a b
    written {r = r} {db' = db'} c = elim (Bool-cases (str_eq c.account account)) [
      | inr other ↦ (a, rw (Committed-state c account, other) found, Later-refl a)
      | inl same ↦
          let (b, got, later) =
            mutation-Evolves e.op e.call (load_state db c.account) c.changed r id
              (fresh c.account c.by) c.mutated a (rw ((eq_iff c.account account).0 same) found) in
          (b, rw (Committed-state c account, same) got, later)
    ]

-- Along a run an approval stays what it was about; a settled one stays settled.
pub record Kept (a b : Approval) : Type 0 where
  pub settled : Settled a.status → b.status ≡ a.status
  pub action : b.action ≡ a.action
  pub payload : b.payload ≡ a.payload
  pub payload_digest : b.payload_digest ≡ a.payload_digest
  pub expires_at : b.expires_at ≡ a.expires_at
  pub account_id : b.account_id ≡ a.account_id
  pub integration_generation : b.integration_generation ≡ a.integration_generation

Later-Kept : (a b c : Approval) → Later a b → Kept b c → Kept a c
Later-Kept a b c h k = ground arith

pub run-Kept :
    (db : Db) (es : List Event) (account id : String) (a : Approval)
    → AllFresh db es
    → approval_of db account id ≡ some a
    → (b : Approval) × (approval_of (run db es) account id ≡ some b) × Kept a b
unfolding run
run-Kept db [] account id a fresh found = (a, found, ground arith)
run-Kept db (e ∷ es) account id a fresh found =
    let (b, there, later) = step-Later db e account id a fresh.0 found in
    let (c, last, kept) = run-Kept (step db e) es account id b fresh.1 there in
    (c, last, Later-Kept a b c later kept)

-- What the owner was asked about.
pub record Same (a b : Approval) : Type 0 where
  pub action : b.action ≡ a.action
  pub payload : b.payload ≡ a.payload
  pub payload_digest : b.payload_digest ≡ a.payload_digest
  pub expires_at : b.expires_at ≡ a.expires_at
  pub account_id : b.account_id ≡ a.account_id
  pub integration_generation : b.integration_generation ≡ a.integration_generation

-- Whatever writes follow, whose fresh identifiers were free when drawn, a stored approval is still
-- stored, with its action, payload, digest, expiry, account and generation unchanged.
pub run-Same :
    (db : Db) (es : List Event) (account id : String) (a : Approval)
    → AllFresh db es
    → approval_of db account id ≡ some a
    → (b : Approval) × (approval_of (run db es) account id ≡ some b) × Same a b
run-Same db es account id a fresh found =
    let (b, last, kept) = run-Kept db es account id a fresh found in
    (
      b,
      last,
      record {
        action = kept.action;
        payload = kept.payload;
        payload_digest = kept.payload_digest;
        expires_at = kept.expires_at;
        account_id = kept.account_id;
        integration_generation = kept.integration_generation;
      },
    )

-- Whatever writes follow, whose fresh identifiers were free when drawn, a stored approval that was
-- rejected, expired, invalidated or used keeps that status.
pub run-Settled :
    (db : Db) (es : List Event) (account id : String) (a : Approval)
    → AllFresh db es
    → approval_of db account id ≡ some a
    → Settled a.status
    → (b : Approval) × (approval_of (run db es) account id ≡ some b) × (b.status ≡ a.status)
run-Settled db es account id a fresh found settled =
    let (b, last, kept) = run-Kept db es account id a fresh found in (b, last, kept.settled settled)

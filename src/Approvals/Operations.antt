-- ===== src/Approvals/Operations.antt =====
-- The operations of internal/core/services/approval_service.go: load, then update at the version read.
use eggy.Prelude.{String, Bool, List, [], ◌∷◌, leb, if◌then◌else◌}
use eggy.Prelude.Dict.{Dict}
use eggy.Prelude.Result.{Result, ok, err, ◌>>=◌, other}
use eggy.Context.{account_of}
use eggy.Approvals.{Approval}
use eggy.Approvals.Service.{
  ApprovalService, Codec, canonical_payload, commit, Mutation, Claim, current_generation,
  request_mutation, new_approval, decide_mutation, invalidate_mutation, authorize_mutation,
  set_mode_mutation, is_pending,
}
use eggy.Store.{ApprovalMode, auto, is_valid, Db, Call, load}

-- What is computed before the load may fail; then the state is read for its version alone.
unfoldable pub after_load :
    {A : Type 0} → Db → Call → Result A → (A → Mutation) → Result (Unit {0}) × Db
unfolding load commit
after_load db call (err e) mutate = (err e, db)
after_load db call (ok a) mutate = elim (load db call) [
  | err e ↦ (err e, db)
  | ok state ↦ commit db call state.version (mutate a)
]

module _ (c : Codec) (s : ApprovalService) where
  -- `Request`: the approval is built before the load, and returned when the update succeeded.
  unfoldable pub request : Db → Call → String → String → c.Payload → String → Result Approval × Db
  unfolding after_load canonical_payload new_approval request_mutation
  request db call id action payload summary =
      let prepared : Result Approval = do
        encoded ← canonical_payload c payload
        account ← account_of call.ctx
        ok (new_approval s call account id action encoded.0 encoded.1 summary)
      in let (r, db') = after_load db call prepared request_mutation in
        (do approval ← prepared; _ ← r; ok approval, db')

  -- What `Authorize` computes before its load.
  unfoldable pub claim_of : Call → String → c.Payload → Result Claim
  unfolding canonical_payload current_generation
  claim_of call action payload = do
    encoded ← canonical_payload c payload
    account ← account_of call.ctx
    ok (record {
      account = account;
      action = action;
      digest = encoded.1;
      generation = current_generation s call.ctx;
    })

  -- `Authorize`, the `ports.ApprovalPolicy` that an executor consumes an approval through.
  unfoldable pub authorize : Db → Call → String → c.Payload → String → Result (Unit {0}) × Db
  unfolding after_load claim_of authorize_mutation
  authorize db call action payload id =
      after_load db call (claim_of call action payload) (authorize_mutation call id)

unfoldable pub decide : Db → Call → String → Bool → Result (Unit {0}) × Db
unfolding after_load decide_mutation
decide db call id yes_tapped = after_load db call (ok tt) (λ _. decide_mutation call id yes_tapped)

unfoldable pub invalidate : Db → Call → String → Result (Unit {0}) × Db
unfolding after_load invalidate_mutation
invalidate db call id = after_load db call (ok tt) (λ _. invalidate_mutation call id)

unfoldable pub set_mode : Db → Call → ApprovalMode → Result (Unit {0}) × Db
unfolding after_load set_mode_mutation
set_mode db call mode =
    if is_valid mode
    then after_load db call (ok tt) (λ _. set_mode_mutation mode)
    else (err (other "approval mode must be strict, normal or auto"), db)

unfoldable pub mode : ApprovalService → Db → Call → Result ApprovalMode
unfolding load is_valid
mode s db call = do
  state ← load db call
  ok (
      if is_valid state.approval_mode
      then state.approval_mode
      else if state.approval_auto_mode
      then auto
      else s.default_mode)

insert_by_created : Approval → List Approval → List Approval
insert_by_created a [] = a ∷ []
insert_by_created a (b ∷ l) =
    let rest = insert_by_created a l in
    if leb a.created_at b.created_at then a ∷ b ∷ l else b ∷ rest

pub pending_of : Dict Approval → List Approval
unfolding insert_by_created is_pending
pending_of [] = []
pending_of ((_, a) ∷ m) =
    let rest = pending_of m in if is_pending a.status then insert_by_created a rest else rest

-- `Pending`. The code's sort keeps no order among equal times, and the map has none.
unfoldable pub pending_approvals : Db → Call → Result (List Approval)
unfolding load pending_of
pending_approvals db call = do state ← load db call; ok (pending_of state.approvals)

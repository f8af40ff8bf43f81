-- ===== src/Gate/Runs.antt =====
-- What runs of internal/core/services/approval_gate.go once it is approved, and that it runs once.
use mathlib.Core.Path.{subst, sym}
use eggy.Prelude.{
  String, ◌≡◌, ◌⊎◌, inl, inr, List, [], ◌∷◌, ◌++◌, Option, some, arith, Option-cases,
}
use eggy.Prelude.Result.{Result, ok, Result-cases}
use eggy.Approvals.{Approval}
use eggy.Approvals.Service.{ApprovalService, Codec}
use eggy.Approvals.Operations.{authorize}
use eggy.Approvals.Trace.{Event, run, AllFresh}
use eggy.Approvals.Consume.{ConsumedBy, authorize-ConsumedBy, authorize_once}
use eggy.Store.{Call, acting_account}
use eggy.Gate.{
  GatedCall, World, Entry, unwrap, approved_call, run_authorized, execute_approved,
  approval_tool_call,
}

module _ (c : Codec) (s : ApprovalService) (encode : GatedCall → c.Payload)
    (decode : String → Result GatedCall) (lookup : String → Option Entry)
    (bound : String → String) where
  -- The call that the approval's payload names ran once, with those arguments, and the approval was
  -- consumed for exactly that call.
  pub record Ran (call : Call) (approval : Approval) (w w' : World) : Type 0 where
    pub gated_call : GatedCall
    pub entry : Entry
    pub decoded : approved_call decode approval ≡ ok gated_call
    pub found : lookup gated_call.tool ≡ some entry
    pub consumed : ConsumedBy c s w.db w'.db call approval_tool_call (encode gated_call) approval.id
    pub authorized :
        (authorize c s w.db call approval_tool_call (encode gated_call) approval.id).0 ≡ ok tt
    pub db : w'.db ≡ (authorize c s w.db call approval_tool_call (encode gated_call) approval.id).1
    pub ran : w'.ran ≡ w.ran ++ ((unwrap entry).name, gated_call.arguments) ∷ []

  run_authorized-cases :
      (call : Call) (id : String) (w : World) (g : GatedCall)
      → let w' = (run_authorized c s encode decode lookup bound call id w g).1 in
        let auth = authorize c s w.db call approval_tool_call (encode g) id in
        (w'.ran ≡ w.ran)
        ⊎ ((entry : Entry) × (lookup g.tool ≡ some entry)
            × (auth.0 ≡ ok tt)
            × (w'.db ≡ auth.1)
            × (w'.ran ≡ w.ran ++ ((unwrap entry).name, g.arguments) ∷ []))
  unfolding run_authorized
  run_authorized-cases call id w g =
      elim (Result-cases (authorize c s w.db call approval_tool_call (encode g) id).0) [
        | inr (e, p) ↦ inl (ground arith)
        | inl (_, p) ↦ elim (Option-cases (lookup g.tool)) [
          | inl gone ↦ inl (ground arith)
          | inr (entry, there) ↦ inr (entry, there, ground arith, ground arith, ground arith)
        ]
      ]

  -- Executing an approved call runs nothing, or it runs the payload's call once, having consumed the
  -- approval for it.
  pub execute_approved-Ran :
      (call : Call) (approval : Approval) (w : World)
      → let w' = (execute_approved c s encode decode lookup bound call approval w).1 in
        (w'.ran ≡ w.ran) ⊎ Ran call approval w w'
  unfolding execute_approved
  execute_approved-Ran call approval w = elim (Result-cases (approved_call decode approval)) [
    | inr (e, p) ↦ inl (ground arith)
    | inl (g, p) ↦ elim (run_authorized-cases call approval.id w g) [
      | inl quiet ↦ inl (rw (p, execute_approved) quiet)
      | inr (entry, found, passed, db_eq, ran_eq) ↦ inr (record {
        gated_call = g;
        entry = entry;
        decoded = p;
        found = found;
        consumed =
            subst (λ d. ConsumedBy c s w.db d call approval_tool_call (encode g) approval.id)
              (sym (rw (p, execute_approved) db_eq))
              (authorize-ConsumedBy c s w.db call approval_tool_call (encode g) approval.id passed);
        authorized = passed;
        db = rw (p, execute_approved) db_eq;
        ran = rw (p, execute_approved) ran_eq;
      })
    ]
  ]

  -- An approval that a call ran under runs nothing again: after any writes by any calls whose fresh
  -- identifiers were free when drawn, executing the same identifier for the same account, with any
  -- payload, leaves the log as it is.
  pub execute_approved_once :
      (call call' : Call) (approval approval' : Approval) (w w' : World) (es : List Event)
      → Ran call approval w w'
      → approval'.id ≡ approval.id
      → acting_account call' ≡ acting_account call
      → AllFresh w'.db es
      → let later : World = record w' { db = run w'.db es } in
        (execute_approved c s encode decode lookup bound call' approval' later).1.ran ≡ later.ran
  execute_approved_once call call' approval approval' w w' es first same_id same_account fresh =
      let later : World = record w' { db = run w'.db es } in
      elim (execute_approved-Ran call' approval' later) [
        | inl quiet ↦ quiet
        | inr again ↦ absurd (
            authorize_once c s w.db call call' approval_tool_call approval_tool_call
              (encode first.gated_call) (encode again.gated_call) approval.id es first.authorized
              same_account (subst (λ d. AllFresh d es) first.db fresh)
              (cc (first.db, same_id, again.authorized)))
      ]

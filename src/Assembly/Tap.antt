-- ===== src/Assembly/Tap.antt =====
-- What a tap on an approval comes to, in internal/core/turns/approval.go.
use mathlib.Core.Path.{fun_ext}
use eggy.Prelude.{
  ℕ, ◌≡◌, ◌⊎◌, inl, inr, refl, ap, String, Bool, true, false, Option, List, ◌++◌, arith,
  if◌then◌else◌, Option-cases,
}
use eggy.Prelude.Result.{Error, Result, ok, err, Result-cases}
use eggy.Text.{codes}
use eggy.Context.{Destination}
use eggy.Approvals.{Approval}
use eggy.Store.{State}
use eggy.Assembly.Steps.{M, ◌>>=◌, try_call}
use eggy.Assembly.Approved.{
  ApprovalDecision, Executed, Deciders, tapped_approval, deliver_approval_failure, report_execution,
  execute_action, report_decision, approve_tap,
}

-- The last call is the delivery of an outcome, on the destination.
pub record Outcome {W : Type 0} (c : Deciders W) (dest : Destination) (message : String)
    (r : Result (Unit {0})) (w' : W) : Type 0 where
  pub text : List ℕ
  pub world : W
  pub last : (c.deliver_outcome dest message text world).1 ≡ w'
  pub told : ((e : Error) × (r ≡ err e)) ⊎ ((c.deliver_outcome dest message text world).0 ≡ ok tt)

module _ {W : Type 0} (c : Deciders W) (decision : ApprovalDecision) (dest : Destination) where
  -- A call that ends so, in every world.
  record Ends (m : M W (Unit {0})) : Type 0 where
    ends : (w : W) → Outcome c dest decision.message_id (m w).0 (m w).1

  Ends-deliver : (text : List ℕ) → Ends (c.deliver_outcome dest decision.message_id text)
  Ends-deliver text = record {
    ends = λ w. record {
      text = text;
      world = w;
      last = refl;
      told = elim (Result-cases ((c.deliver_outcome dest decision.message_id text w).0)) [
        | inl (_, fine) ↦ inr fine
        | inr (e, bad) ↦ inl (e, bad)
      ];
    };
  }

  Ends-fail : (e : Error) → Ends (deliver_approval_failure c dest decision.message_id e)
  unfolding deliver_approval_failure
  Ends-fail e = record {
    ends = λ w. record {
      text = codes "Action failed: " ++ c.text_of e;
      world = w;
      last = refl;
      told = inl (fails ((c.deliver_outcome dest decision.message_id _ w).0));
    };
  }
    where
      fails :
          (r : Result (Unit {0}))
          → (e' : Error) × ((elim r as (λ _. Result (Unit {0})) [
            | ok _ ↦ err e
            | err e' ↦ err (c.join_errors e e')
          ])
              ≡ err e')
      fails (ok _) = (e, refl)
      fails (err e') = (c.join_errors e e', refl)

  Ends-try_call :
      {A : Type 0} (m : M W A) (f : Result A → M W (Unit {0}))
      → ((r : Result A) → Ends (f r))
      → Ends (try_call m >>= f)
  unfolding try_call ◌>>=◌
  Ends-try_call m f rest = record { ends = λ w. (rest (m w).0).ends (m w).1 }

  Ends-report_execution :
      (sentence : List ℕ) (r : Result Executed) → Ends (report_execution c decision dest sentence r)
  unfolding report_execution
  Ends-report_execution sentence (ok result) = Ends-deliver _
  Ends-report_execution sentence (err e) = Ends-fail e

  Ends-execute_action : (r : Result State) → Ends (execute_action c decision dest r)
  unfolding execute_action
  Ends-execute_action (err e) = Ends-fail e
  Ends-execute_action (ok state) =
      elim (Option-cases (c.executors (tapped_approval c state decision.approval_id).action)) [
        | inl unknown ↦ rw (execute_action, unknown) (Ends-fail _)
        | inr (execute, known) ↦
            rw (execute_action, known) (Ends-try_call _ _ (Ends-report_execution _))
      ]

  Ends-report_decision : (r : Result (Unit {0})) → Ends (report_decision c decision dest r)
  unfolding report_decision
  Ends-report_decision (err e) = Ends-fail e
  Ends-report_decision (ok _) =
      Ends-if decision.approved _ _ (Ends-try_call _ _ Ends-execute_action) (Ends-deliver _)
    where
      Ends-if : (b : Bool) (m n : M W (Unit {0})) → Ends m → Ends n → Ends (if b then m else n)
      Ends-if true m n first second = first
      Ends-if false m n first second = second

module _ {W : Type 0} (c : Deciders W) (decision : ApprovalDecision) (w : W) (before : State) where
  -- Once the state has been read, the last call of `Approval`, whichever way it ends, delivers an outcome on
  -- the destination of the approval in that state; and either `Approval` reports an error, or that delivery
  -- reported none.
  pub approval-told :
      (w' : W)
      → c.load_state w ≡ (ok before, w')
      → Outcome c
          (tapped_approval c before decision.approval_id).destination
          decision.message_id
          (approve_tap c decision w).0
          (approve_tap c decision w).1
  unfolding approve_tap ◌>>=◌
  approval-told w' h =
      let dest = (tapped_approval c before decision.approval_id).destination in
      let m = c.decide dest decision.approval_id decision.approved in
      rw (approve_tap, h)
        ((Ends-try_call c decision dest m (report_decision c decision dest)
            (Ends-report_decision c decision dest)).ends
          w')

module _ {W : Type 0} (c : Deciders W) (decision : ApprovalDecision)
    (others : String → Option (Destination → Approval → M W Executed))
    (rejected : decision.approved ≡ false) where
  same_report :
      (dest : Destination) (r : Result (Unit {0}))
      → report_decision c decision dest r
        ≡ report_decision (record c { executors = others }) decision dest r
  unfolding report_decision deliver_approval_failure
  same_report dest (err e) = refl
  same_report dest (ok _) = either decision.approved _ _ _ rejected
    where
      either :
          (b : Bool) (m n k : M W (Unit {0}))
          → b ≡ false
          → (if b then m else k) ≡ (if b then n else k)
      either true m n k h = absurd (ground (arith, h))
      either false m n k h = refl

  -- A tap that rejects runs no executor: whatever the executors are, `Approval` does the same.
  pub approval-rejected :
      (w : W) → approve_tap c decision w ≡ approve_tap (record c { executors = others }) decision w
  unfolding approve_tap tapped_approval
  approval-rejected w =
      ap
        (λ (f : Destination → Result (Unit {0}) → M W (Unit {0})).
          (c.load_state >>= λ before.
          let dest = (tapped_approval c before decision.approval_id).destination in
          try_call (c.decide dest decision.approval_id decision.approved) >>= f dest)
            w)
        (fun_ext λ dest. fun_ext λ r. same_report dest r)

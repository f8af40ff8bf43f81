-- ===== src/Assembly/Approved.antt =====
-- internal/core/turns/approval.go: what an owner's tap on an approval does. `Service.Approval` gets its collaborators as
-- calls that change a world; the destination that it puts on the context is an argument of theirs.
use eggy.Prelude.{ℕ, String, Bool, Option, none, some, List, ◌++◌, if◌then◌else◌}
use eggy.Prelude.Dict.{get}
use eggy.Prelude.Result.{Error, Result, ok, err, other}
use eggy.Text.{codes, trim_space, is_empty}
use eggy.Context.{Destination}
use eggy.Approvals.{Approval}
use eggy.Store.{State}
use eggy.Assembly.Steps.{M, ◌>>=◌, try_call}

-- `events.ApprovalDecision`.
pub record ApprovalDecision : Type 0 where
  pub approval_id : String
  pub approved : Bool
  pub message_id : String

-- What an executor returns: a text, or a value that `%v` prints as one.
pub data Executed : Type 0 where
  as_text : List ℕ → Executed
  printed : List ℕ → Executed

-- `DeliverOutcome` gets the destination and the message that it edits. `zero_approval` is the approval that
-- a map without the identifier answers; `summary_of` is `encoding/json` reading the field `summary`.
pub record Deciders (W : Type 0) : Type 0 where
  pub load_state : M W State
  pub decide : Destination → String → Bool → M W (Unit {0})
  pub deliver_outcome : Destination → String → List ℕ → M W (Unit {0})
  pub executors : String → Option (Destination → Approval → M W Executed)
  pub zero_approval : Approval
  pub summary_of : List ℕ → Option (List ℕ)
  pub text_of : Error → List ℕ
  pub join_errors : Error → Error → Error

module _ {W : Type 0} (c : Deciders W) where
  -- `state.Approvals[id]`.
  unfoldable pub tapped_approval : State → String → Approval
  tapped_approval state id = elim (get state.approvals id) [
    | none ↦ c.zero_approval
    | some approval ↦ approval
  ]

  -- `fallbackOutcome`.
  unfoldable pub fallback_outcome : List ℕ → List ℕ → List ℕ
  unfolding trim_space
  fallback_outcome raw sentence =
      if is_empty (trim_space sentence)
      then codes "Approved action completed: " ++ raw
      else codes "Done. " ++ trim_space sentence

  -- `approvalOutcomeText`.
  unfoldable pub approval_outcome_text : Executed → List ℕ → List ℕ
  unfolding fallback_outcome trim_space
  approval_outcome_text (printed raw) sentence = fallback_outcome raw sentence
  approval_outcome_text (as_text raw) sentence = elim (c.summary_of raw) [
    | none ↦ fallback_outcome raw sentence
    | some summary ↦
        if is_empty (trim_space summary)
        then fallback_outcome raw sentence
        else codes "Done. " ++ summary
  ]

  -- `deliverApprovalFailure`.
  unfoldable pub deliver_approval_failure : Destination → String → Error → M W (Unit {0})
  deliver_approval_failure dest message e w =
      let (r, w') = c.deliver_outcome dest message (codes "Action failed: " ++ c.text_of e) w in
      (elim r [ ok _ ↦ err e | err e' ↦ err (c.join_errors e e') ], w')

  module _ (decision : ApprovalDecision) where
    abbrev tell_failure : Destination → Error → M W (Unit {0})
    tell_failure dest e = deliver_approval_failure dest decision.message_id e

    -- What the executor returned.
    unfoldable pub report_execution : Destination → List ℕ → Result Executed → M W (Unit {0})
    unfolding deliver_approval_failure approval_outcome_text
    report_execution dest sentence (err e) = tell_failure dest e
    report_execution dest sentence (ok result) =
        c.deliver_outcome dest decision.message_id (approval_outcome_text result sentence)

    -- The executor of the approval's action.
    unfoldable pub execute_action : Destination → Result State → M W (Unit {0})
    unfolding ◌>>=◌ try_call deliver_approval_failure tapped_approval report_execution
    execute_action dest (err e) = tell_failure dest e
    execute_action dest (ok state) =
        let approval = tapped_approval state decision.approval_id in
        elim (c.executors approval.action) [
          | none ↦ tell_failure dest (other "unknown approval action")
          | some execute ↦
              try_call (execute dest approval) >>= report_execution dest (codes approval.summary)
        ]

    -- What follows the decision.
    unfoldable pub report_decision : Destination → Result (Unit {0}) → M W (Unit {0})
    unfolding ◌>>=◌ try_call deliver_approval_failure execute_action
    report_decision dest (err e) = tell_failure dest e
    report_decision dest (ok _) =
        if decision.approved
        then (try_call c.load_state >>= execute_action dest)
        else c.deliver_outcome dest decision.message_id (codes "Action rejected.")

    -- `Approval`.
    unfoldable pub approve_tap : M W (Unit {0})
    unfolding ◌>>=◌ try_call tapped_approval report_decision
    approve_tap = c.load_state >>= λ before.
        let dest = (tapped_approval before decision.approval_id).destination in
        try_call (c.decide dest decision.approval_id decision.approved) >>= report_decision dest

-- ===== src/Approvals/Service.antt =====
-- internal/core/services/approval_service.go. Every operation loads the account's state and then updates
-- it at the version that it read; each one's update is an operation of its own here, so that other
-- calls can come between the two.
use eggy.Prelude.{
  ℕ, ◌+◌, String, Bool, true, false, Option, none, some, ltb, ◌==◌, str_eq, if◌then◌else◌, not,
}
use eggy.Prelude.Dict.{get, put}
use eggy.Prelude.Result.{
  Error, Result, ok, err, ◌>>=◌, not_authorized, payload_mismatch, stale_generation, other,
}
use eggy.Prelude.Result
use eggy.Context.{Ctx, destination_of}
use eggy.Approvals.{Status, Approval, pending, approved, rejected, expired, invalidated, used}
use eggy.Store.{ApprovalMode, normal, is_valid, State, Db, Call, update}

pub record ApprovalService : Type 0 where
  pub ttl : ℕ
  pub default_mode : ApprovalMode
  -- `nil` until `BindGeneration`
  pub generation : Option (Ctx → ℕ)

unfoldable pub new_approval_service : ℕ → ApprovalMode → ApprovalService
unfolding is_valid
new_approval_service ttl mode = record {
  ttl = ttl;
  default_mode = if is_valid mode then mode else normal;
  generation = none;
}

unfoldable pub bind_generation : ApprovalService → (Ctx → ℕ) → ApprovalService
bind_generation s generation = record s { generation = some generation }

unfoldable pub current_generation : ApprovalService → Ctx → ℕ
current_generation s ctx = elim s.generation [ none ↦ 0 | some generation ↦ generation ctx ]

-- `encoding/json` and `crypto/sha256`, which `canonicalPayload` calls.
pub record Codec : Type 1 where
  pub Payload : Type 0
  pub Value : Type 0
  pub marshal : Payload → Result String
  pub unmarshal : String → Result Value
  pub marshal_value : Value → Result String
  pub sum256_hex : String → String

unfoldable pub canonical_payload : (c : Codec) → c.Payload → Result (String × String)
canonical_payload c payload = do
  text ← c.marshal payload
  value ← c.unmarshal text
  canonical ← c.marshal_value value
  ok (canonical, c.sum256_hex canonical)

-- What a mutation leaves for the caller once its update is committed: a refusal.
abbrev pub Mutation : Type 0
Mutation = State → Result (State × Option Error)

-- The end of every operation: the error of the update, or else the refusal.
unfoldable pub commit : Db → Call → ℕ → Mutation → Result (Unit {0}) × Db
commit db call expected mutate =
    let (r, db') = update db call expected mutate in
    (
      elim r [
        | err e ↦ err e
        | ok (state, refusal) ↦ elim refusal [ none ↦ ok tt | some e ↦ err e ]
      ],
      db',
    )

unfoldable pub with_approval : State → String → Approval → State
with_approval state id approval = record state { approvals = put state.approvals id approval }

unfoldable pub request_mutation : Approval → Mutation
unfolding with_approval
request_mutation approval state = ok (with_approval state approval.id approval, none)

-- The record that `Request` builds, with the identifier that `randomID` drew.
unfoldable pub new_approval :
    ApprovalService → Call → String → String → String → String → String → String → Approval
unfolding current_generation destination_of
new_approval s call account id action canonical digest summary = record {
  id = id;
  action = action;
  payload_digest = digest;
  payload = canonical;
  summary = summary;
  status = pending;
  created_at = call.clock 0;
  expires_at = call.clock 0 + s.ttl;
  decided_at = 0;
  destination = destination_of call.ctx;
  account_id = account;
  integration_generation = current_generation s call.ctx;
}

unfoldable pub is_pending : Status → Bool
is_pending pending = true
is_pending _ = false

unfoldable pub is_approved : Status → Bool
is_approved approved = true
is_approved _ = false

-- What `Decide`, `Invalidate` and `Authorize` share: the record is looked up, and what the operation
-- makes of it is put back; an error leaves the state to be discarded.
unfoldable pub on_approval :
    State → String → (Approval → Result (Approval × Option Error)) → Result (State × Option Error)
unfolding with_approval
on_approval state id change = elim (get state.approvals id) [
  | none ↦ err not_authorized
  | some approval ↦ (do changed ← change approval; ok (with_approval state id changed.0, changed.1))
]

unfoldable pub decided : Call → Bool → Approval → Result (Approval × Option Error)
unfolding is_pending
decided call yes_tapped approval =
    if not (is_pending approval.status)
    then err not_authorized
    else if not (ltb (call.clock 0) approval.expires_at)
    then ok (record approval { status = expired }, some Result.expired)
    else ok (
      record approval {
        status = if yes_tapped then approved else rejected;
        decided_at = call.clock 1;
      },
      none,
    )

unfoldable pub decide_mutation : Call → String → Bool → Mutation
unfolding on_approval decided
decide_mutation call id yes_tapped state = on_approval state id (decided call yes_tapped)

unfoldable pub withdrawn : Call → Approval → Result (Approval × Option Error)
unfolding is_pending
withdrawn call approval =
    if not (is_pending approval.status)
    then err not_authorized
    else ok (record approval { status = invalidated; decided_at = call.clock 0 }, none)

unfoldable pub invalidate_mutation : Call → String → Mutation
unfolding on_approval withdrawn
invalidate_mutation call id state = on_approval state id (withdrawn call)

-- What `Authorize` holds an approval against.
pub record Claim : Type 0 where
  pub account : String
  pub action : String
  pub digest : String
  pub generation : ℕ

-- The checks of `Authorize`'s mutation, in the code's order, on the record that it found.
unfoldable pub authorized : Call → Claim → Approval → Result (Approval × Option Error)
unfolding is_approved
authorized call claim approval =
    if not (str_eq approval.action claim.action)
    then err not_authorized
    else if not (is_approved approval.status)
    then err not_authorized
    else if not (str_eq approval.account_id claim.account)
    then err not_authorized
    else if not (ltb (call.clock 0) approval.expires_at)
    then ok (record approval { status = expired }, some Result.expired)
    else if not (str_eq approval.payload_digest claim.digest)
    then err payload_mismatch
    else if not (approval.integration_generation == claim.generation)
    then ok
        (record approval { status = invalidated; decided_at = call.clock 1 }, some stale_generation)
    else ok (record approval { status = used }, none)

unfoldable pub authorize_mutation : Call → String → Claim → Mutation
unfolding on_approval authorized
authorize_mutation call id claim state = on_approval state id (authorized call claim)

unfoldable pub set_mode_mutation : ApprovalMode → Mutation
set_mode_mutation mode state =
    ok (record state { approval_mode = mode; approval_auto_mode = false }, none)

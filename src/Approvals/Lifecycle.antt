-- ===== src/Approvals/Lifecycle.antt =====
-- The life of an approval. A status only moves along the edges below, whoever calls what and
-- however the calls interleave, and what an approval binds never changes.
use eggy.Prelude.{
  String, Bool, true, false, Bool-cases, Option-cases, ◌≡◌, refl, inl, inr, Option, none, some,
  arith, eq_iff, str_eq,
}
use eggy.Prelude.Dict.{get, get-put}
use eggy.Prelude.Result.{Error, Result, ok, Result-cases}
use eggy.Approvals.{Status, Approval, pending, approved, rejected, expired, invalidated, used}
use eggy.Approvals.Service.{
  Mutation, Claim, request_mutation, decide_mutation, invalidate_mutation, authorize_mutation,
  set_mode_mutation, on_approval, decided, withdrawn, authorized,
}
use eggy.Store.{ApprovalMode, State, Call}

abbrev pub edge : Status → Status → Bool
edge pending pending = true
edge pending approved = true
edge pending rejected = true
edge pending expired = true
edge pending invalidated = true
edge approved approved = true
edge approved used = true
edge approved expired = true
edge approved invalidated = true
edge rejected rejected = true
edge expired expired = true
edge invalidated invalidated = true
edge used used = true
edge _ _ = false

-- The same approval later: what the owner was shown is what is stored, and the status moved on.
pub record Later (a b : Approval) : Type 0 where
  pub moved : edge a.status b.status ≡ true
  pub action : b.action ≡ a.action
  pub payload : b.payload ≡ a.payload
  pub payload_digest : b.payload_digest ≡ a.payload_digest
  pub expires_at : b.expires_at ≡ a.expires_at
  pub account_id : b.account_id ≡ a.account_id
  pub integration_generation : b.integration_generation ≡ a.integration_generation

edge_refl : (s : Status) → edge s s ≡ true
edge_refl pending = refl
edge_refl _ = refl

pub Later-refl : (a : Approval) → Later a a
Later-refl a = record {
  moved = edge_refl a.status;
  action = refl;
  payload = refl;
  payload_digest = refl;
  expires_at = refl;
  account_id = refl;
  integration_generation = refl;
}

-- One mutation, seen at one identifier.
abbrev pub Evolves : State → State → String → Type 0
Evolves s t id =
    (a : Approval)
    → get s.approvals id ≡ some a
    → (b : Approval) × (get t.approvals id ≡ some b) × Later a b

-- The operations that write approvals, with the call's own values.
pub data Op : Type 0 where
  request : Approval → Op
  decide : String → Bool → Op
  invalidate : String → Op
  authorize : String → Claim → Op
  set_mode : ApprovalMode → Op

unfoldable pub mutation : Op → Call → Mutation
unfolding request_mutation decide_mutation invalidate_mutation authorize_mutation set_mode_mutation
mutation (request a) call = request_mutation a
mutation (decide id yes_tapped) call = decide_mutation call id yes_tapped
mutation (invalidate id) call = invalidate_mutation call id
mutation (authorize id claim) call = authorize_mutation call id claim
mutation (set_mode mode) call = set_mode_mutation mode

-- `randomID` draws no identifier that the state already has.
abbrev pub IsFresh : Op → State → Type 0
IsFresh (request a) s = get s.approvals a.id ≡ none
IsFresh _ s = Unit

decided-Later :
    (call : Call) (yes_tapped : Bool) (a b : Approval) (r : Option Error)
    → decided call yes_tapped a ≡ ok (b, r)
    → Later a b
unfolding decided
decided-Later call yes_tapped a b r h = ground arith

withdrawn-Later :
    (call : Call) (a b : Approval) (r : Option Error) → withdrawn call a ≡ ok (b, r) → Later a b
unfolding withdrawn
withdrawn-Later call a b r h = ground arith

authorized-Later :
    (call : Call) (claim : Claim) (a b : Approval) (r : Option Error)
    → authorized call claim a ≡ ok (b, r)
    → Later a b
unfolding authorized
authorized-Later call claim a b r h = ground arith

on_approval-Evolves :
    (s t : State) (j : String) (change : Approval → Result (Approval × Option Error))
    (r : Option Error) (id : String)
    → ((a b : Approval) (x : Option Error) → change a ≡ ok (b, x) → Later a b)
    → on_approval s j change ≡ ok (t, r)
    → Evolves s t id
unfolding on_approval
on_approval-Evolves s t j change r id later h a at = elim (Bool-cases (str_eq j id)) [
  | inr other ↦ elim (Option-cases (get s.approvals j)) [
    | inl gone ↦ absurd (ground arith)
    | inr (x, there) ↦ elim (Result-cases (change x)) [
      | inr (e, no_change) ↦ absurd (ground arith)
      | inl ((b, y), changed) ↦ (a, ground (arith, get-put s.approvals j b id), Later-refl a)
    ]
  ]
  | inl same ↦ elim (Result-cases (change a)) [
    | inr (e, no_change) ↦ absurd (ground (arith, eq_iff j id))
    | inl ((b, x), changed) ↦
        (b, ground (arith, eq_iff j id, get-put s.approvals j b id), later a b x changed)
  ]
]

pub mutation-Evolves :
    (op : Op) (call : Call) (s t : State) (r : Option Error) (id : String)
    → IsFresh op s
    → mutation op call s ≡ ok (t, r)
    → Evolves s t id
unfolding mutation
mutation-Evolves (request x) call s t r id fresh h =
    λ a at. (a, ground (arith, get-put s.approvals x.id x id, eq_iff x.id id), Later-refl a)
mutation-Evolves (set_mode mode) call s t r id fresh h = λ a at. (a, ground arith, Later-refl a)
mutation-Evolves (decide j yes_tapped) call s t r id fresh h =
    on_approval-Evolves s t j (decided call yes_tapped) r id (decided-Later call yes_tapped) h
mutation-Evolves (invalidate j) call s t r id fresh h =
    on_approval-Evolves s t j (withdrawn call) r id (withdrawn-Later call) h
mutation-Evolves (authorize j claim) call s t r id fresh h =
    on_approval-Evolves s t j (authorized call claim) r id (authorized-Later call claim) h

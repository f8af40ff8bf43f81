-- ===== src/Approvals/Consume.antt =====
-- `Authorize`: when an approval is consumed, and that it is consumed once.
use eggy.Prelude.{
  ℕ, String, ◌≡◌, ◌≢◌, refl, ◌∙◌, ◌<◌, inl, inr, none, some, List, arith, eq_iff, eq_refl,
  Option-cases,
}
use eggy.Prelude.Dict.{get, get-put}
use eggy.Prelude.Result.{Result, ok, err, Result-cases}
use eggy.Context.{account_of}
use eggy.Approvals.{Approval, approved, used}
use eggy.Approvals.Service.{
  ApprovalService, Codec, canonical_payload, current_generation, Mutation, commit, Claim,
  authorize_mutation, on_approval, authorized,
}
use eggy.Approvals.Operations.{authorize, after_load, claim_of}
use eggy.Approvals.Trace.{approval_of, Event, run, AllFresh, run-Kept}
use eggy.Store.{State, Db, Call, load, load_state, acting_account, update}
use eggy.Store.Laws.{Committed, update_ok, Committed-state}

-- The claim is met by the record, which becomes used.
pub record Granted (call : Call) (claim : Claim) (a b : Approval) : Type 0 where
  pub was_approved : a.status ≡ approved
  pub action : a.action ≡ claim.action
  pub account : a.account_id ≡ claim.account
  pub alive : call.clock 0 < a.expires_at
  pub digest : a.payload_digest ≡ claim.digest
  pub generation : a.integration_generation ≡ claim.generation
  pub now_used : b ≡ record a { status = used }

authorized-Granted :
    (call : Call) (claim : Claim) (a b : Approval)
    → authorized call claim a ≡ ok (b, none)
    → Granted call claim a b
unfolding authorized
authorized-Granted call claim a b h = ground (
  arith,
  eq_iff a.action claim.action,
  eq_iff a.account_id claim.account,
  eq_iff a.payload_digest claim.digest,
)

-- A commit that reports no error wrote what a mutation without a refusal made.
pub commit_ok :
    (db : Db) (call : Call) (version : ℕ) (mutate : Mutation)
    → (commit db call version mutate).0 ≡ ok tt
    → (s : State) × Committed db call version mutate s none (commit db call version mutate).1
unfolding commit
commit_ok db call version mutate h = elim (Result-cases (update db call version mutate).0) [
  | inr (e, p) ↦ absurd (ground arith)
  | inl ((s, none), p) ↦ (s, update_ok db call version mutate p)
  | inl ((s, some e), p) ↦ absurd (ground arith)
]

-- An approval of the acting account that met the claim, and what is stored in its place.
pub record Consumed (db db' : Db) (call : Call) (id : String) (claim : Claim) : Type 0 where
  pub account : String
  pub before : Approval
  pub after : Approval
  pub by : acting_account call ≡ ok account
  pub found : approval_of db account id ≡ some before
  pub granted : Granted call claim before after
  pub stored : approval_of db' account id ≡ some after

pub commit-Consumed :
    (db : Db) (call : Call) (version : ℕ) (id : String) (claim : Claim)
    → (commit db call version (authorize_mutation call id claim)).0 ≡ ok tt
    → Consumed db (commit db call version (authorize_mutation call id claim)).1 call id claim
unfolding authorize_mutation on_approval approval_of
commit-Consumed db call version id claim h =
    let (s, c) = commit_ok db call version (authorize_mutation call id claim) h in
    elim (Option-cases (get (load_state db c.account).approvals id)) [
      | inl gone ↦ absurd (ground (arith, c.mutated))
      | inr (a, found) ↦ elim (Result-cases (authorized call claim a)) [
        | inr (e, p) ↦ absurd (ground (arith, c.mutated))
        | inl ((b, r), p) ↦ record {
          account = c.account;
          before = a;
          after = b;
          by = c.by;
          found = found;
          granted = authorized-Granted call claim a b (ground (arith, c.mutated));
          stored =
              rw (Committed-state c c.account, eq_refl c.account)
                (ground (
                  arith,
                  c.mutated,
                  get-put (load_state db c.account).approvals id b id,
                  eq_refl id,
                ));
        }
      ]
    ]

after_load_ok :
    {A : Type 0} (db : Db) (call : Call) (prepared : Result A) (mutate : A → Mutation)
    → (after_load db call prepared mutate).0 ≡ ok tt
    → (a : A) × (version : ℕ) × (prepared ≡ ok a)
      × (after_load db call prepared mutate ≡ commit db call version (mutate a))
unfolding after_load
after_load_ok db call (err e) mutate h = cc
after_load_ok db call (ok a) mutate h = elim (Result-cases (load db call)) [
  | inr (e, p) ↦ absurd (ground arith)
  | inl (state, p) ↦ (a, state.version, refl, rw (p, after_load) refl)
]

module _ (c : Codec) (s : ApprovalService) where
  -- What a successful call held the approval against: its own values, and nothing else.
  pub record ConsumedBy (db db' : Db) (call : Call) (act : String) (payload : c.Payload)
      (id : String) : Type 0 where
    pub claim : Claim
    pub consumed : Consumed db db' call id claim
    pub acting : account_of call.ctx ≡ ok claim.account
    pub for_action : claim.action ≡ act
    pub canonical : String
    pub digest : canonical_payload c payload ≡ ok (canonical, claim.digest)
    pub generation : claim.generation ≡ current_generation s call.ctx

  claim_of_ok :
      (call : Call) (action : String) (payload : c.Payload) (claim : Claim)
      → claim_of c s call action payload ≡ ok claim
      → (canonical : String) × (account_of call.ctx ≡ ok claim.account)
        × (claim.action ≡ action)
        × (canonical_payload c payload ≡ ok (canonical, claim.digest))
        × (claim.generation ≡ current_generation s call.ctx)
  unfolding claim_of
  claim_of_ok call action payload claim h = elim (Result-cases (canonical_payload c payload)) [
    | inr (e, p) ↦ absurd (ground arith)
    | inl ((text, digest), p) ↦ (text, ground arith, ground arith, ground arith, ground arith)
  ]

  -- `Authorize` succeeds only on an approval that the acting account holds, that was approved, for
  -- this action and this payload's digest, before its expiry and under the current generation; and
  -- then the stored approval is used.
  pub authorize-ConsumedBy :
      (db : Db) (call : Call) (action : String) (payload : c.Payload) (id : String)
      → (authorize c s db call action payload id).0 ≡ ok tt
      → ConsumedBy db (authorize c s db call action payload id).1 call action payload id
  unfolding authorize
  authorize-ConsumedBy db call action payload id h =
      let (claim, version, p, same) =
        after_load_ok db call (claim_of c s call action payload) (authorize_mutation call id) h in
      let (canonical, acting, for_action, digest, generation) =
        claim_of_ok call action payload claim p in
      record {
        claim = claim;
        consumed = rw same (commit-Consumed db call version id claim (rw same at h));
        acting = acting;
        for_action = for_action;
        canonical = canonical;
        digest = digest;
        generation = generation;
      }

  -- What `Authorize` consumed it refuses for ever: after any writes by any calls whose fresh
  -- identifiers were free when drawn, another call of the same account for the same identifier
  -- fails, whatever it is for and whenever it comes.
  pub authorize_once :
      (db : Db) (call call' : Call) (action action' : String) (payload payload' : c.Payload)
      (id : String) (es : List Event)
      → (authorize c s db call action payload id).0 ≡ ok tt
      → acting_account call' ≡ acting_account call
      → AllFresh (authorize c s db call action payload id).1 es
      → (authorize c s
          (run (authorize c s db call action payload id).1 es)
          call'
          action'
          payload'
          id).0
        ≢ ok tt
  authorize_once db call call' action action' payload payload' id es h same fresh h' =
      let first = (authorize-ConsumedBy db call action payload id h).consumed in
      let second =
        (authorize-ConsumedBy (run (authorize c s db call action payload id).1 es) call' action'
          payload' id h').consumed in
      let (b, found, kept) =
        run-Kept (authorize c s db call action payload id).1 es first.account id first.after fresh
          first.stored in
      let is_used : first.after.status ≡ used = ground (arith, first.granted.now_used) in
      let still_used : b.status ≡ used = kept.settled (rw is_used tt) ∙ is_used in
      absurd (
        ground (
          arith, first.by, second.by, same, found, second.found, second.granted.was_approved,
          still_used,
        ))

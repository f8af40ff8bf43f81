-- ===== src/Approvals/Decide.antt =====
-- `Decide`, branch by branch.
use eggy.Prelude.{String, Bool, ◌≡◌, Option, none, some, arith, eq_refl, if◌then◌else◌, ltb}
use eggy.Prelude.Dict.{put, get-put}
use eggy.Prelude.Result
use eggy.Prelude.Result.{Error, Result, ok, err, Result-cases, not_authorized}
use eggy.Approvals.{Approval, pending, approved, rejected, expired}
use eggy.Approvals.Service.{on_approval, decided, decide_mutation, commit}
use eggy.Approvals.Operations.{decide, after_load}
use eggy.Approvals.Trace.{approval_of}
use eggy.Store.{State, Db, Call, load, load_state, acting_account, update}
use eggy.Store.Laws.{bumped, load_state-put}

abbrev pub answer : Option Error → Result (Unit {0})
answer none = ok tt
answer (some e) = err e

-- With a working database an operation that gets past its load writes what its mutation makes.
pub after_load-done :
    {A : Type 0} (db : Db) (call : Call) (account : String) (prepared : A)
    (mutate : A → State → Result (State × Option Error)) (t : State) (refusal : Option Error)
    → acting_account call ≡ ok account
    → call.read_fault ≡ none
    → call.write_fault ≡ none
    → mutate prepared (load_state db account) ≡ ok (t, refusal)
    → after_load db call (ok prepared) mutate ≡ (answer refusal, put db account (bumped t))
unfolding after_load load commit update
after_load-done db call account prepared mutate t refusal by r w m = ground arith

-- What a decision makes of a pending approval.
abbrev pub verdict : Call → Bool → Approval → Approval
verdict call yes_tapped a =
    if ltb (call.clock 0) a.expires_at
    then record a { status = if yes_tapped then approved else rejected; decided_at = call.clock 1 }
    else record a { status = expired }

-- With a working database a pending approval is decided in one call. In time, the answer is stored
-- and no error comes back; too late, the caller sees the expiry and the record is expired as well.
pub decide-pending :
    (db : Db) (call : Call) (id account : String) (yes_tapped : Bool) (a : Approval)
    → acting_account call ≡ ok account
    → call.read_fault ≡ none
    → call.write_fault ≡ none
    → approval_of db account id ≡ some a
    → a.status ≡ pending
    → ((decide db call id yes_tapped).0
        ≡ (if ltb (call.clock 0) a.expires_at then ok tt else err Result.expired))
      × (approval_of (decide db call id yes_tapped).1 account id ≡ some (verdict call yes_tapped a))
unfolding decide_mutation decide approval_of on_approval decided
decide-pending db call id account yes_tapped a by r w found p =
    let state = load_state db account in
    let refusal : Option Error =
      if ltb (call.clock 0) a.expires_at then none else some Result.expired in
    let t = record state { approvals = put state.approvals id (verdict call yes_tapped a) } in
    let done =
      after_load-done db call account tt (λ _. decide_mutation call id yes_tapped) t refusal by r w
        (ground arith) in
    rw (done, load_state-put, eq_refl)
      (
        ground arith,
        ground (arith, get-put state.approvals id (verdict call yes_tapped a) id, eq_refl id),
      )

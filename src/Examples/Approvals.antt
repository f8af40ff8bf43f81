-- ===== src/Examples/Approvals.antt =====
-- The theorems on approvals and on the store, on Amy's one approval.
use eggy.Prelude.{ℕ, ◌≡◌, ◌≢◌, refl, sym, ◌∙◌, true, some, inl, [], ◌∷◌}
use eggy.Prelude.Dict.{get, put}
use eggy.Prelude.Result.{ok}
use eggy.Context.{account_of}
use eggy.Approvals.{Status, pending, approved}
use eggy.Approvals.Operations.{authorize}
use eggy.Approvals.Trace.{approval_of, Event, step, run}
use eggy.Approvals.Consume.{ConsumedBy, authorize-ConsumedBy, authorize_once}
use eggy.Approvals.Consent.{Any, IsConsent, approved_by-IsConsent}
use eggy.Approvals.Lifecycle.{Op, mutation}
use eggy.Store.{update, load_state, acting_account}
use eggy.Examples.{plain_codec, service, at, approval, db_with}

abbrev tap : Event
tap = record { op = Op.decide "a1" true; call = at 200; version = 7 }

acting_amy : (now : ℕ) → acting_account (at now) ≡ ok "amy"
unfolding acting_account account_of
acting_amy now = refl

authorized_at-100 :
    (authorize plain_codec service (db_with approved) (at 100) "tool.call" "send" "a1").0 ≡ ok tt
unfolding authorize account_of update load_state get
authorized_at-100 = refl

authorize-ConsumedBy_example :
    ConsumedBy plain_codec service
      (db_with approved)
      (authorize plain_codec service (db_with approved) (at 100) "tool.call" "send" "a1").1
      (at 100)
      "tool.call"
      "send"
      "a1"
authorize-ConsumedBy_example =
    authorize-ConsumedBy plain_codec service (db_with approved) (at 100) "tool.call" "send" "a1"
      authorized_at-100

authorize_once_example :
    (authorize plain_codec service
      (run
        (authorize plain_codec service (db_with approved) (at 100) "tool.call" "send" "a1").1
        (tap ∷ []))
      (at 300)
      "tool.call"
      "send"
      "a1").0
    ≢ ok tt
authorize_once_example =
    authorize_once plain_codec service (db_with approved) (at 100) (at 300) "tool.call" "tool.call"
      "send" "send" "a1" (tap ∷ []) authorized_at-100 (acting_amy 300 ∙ sym (acting_amy 100))
      ((λ account by. tt), tt)

pending_in-run :
    approval_of (run (db_with pending) (tap ∷ [])) "amy" "a1"
    ≡ some (record (approval approved) { decided_at = 201 })
unfolding run approval_of get load_state step update account_of mutation put
pending_in-run = refl

found_in : (s : Status) → approval_of (db_with s) "amy" "a1" ≡ some (approval s)
unfolding approval_of get load_state
found_in s = refl

approved_by-IsConsent_example : Any (IsConsent "amy" "a1" 3610) (tap ∷ [])
approved_by-IsConsent_example =
    approved_by-IsConsent (db_with pending) (tap ∷ []) "amy" "a1" (approval pending)
      (record (approval approved) { decided_at = 201 }) ((λ account by. tt), tt) (found_in pending)
      refl pending_in-run (inl refl)

-- ===== src/Examples/Store.antt =====
-- The theorems on the state store, on Amy's row.
use eggy.Prelude.{ℕ, ◌≡◌, refl, true, arith}
use eggy.Prelude.Dict.{get}
use eggy.Prelude.Result.{Result, Error, ok, err, version_conflict}
use eggy.Context.{account_of}
use eggy.Approvals.{approved}
use eggy.Store.{State, update, load_state}
use eggy.Store.Laws.{lost_update_refused, bumped}
use eggy.Examples.{at, db_with, state_with}

abbrev woken : State → Result (State × ℕ)
woken s = ok (record s { agent = record (s.agent) { heartbeat = true } }, 1)

conflict : (update (db_with approved) (at 5) 6 woken).0 ≡ err version_conflict
unfolding update account_of load_state get
conflict = refl

first_wins :
    (update (db_with approved) (at 5) 7 woken).0
    ≡ ok (
      bumped (record (state_with approved) {
        agent = record ((state_with approved).agent) { heartbeat = true };
      }),
      1,
    )
unfolding update account_of load_state get
first_wins = refl

lost_update_refused_example :
    (e : Error) × ((update (update (db_with approved) (at 5) 7 woken).1 (at 5) 7 woken).0 ≡ err e)
    × ((update (update (db_with approved) (at 5) 7 woken).1 (at 5) 7 woken).1
        ≡ (update (db_with approved) (at 5) 7 woken).1)
lost_update_refused_example =
    lost_update_refused (db_with approved) (at 5) (at 5) 7 woken woken
      (λ s t a h. ground (arith, h)) refl first_wins

-- ===== src/Examples/Dispatcher.antt =====
-- The theorems on events, on one of Amy's that arrives twice.
use eggy.Prelude.{◌≤◌, ◌≡◌, ◌↔◌, String, Bool, true, false, refl, Option, none, some, [], ◌∷◌}
use eggy.Prelude.Result.{ok}
use eggy.Prelude.Dict.{get, put}
use eggy.Context.{account_of}
use eggy.Store.{load, load_state, update}
use eggy.Approvals.{pending}
use eggy.Dispatcher.{Event, Handler, Desk, handle}
use eggy.Dispatcher.Once.{handled_once}
use eggy.Dispatcher.Locks.{
  Locks, Phase, waiting, handling, Handling, refer_lock, set_mu, LockState, LockReach, no_locks,
  refers, locks_mu,
}
use eggy.Dispatcher.Counts.{calls_for, handling_for}
use eggy.Dispatcher.Alone.{handled_alone}
use eggy.Examples.{at, db_with}

abbrev event : Event
event = record {
  id = "e1";
  kind = "message";
  source = "telegram";
  owner = "amy";
  timestamp = 4;
  correlation_id = "";
  destination = record { kind = "telegram"; thread_id = ""; channel_id = "" };
  payload = "{}";
  sender_id = "";
}

abbrev desk : Desk
desk = record { db = db_with pending; ran = [] }

abbrev everyone : String → Bool
everyone account = true

abbrev read_it : Handler
read_it e db = (ok tt, db)

abbrev catalog : String → Option Handler
catalog kind = some read_it

abbrev handled_desk : Desk
handled_desk = (handle everyone catalog (at 1) (at 2) (at 3) 900000 event desk).1

was_handled : (handle everyone catalog (at 1) (at 2) (at 3) 900000 event desk).0 ≡ ok tt
unfolding handle load account_of get load_state update
was_handled = refl

handled_once_example :
    (handle everyone catalog (at 5) (at 6) (at 7) 900001 event handled_desk).1 ≡ handled_desk
handled_once_example =
    handled_once everyone catalog (at 1) (at 2) (at 3) (at 5) (at 6) (at 7) 900000 900001 event desk
      handled_desk was_handled refl

abbrev no_table : Locks
no_table = record { locks = []; heap = λ n. record { mu = false; references = 0 }; fresh = 0 }

abbrev first_referred : Locks
first_referred = (refer_lock no_table "e1").1

abbrev both_referred : Locks
both_referred = (refer_lock first_referred "e1").1

abbrev call_of_e1 : Phase → Handling
call_of_e1 phase = record { id = "e1"; lock = 0; phase = phase }

-- The first of two calls for one event has locked its mutex.
abbrev one_waits : LockState
one_waits = record {
  table = set_mu both_referred 0 true;
  calls = call_of_e1 waiting ∷ call_of_e1 handling ∷ [];
}

one_waits-reached : LockReach one_waits
unfolding refer_lock set_mu get put
one_waits-reached = locks_mu both_referred (call_of_e1 waiting ∷ []) [] "e1" 0 refl (
    refers (record { table = first_referred; calls = call_of_e1 waiting ∷ [] }) "e1"
      (refers (record { table = no_table; calls = [] }) "e1" (no_locks no_table.heap)))

handled_alone_example :
    (handling_for "e1" one_waits.calls ≤ 1)
    × ((get one_waits.table.locks "e1" ≡ none) ↔ (calls_for "e1" one_waits.calls ≡ 0))
handled_alone_example = handled_alone one_waits "e1" one_waits-reached

-- ===== src/Examples/Turns.antt =====
-- The theorems on admission, on a turn that a second message joins.
use eggy.Prelude.{ℕ, ◌≡◌, refl, true, false, none, some, [], ◌∷◌, ◌++◌}
use eggy.Message.{Message, user}
use eggy.Turns.Table.{TurnKey, TableState, acquire_entry, is_idle, new_entry, no_entries, admits}
use eggy.Turns.OneEntry.{one_entry_at_work}
use eggy.Turns.{Waiter, ActiveTurn}
use eggy.Turns.Steps.{
  System, arrive, read_owner, publish, release_turn, stop_turn, moved, init, step, Reach, start,
  after,
}
use eggy.Turns.Invariant.{HeadBlocked}
use eggy.Turns.Delivery.{release-delivers_all, none_stranded}

abbrev said : Message
said = record {
  role = user;
  content = 104 ∷ [];
  parts = [];
  name = "";
  tool_call_id = "";
  tool_calls = [];
}

abbrev waiter : ℕ → Waiter
waiter id = record { id = id; message = said; steerable = true; joinable = true }

abbrev turn : ActiveTurn
turn = record { generation = 1; canceled = false; steerable = true; stopping = false; pending = [] }

abbrev asked : System
asked = record init {
  entry = record {
    next = 0;
    active = none;
    preparing = true;
    waiters = [];
    granted = some (waiter 1);
  };
}

abbrev owning : System
owning = record asked { owner = some true }

abbrev running : System
running = record init {
  entry = record { next = 1; active = some turn; preparing = false; waiters = []; granted = none };
}

abbrev stopped_turn : ActiveTurn
stopped_turn = record turn { canceled = true; stopping = true }

abbrev stopped : System
stopped = record running {
  entry = record {
    next = 1;
    active = some stopped_turn;
    preparing = false;
    waiters = [];
    granted = none;
  };
}

abbrev queued : System
queued = record stopped {
  entry = record {
    next = 1;
    active = some stopped_turn;
    preparing = false;
    waiters = waiter 2 ∷ [];
    granted = none;
  };
}

abbrev released : System
released = record stopped {
  entry = record {
    next = 1;
    active = none;
    preparing = true;
    waiters = [];
    granted = some (waiter 2);
  };
}

arrived : step init (arrive (waiter 1)) ≡ moved asked
unfolding step init
arrived = refl

read : step asked read_owner ≡ moved owning
unfolding step init
read = refl

published : step owning publish ≡ moved running
unfolding step init
published = refl

stopping : step running stop_turn ≡ moved stopped
unfolding step init
stopping = refl

arrived_late : step stopped (arrive (waiter 2)) ≡ moved queued
unfolding step init
arrived_late = refl

was_released : step queued (release_turn 1) ≡ moved released
unfolding step init
was_released = refl

reach_owning : Reach owning
reach_owning = after read_owner (after (arrive (waiter 1)) start arrived) read

reach_running : Reach running
reach_running = after publish reach_owning published

reach_stopped : Reach stopped
reach_stopped = after stop_turn reach_running stopping

reach_queued : Reach queued
reach_queued = after (arrive (waiter 2)) reach_stopped arrived_late

release-delivers_all_example :
    (queued.accepted ≡ queued.delivered ++ [])
    × (released.accepted ≡ queued.accepted)
    × (released.delivered ≡ released.accepted)
release-delivers_all_example = release-delivers_all stopped_turn reach_queued refl was_released

none_stranded_example : HeadBlocked queued.entry.active queued.entry.waiters
none_stranded_example = none_stranded reach_queued refl

abbrev chat_key : TurnKey
chat_key = record { account = "amy"; conversation = "chat" }

abbrev nothing_running : TableState
nothing_running = record {
  turns = record {
    entries = [];
    heap = λ id. record { references = 0; entry = new_entry };
    fresh = 0;
    home = λ id. chat_key;
  };
  holders = [];
}

abbrev one_caller : TableState
unfolding acquire_entry
one_caller = record {
  turns = (acquire_entry nothing_running.turns chat_key).1;
  holders = (chat_key, (acquire_entry nothing_running.turns chat_key).0) ∷ [];
}

abbrev two_callers : TableState
unfolding acquire_entry
two_callers = record {
  turns = (acquire_entry one_caller.turns chat_key).1;
  holders = (chat_key, (acquire_entry one_caller.turns chat_key).0) ∷ one_caller.holders;
}

one_entry_at_work_example :
    (acquire_entry nothing_running.turns chat_key).0 ≡ (acquire_entry one_caller.turns chat_key).0
unfolding acquire_entry is_idle
one_entry_at_work_example =
    one_entry_at_work two_callers (acquire_entry nothing_running.turns chat_key).0
      (acquire_entry one_caller.turns chat_key).0
      (admits one_caller chat_key (admits nothing_running chat_key (no_entries (λ id. chat_key))))
      refl refl refl

-- ===== src/Store.antt =====
-- The state of one account and the store that keeps it: internal/ports/state.go and
-- internal/storage/sqlite/state.go. The tables are a map from an account to its row; the database itself is
-- not modelled, but for the errors that it may answer with.
pub mod Laws
use eggy.Prelude.{
  ℕ, ◌+◌, ◌%◌, ◌^◌, String, Bool, true, false, Option, none, some, List, [], ◌==◌, if◌then◌else◌,
}
use eggy.Prelude.Dict.{Dict, get, put}
use eggy.Prelude.Result.{Error, Result, ok, err, ◌>>=◌, version_conflict}
use eggy.Context.{Ctx, account_of}
use eggy.Message.{ModelUsage}
use eggy.Approvals.{Approval}

pub data ApprovalMode : Type 0 where
  strict normal auto : ApprovalMode
  -- any other text, the empty one included
  unknown : String → ApprovalMode

unfoldable pub is_valid : ApprovalMode → Bool
is_valid strict = true
is_valid normal = true
is_valid auto = true
is_valid (unknown _) = false

-- The choices that an account made, and what its models used.
pub record AgentRuntimeState : Type 0 where
  pub selected_model : String
  pub reasoning_effort : String
  pub usage : Dict ModelUsage
  pub hide_thinking : Bool
  pub heartbeat : Bool
  pub theme : String

-- Only the fields that modelled operations read or write; the others pass through the store alike.
pub record State : Type 0 where
  pub schema_version : ℕ
  pub version : ℕ
  pub approvals : Dict Approval
  pub processed_events : Dict ℕ
  pub proactive_messages : List ℕ
  pub approval_mode : ApprovalMode
  pub approval_auto_mode : Bool
  pub agent : AgentRuntimeState

abbrev pub machine_state_version : ℕ
machine_state_version = 11

unfoldable pub initial_state : State
initial_state = record {
  schema_version = machine_state_version;
  version = 0;
  approvals = [];
  processed_events = [];
  proactive_messages = [];
  approval_mode = unknown "";
  approval_auto_mode = false;
  agent = record {
    selected_model = "";
    reasoning_effort = "";
    usage = [];
    hide_thinking = false;
    heartbeat = false;
    theme = "";
  };
}

abbrev pub Db : Type 0
Db = Dict State

-- What one call meets: its context, and the error with which the database answers a read or a
-- write, if it does. The clock gives the n-th reading of the call.
pub record Call : Type 0 where
  pub ctx : Ctx
  pub read_fault : Option Error
  pub write_fault : Option Error
  pub clock : ℕ → ℕ

-- `loadState`: an account with no row has the initial state. The schema version is not a column.
unfoldable pub load_state : Db → String → State
unfolding initial_state
load_state db account = elim (get db account) [
  | none ↦ initial_state
  | some state ↦ record state { schema_version = machine_state_version }
]

-- The checks that `Load` and `Update` begin with.
unfoldable pub acting_account : Call → Result String
acting_account call = elim call.ctx.failure [ some e ↦ err e | none ↦ account_of call.ctx ]

unfoldable pub load : Db → Call → Result State
unfolding acting_account
load db call = do
  account ← acting_account call
  elim call.read_fault [ some e ↦ err e | none ↦ ok (load_state db account) ]

-- `uint64` arithmetic wraps.
abbrev pub u64 : ℕ → ℕ
u64 n = n % 2 ^ 64

module _ {A : Type 0} where
  -- What `Update` does inside its transaction, up to the write.
  unfoldable pub attempt : ℕ → (State → Result (State × A)) → State → Result (State × A)
  attempt expected mutate state =
      if state.version == expected
      then (do
        changed ← mutate state
        ok (
          record (changed.0) {
            version = u64 (changed.0.version + 1);
            schema_version = machine_state_version;
          },
          changed.1,
        ))
      else err version_conflict

  -- The row is written only when every step before it succeeded.
  unfoldable pub save : Db → String → Option Error → Result (State × A) → Result (State × A) × Db
  save db account fault (err e) = (err e, db)
  save db account fault (ok (state, a)) = elim fault [
    | some e ↦ (err e, db)
    | none ↦ (ok (state, a), put db account state)
  ]

  unfoldable pub update : Db → Call → ℕ → (State → Result (State × A)) → Result (State × A) × Db
  unfolding attempt save acting_account
  update db call expected mutate = elim (acting_account call) [
    | err e ↦ (err e, db)
    | ok account ↦ elim call.read_fault [
      | some e ↦ (err e, db)
      | none ↦ save db account call.write_fault (attempt expected mutate (load_state db account))
    ]
  ]

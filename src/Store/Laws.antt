-- ===== src/Store/Laws.antt =====
-- What `Update` of internal/storage/sqlite/state.go promises its callers.
use eggy.Prelude.{ℕ, ◌+◌, String, ◌≡◌, ◌≢◌, inl, inr, arith, eq_iff, str_eq, if◌then◌else◌}
use eggy.Prelude.Dict.{put, get-put}
use eggy.Prelude.Result.{Error, Result, ok, err, Result-cases}
use eggy.Store.{State, Db, Call, load_state, acting_account, update, u64, machine_state_version}

pub load_state-put :
    (db : Db) (account : String) (s : State) (j : String)
    → load_state (put db account s) j ≡ (
        if str_eq account j
        then record s { schema_version = machine_state_version }
        else load_state db j)
unfolding load_state
load_state-put db account s j = ground (arith, get-put db account s j)

-- The row that a successful update leaves.
abbrev pub bumped : State → State
bumped s = record s { version = u64 (s.version + 1); schema_version = machine_state_version }

module _ {A : Type 0} where
  -- What a successful update did: it applied the mutation to the acting account's state, which had
  -- the version that the caller had read, and wrote the result with the next version.
  pub record Committed (db : Db) (call : Call) (expected : ℕ) (mutate : State → Result (State × A))
      (s : State) (a : A) (db' : Db) : Type 0 where
    pub account : String
    pub changed : State
    pub by : acting_account call ≡ ok account
    pub current : (load_state db account).version ≡ expected
    pub mutated : mutate (load_state db account) ≡ ok (changed, a)
    pub result : s ≡ bumped changed
    pub stored : db' ≡ put db account s

  -- An update that reports an error has written nothing.
  pub update_error_unchanged :
      (db : Db) (call : Call) (expected : ℕ) (mutate : State → Result (State × A)) {e : Error}
      → (update db call expected mutate).0 ≡ err e
      → (update db call expected mutate).1 ≡ db
  unfolding update
  update_error_unchanged db call expected mutate h = ground arith

  pub update_ok :
      (db : Db) (call : Call) (expected : ℕ) (mutate : State → Result (State × A)) {s : State}
      {a : A}
      → (update db call expected mutate).0 ≡ ok (s, a)
      → Committed db call expected mutate s a (update db call expected mutate).1
  unfolding update
  update_ok db call expected mutate h = elim (Result-cases (acting_account call)) [
    | inr (e, p) ↦ absurd (ground arith)
    | inl (account, p) ↦ elim (Result-cases (mutate (load_state db account))) [
      | inr (e, q) ↦ absurd (ground arith)
      | inl ((t, b), q) ↦ record {
        account = account;
        changed = t;
        by = p;
        current = ground arith;
        mutated = ground arith;
        result = ground arith;
        stored = ground arith;
      }
    ]
  ]

  -- The state of the account that wrote is the one that the update returned.
  pub Committed-state :
      {db : Db} {call : Call} {expected : ℕ} {mutate : State → Result (State × A)} {s : State}
      {a : A} {db' : Db} (c : Committed db call expected mutate s a db') (j : String)
      → load_state db' j ≡ (if str_eq c.account j then bumped c.changed else load_state db j)
  Committed-state {db} {s = s} c j = rw (c.stored, load_state-put) (ground (arith, c.result))

  -- An update changes the state of no account but the acting one.
  pub update_other :
      (db : Db) (call : Call) (expected : ℕ) (mutate : State → Result (State × A)) (j : String)
      → acting_account call ≢ ok j
      → load_state (update db call expected mutate).1 j ≡ load_state db j
  update_other db call expected mutate j other_account =
      elim (Result-cases (update db call expected mutate).0) [
        | inr (e, p) ↦ rw (update_error_unchanged db call expected mutate p)
        | inl ((s, a), p) ↦
            let c = update_ok db call expected mutate p in
            rw (Committed-state c j) (ground (arith, eq_iff c.account j, c.by))
      ]

  -- A mutation leaves the version to the store.
  abbrev pub KeepsVersion : (State → Result (State × A)) → Type 0
  KeepsVersion mutate = (s t : State) (a : A) → mutate s ≡ ok (t, a) → t.version ≡ s.version

module _ {A B : Type 0} where
  -- Of two callers of one account that read the same version, of which the first wrote with a
  -- mutation that leaves the version to the store, the second is refused, whatever it wanted to
  -- write, and the first one's write stands.
  pub lost_update_refused :
      (db : Db) (first second : Call) (expected : ℕ) (mutate : State → Result (State × A))
      (mutate' : State → Result (State × B)) {s : State} {a : A}
      → KeepsVersion mutate
      → acting_account second ≡ acting_account first
      → (update db first expected mutate).0 ≡ ok (s, a)
      → (e : Error) × ((update (update db first expected mutate).1 second expected mutate').0
          ≡ err e)
        × ((update (update db first expected mutate).1 second expected mutate').1
            ≡ (update db first expected mutate).1)
  lost_update_refused db first second expected mutate mutate' {a} keeps same h =
      let db' = (update db first expected mutate).1 in
      let c = update_ok db first expected mutate h in
      elim (Result-cases (update db' second expected mutate').0) [
        | inr (e, p) ↦ (e, p, update_error_unchanged db' second expected mutate' p)
        | inl ((t, b), p) ↦
            let d = update_ok db' second expected mutate' p in
            absurd (
              ground (
                arith,
                c.by,
                d.by,
                c.current,
                d.current,
                Committed-state c d.account,
                keeps (load_state db c.account) c.changed a c.mutated,
                eq_iff c.account d.account,
              ))
      ]

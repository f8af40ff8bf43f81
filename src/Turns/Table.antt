-- ===== src/Turns/Table.antt =====
-- The table of entries of internal/core/services/turns.go. An entry is its number in a heap; what a call
-- of `Admit` or `Stop` holds is the key and the entry that it got.
use eggy.Prelude.{
  ℕ, ◌+◌, ◌-◌, ◌≡◌, ◌≢◌, ◌⊎◌, String, Bool, false, not, ◌&&◌, Option, none, some, List, [], ◌∷◌,
  ◌++◌, ◌==◌, str_eq, if◌then◌else◌,
}
use eggy.Text.{is_empty}
use eggy.Turns.{TurnEntry, is_none}

pub record TurnKey : Type 0 where
  pub account : String
  pub conversation : String

-- A `turnEntry` with its references.
pub record Cell : Type 0 where
  pub references : ℕ
  pub entry : TurnEntry

-- `fresh` is the number of the next entry that is made, and `home` the key that an entry was made for.
pub record ActiveTurns : Type 0 where
  pub entries : List (TurnKey × ℕ)
  pub heap : ℕ → Cell
  pub fresh : ℕ
  pub home : ℕ → TurnKey

unfoldable pub same_key : TurnKey → TurnKey → Bool
same_key k j = str_eq k.account j.account && str_eq k.conversation j.conversation

-- `entries[key]`, `entries[key] = entry` for a key that is not there, and `delete(entries, key)`.
unfoldable pub entry_of : List (TurnKey × ℕ) → TurnKey → Option ℕ
unfolding same_key
entry_of [] key = none
entry_of ((k, id) ∷ entries) key =
    let rest = entry_of entries key in if same_key k key then some id else rest

unfoldable pub without_key : List (TurnKey × ℕ) → TurnKey → List (TurnKey × ℕ)
unfolding same_key
without_key [] key = []
without_key ((k, id) ∷ entries) key =
    let rest = without_key entries key in if same_key k key then rest else (k, id) ∷ rest

abbrev pub at_number {ℓ} : {A : Type ℓ} → (ℕ → A) → ℕ → A → ℕ → A
at_number f id a other = if id == other then a else f other

abbrev pub new_entry : TurnEntry
new_entry = record { next = 0; active = none; preparing = false; waiters = []; granted = none }

unfoldable pub refer : ActiveTurns → ℕ → ActiveTurns
refer t id = record t {
  heap = at_number t.heap id (record (t.heap id) { references = (t.heap id).references + 1 });
}

-- `acquireEntry`.
unfoldable pub acquire_entry : ActiveTurns → TurnKey → ℕ × ActiveTurns
unfolding entry_of refer
acquire_entry t key = elim (entry_of t.entries key) [
  | some id ↦ (id, refer t id)
  | none ↦ (
    t.fresh,
    record {
      entries = (key, t.fresh) ∷ t.entries;
      heap = at_number t.heap t.fresh (record { references = 1; entry = new_entry });
      fresh = t.fresh + 1;
      home = at_number t.home t.fresh key;
    },
  )
]

-- `findEntry`.
unfoldable pub find_entry : ActiveTurns → TurnKey → Option ℕ × ActiveTurns
unfolding entry_of refer
find_entry t key = elim (entry_of t.entries key) [
  | none ↦ (none, t)
  | some id ↦ (some id, refer t id)
]

unfoldable pub is_idle : Cell → Bool
is_idle c =
    c.references == 0 && is_none c.entry.active && not c.entry.preparing && is_empty c.entry.waiters

abbrev pub is_entry : Option ℕ → ℕ → Bool
is_entry none id = false
is_entry (some other) id = other == id

-- `cleanup`.
unfoldable pub cleanup : ActiveTurns → TurnKey → ℕ → ActiveTurns
unfolding entry_of is_idle without_key
cleanup t key id =
    if is_idle (t.heap id) && is_entry (entry_of t.entries key) id
    then record t { entries = without_key t.entries key }
    else t

-- `releaseEntry`: a reference less, and the entry leaves the table when it is idle.
unfoldable pub release_entry : ActiveTurns → TurnKey → ℕ → ActiveTurns
unfolding cleanup
release_entry t key id =
    cleanup
      (record t {
        heap = at_number t.heap id (record (t.heap id) { references = (t.heap id).references - 1 });
      })
      key id

-- The table and the calls that hold an entry.
pub record TableState : Type 0 where
  pub turns : ActiveTurns
  pub holders : List (TurnKey × ℕ)

abbrev pub holding : TurnKey → Option ℕ → List (TurnKey × ℕ) → List (TurnKey × ℕ)
holding key none holders = holders
holding key (some id) holders = (key, id) ∷ holders

-- The interleavings. The critical sections of the entry itself, which `Turns.Steps` describes, are run by
-- a call that holds it or by the turn that is active in it; what they make of the entry is arbitrary here.
pub data TableReach : TableState → Type 0 where
  no_entries :
      (home : ℕ → TurnKey)
      → TableReach (record {
        turns = record {
          entries = [];
          heap = λ id. record { references = 0; entry = new_entry };
          fresh = 0;
          home = home;
        };
        holders = [];
      })
  admits :
      (s : TableState) (key : TurnKey)
      → TableReach s
      → TableReach (record {
        turns = (acquire_entry s.turns key).1;
        holders = (key, (acquire_entry s.turns key).0) ∷ s.holders;
      })
  finds :
      (s : TableState) (key : TurnKey)
      → TableReach s
      → TableReach (record {
        turns = (find_entry s.turns key).1;
        holders = holding key (find_entry s.turns key).0 s.holders;
      })
  works :
      (s : TableState) (id : ℕ) (e : TurnEntry)
      → (is_none (s.turns.heap id).entry.active ≡ false) ⊎ ((s.turns.heap id).references ≢ 0)
      → TableReach s
      → TableReach (record s {
        turns = record (s.turns) {
          heap = at_number s.turns.heap id (record (s.turns.heap id) { entry = e });
        };
      })
  leaves :
      (turns : ActiveTurns) (before after : List (TurnKey × ℕ)) (key : TurnKey) (id : ℕ)
      → TableReach (record { turns = turns; holders = before ++ (key, id) ∷ after })
      → TableReach (record { turns = release_entry turns key id; holders = before ++ after })
  cleans :
      (s : TableState) (key : TurnKey) (id : ℕ)
      → TableReach s
      → TableReach (record s { turns = cleanup s.turns key id })

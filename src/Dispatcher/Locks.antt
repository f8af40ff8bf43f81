-- ===== src/Dispatcher/Locks.antt =====
-- `lockEvent` of internal/core/services/dispatcher.go and the function it returns, a critical section at a
-- time. A lock is its number in a heap; `fresh` is the number of the next lock that is made.
use eggy.Prelude.{
  ℕ, ◌+◌, ◌-◌, ◌≡◌, String, Bool, true, false, none, some, List, [], ◌∷◌, ◌++◌, ◌==◌, if◌then◌else◌,
}
use eggy.Prelude.Dict.{Dict, get, put, remove}

-- `eventLock`; `mu` says whether the mutex is locked.
pub record EventLock : Type 0 where
  pub mu : Bool
  pub references : ℕ

pub record Locks : Type 0 where
  pub locks : Dict ℕ
  pub heap : ℕ → EventLock
  pub fresh : ℕ

-- Where a call of `Handle` stands: it waits for the mutex of its lock, it handles the event, or it
-- has unlocked the mutex and still has its reference.
pub data Phase : Type 0 where
  waiting handling unlocked : Phase

pub record Handling : Type 0 where
  pub id : String
  pub lock : ℕ
  pub phase : Phase

abbrev pub set_lock : (ℕ → EventLock) → ℕ → EventLock → ℕ → EventLock
set_lock heap n lock other = if n == other then lock else heap other

-- The first critical section: the lock of the identifier, with a reference more.
unfoldable pub refer_lock : Locks → String → ℕ × Locks
refer_lock t id = elim (get t.locks id) [
  | some n ↦ (
    n,
    record t {
      heap = set_lock t.heap n (record (t.heap n) { references = (t.heap n).references + 1 });
    },
  )
  | none ↦ (
    t.fresh,
    record {
      locks = put t.locks id t.fresh;
      heap = set_lock t.heap t.fresh (record { mu = false; references = 1 });
      fresh = t.fresh + 1;
    },
  )
]

-- `lock.mu.Lock()` once it returns, and `lock.mu.Unlock()`.
unfoldable pub set_mu : Locks → ℕ → Bool → Locks
set_mu t n locked = record t { heap = set_lock t.heap n (record (t.heap n) { mu = locked }) }

-- The last critical section: a reference less, and the lock leaves the map with its last one.
unfoldable pub drop_lock : Locks → String → ℕ → Locks
drop_lock t id n =
    let left = (t.heap n).references - 1 in
    record t {
      locks = if left == 0 then remove t.locks id else t.locks;
      heap = set_lock t.heap n (record (t.heap n) { references = left });
    }

-- The locks and the calls of `Handle` between the first and the last critical section.
pub record LockState : Type 0 where
  pub table : Locks
  pub calls : List Handling

-- The interleavings of any number of calls.
pub data LockReach : LockState → Type 0 where
  no_locks :
      (heap : ℕ → EventLock)
      → LockReach (record { table = record { locks = []; heap = heap; fresh = 0 }; calls = [] })
  refers :
      (s : LockState) (id : String)
      → LockReach s
      → LockReach (record {
        table = (refer_lock s.table id).1;
        calls = record { id = id; lock = (refer_lock s.table id).0; phase = waiting } ∷ s.calls;
      })
  locks_mu :
      (table : Locks) (before after : List Handling) (id : String) (n : ℕ)
      → (table.heap n).mu ≡ false
      → LockReach (record {
        table = table;
        calls = before ++ record { id = id; lock = n; phase = waiting } ∷ after;
      })
      → LockReach (record {
        table = set_mu table n true;
        calls = before ++ record { id = id; lock = n; phase = handling } ∷ after;
      })
  unlocks_mu :
      (table : Locks) (before after : List Handling) (id : String) (n : ℕ)
      → LockReach (record {
        table = table;
        calls = before ++ record { id = id; lock = n; phase = handling } ∷ after;
      })
      → LockReach (record {
        table = set_mu table n false;
        calls = before ++ record { id = id; lock = n; phase = unlocked } ∷ after;
      })
  drops :
      (table : Locks) (before after : List Handling) (id : String) (n : ℕ)
      → LockReach (record {
        table = table;
        calls = before ++ record { id = id; lock = n; phase = unlocked } ∷ after;
      })
      → LockReach (record { table = drop_lock table id n; calls = before ++ after })

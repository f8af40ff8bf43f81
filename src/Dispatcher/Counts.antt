-- ===== src/Dispatcher/Counts.antt =====
-- What holds of the locks of internal/core/services/dispatcher.go in every reachable state.
use eggy.Prelude.{
  ℕ, ◌+◌, ◌<◌, ◌≡◌, ◌≢◌, String, Bool, true, false, some, List, [], ◌∷◌, ◌++◌, arith, str_eq,
  if◌then◌else◌, All,
}
use eggy.Prelude.Dict.{get}
use eggy.Dispatcher.Locks.{Locks, Phase, handling, Handling, LockState}

abbrev pub is_handling : Phase → ℕ
is_handling handling = 1
is_handling _ = 0

abbrev pub one_if : Bool → ℕ
one_if true = 1
one_if false = 0

-- The calls for an identifier, and those of them that handle the event.
unfoldable pub calls_for : String → List Handling → ℕ
calls_for id [] = 0
calls_for id (c ∷ l) = (if str_eq c.id id then 1 else 0) + calls_for id l

unfoldable pub handling_for : String → List Handling → ℕ
handling_for id [] = 0
handling_for id (c ∷ l) = (if str_eq c.id id then is_handling c.phase else 0) + handling_for id l

-- A lock of the map has a reference for each of its identifier's calls, and is locked by the one that
-- handles the event.
pub record Fits (t : Locks) (calls : List Handling) (id : String) (n : ℕ) : Type 0 where
  pub made : n < t.fresh
  pub counted : (t.heap n).references ≡ calls_for id calls
  pub needed : (t.heap n).references ≢ 0
  pub locked : one_if (t.heap n).mu ≡ handling_for id calls

pub record LocksInv (s : LockState) : Type 0 where
  pub held : All (λ c. get s.table.locks c.id ≡ some c.lock) s.calls
  pub fits : (id : String) (n : ℕ) → get s.table.locks id ≡ some n → Fits s.table s.calls id n
  pub apart :
      (a b : String) (n : ℕ) → get s.table.locks a ≡ some n → get s.table.locks b ≡ some n → a ≡ b

pub calls_for-append :
    (id : String) (l m : List Handling) → calls_for id (l ++ m) ≡ calls_for id l + calls_for id m
unfolding calls_for
calls_for-append id [] m = omega arith
calls_for-append id (c ∷ l) m = ground (arith, calls_for-append id l m)

pub handling_for-append :
    (id : String) (l m : List Handling)
    → handling_for id (l ++ m) ≡ handling_for id l + handling_for id m
unfolding handling_for
handling_for-append id [] m = omega arith
handling_for-append id (c ∷ l) m = ground (arith, handling_for-append id l m)

-- The calls on either side of one.
pub All-before :
    (P : Handling → Type 0) (l m : List Handling) (c : Handling)
    → All P (l ++ c ∷ m)
    → P c × All P (l ++ m)
All-before P [] m c h = h
All-before P (d ∷ l) m c h = let (here, rest) = All-before P l m c h.1 in (here, (h.0, rest))

pub All-insert :
    (P : Handling → Type 0) (l m : List Handling) (c : Handling)
    → P c
    → All P (l ++ m)
    → All P (l ++ c ∷ m)
All-insert P [] m c here h = (here, h)
All-insert P (d ∷ l) m c here h = (h.0, All-insert P l m c here h.1)

pub All-map :
    (P Q : Handling → Type 0) (l : List Handling) → ((c : Handling) → P c → Q c) → All P l → All Q l
All-map P Q [] f h = tt
All-map P Q (c ∷ l) f h = (f c h.0, All-map P Q l f h.1)

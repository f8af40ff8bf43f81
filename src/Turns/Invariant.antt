-- ===== src/Turns/Invariant.antt =====
-- What holds of an entry between any two critical sections, whatever interleaves.
use eggy.Prelude.{
  Bool, true, false, not, ◌≡◌, refl, Option, none, some, List, [], ◌∷◌, ◌++◌, arith, Bool-cases,
  inl, inr,
}
use eggy.Message.{Message}
use eggy.Turns.{Waiter, ActiveTurn, TurnEntry, is_none, blocked, grant_next, grant_head}
use eggy.Turns.Steps.{System, moved, init}

abbrev pub pending_of : Option ActiveTurn → List Message
pending_of none = []
pending_of (some a) = a.pending

-- The head of the queue, if there is one, is waiting for a turn that it cannot join.
abbrev pub HeadBlocked : Option ActiveTurn → List Waiter → Type 0
HeadBlocked a [] = Unit
HeadBlocked a (w ∷ _) = blocked a w ≡ true

-- The part of the invariant that is about admission.
pub record Admits (e : TurnEntry) : Type 0 where
  -- one waiter is granted exactly while something is preparing
  pub one_granted : is_none e.granted ≡ not e.preparing
  -- it was let in beside a running turn only as a steer that the turn takes
  pub granted_fits : (w : Waiter) → e.granted ≡ some w → blocked e.active w ≡ false
  -- nobody is left waiting for a wake-up that no one will send
  pub none_stranded : e.preparing ≡ false → HeadBlocked e.active e.waiters

pub record Inv (s : System) : Type 0 where
  pub admits : Admits s.entry
  -- what the granted waiter read is still so
  pub owner_holds : (b : Bool) → s.owner ≡ some b → is_none s.entry.active ≡ b
  pub owner_granted : (b : Bool) → s.owner ≡ some b → s.entry.preparing ≡ true
  -- the running turn is the latest one
  pub latest : (a : ActiveTurn) → s.entry.active ≡ some a → a.generation ≡ s.entry.next
  -- every accepted message was given back, in order, or is still pending
  pub kept : s.accepted ≡ s.delivered ++ pending_of s.entry.active

pub moved_injective : {s t : System} → moved s ≡ moved t → s ≡ t
moved_injective h = cc

grant_head-Admits :
    (e : TurnEntry) (ws : List Waiter)
    → e.waiters ≡ ws
    → e.preparing ≡ false
    → e.granted ≡ none
    → Admits (grant_head e ws)
unfolding grant_head blocked
grant_head-Admits e [] same p g = record {
  one_granted = ground arith;
  granted_fits = λ w h. ground arith;
  none_stranded = λ h. ground arith;
}
grant_head-Admits e (w ∷ ws) same p g = elim (Bool-cases (blocked e.active w)) [
  | inl waits ↦ record {
    one_granted = ground arith;
    granted_fits = λ w h. ground arith;
    none_stranded = λ h. ground arith;
  }
  | inr goes ↦ record {
    one_granted = ground arith;
    granted_fits = λ w h. ground arith;
    none_stranded = λ h. ground arith;
  }
]

-- After `grantNextLocked` admission is in order, if nothing was prepared or it was already.
pub grant_next-Admits :
    (e : TurnEntry)
    → is_none e.granted ≡ not e.preparing
    → ((w : Waiter) → e.granted ≡ some w → blocked e.active w ≡ false)
    → Admits (grant_next e)
unfolding grant_next
grant_next-Admits e one fits = elim (Bool-cases e.preparing) [
  | inl busy ↦ record {
    one_granted = ground arith;
    granted_fits = λ w h. ground (arith, fits w);
    none_stranded = λ h. ground arith;
  }
  | inr idle ↦ simp idle (grant_head-Admits e e.waiters refl idle (ground arith))
]

grant_head-frame :
    (e : TurnEntry) (ws : List Waiter)
    → ((grant_head e ws).active ≡ e.active) × ((grant_head e ws).next ≡ e.next)
unfolding grant_head
grant_head-frame e [] = (refl, refl)
grant_head-frame e (w ∷ ws) = ground arith

-- Granting changes no turn.
pub grant_next-frame :
    (e : TurnEntry) → ((grant_next e).active ≡ e.active) × ((grant_next e).next ≡ e.next)
unfolding grant_next
grant_next-frame e = ground (arith, grant_head-frame e e.waiters)

-- A granted waiter stays granted.
pub grant_next-busy : (e : TurnEntry) → e.preparing ≡ true → grant_next e ≡ e
unfolding grant_next
grant_next-busy e h = ground arith

pub init-Inv : Inv init
unfolding init
init-Inv = record {
  admits = record {
    one_granted = refl;
    granted_fits = λ w h. ground arith;
    none_stranded = λ h. tt;
  };
  owner_holds = λ b h. ground arith;
  owner_granted = λ b h. ground arith;
  latest = λ a h. ground arith;
  kept = refl;
}

-- The facts about turns only, for a step that grants.
pub grants :
    (s : System) (e : TurnEntry) (owner : Option Bool) (accepted delivered : List Message)
    → is_none e.granted ≡ not e.preparing
    → ((w : Waiter) → e.granted ≡ some w → blocked e.active w ≡ false)
    → ((b : Bool) → owner ≡ some b → (is_none e.active ≡ b) × (e.preparing ≡ true))
    → ((a : ActiveTurn) → e.active ≡ some a → a.generation ≡ e.next)
    → accepted ≡ delivered ++ pending_of e.active
    → Inv
        (record { entry = grant_next e; owner = owner; accepted = accepted; delivered = delivered })
grants s e owner accepted delivered one fits read latest kept =
    let (same_active, same_next) = grant_next-frame e in
    record {
      admits = grant_next-Admits e one fits;
      owner_holds = λ b h. rw same_active ((read b h).0);
      owner_granted = λ b h. rw (grant_next-busy e (read b h).1) ((read b h).1);
      latest = λ a h. rw same_next (latest a (rw same_active at h));
      kept = rw same_active kept;
    }

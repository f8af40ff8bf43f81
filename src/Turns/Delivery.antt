-- ===== src/Turns/Delivery.antt =====
-- What admission promises: no crash, one owner at a time, and no message lost or given twice.
use eggy.Prelude.{
  ℕ, ◌+◌, true, false, ◌≡◌, ◌≢◌, refl, Option, none, some, List, [], ◌∷◌, ◌++◌, arith, Option-cases,
  inl, inr,
}
use eggy.Turns.{ActiveTurn, Waiter, blocked, without}
use eggy.Store.{u64}
use eggy.Turns.Steps.{
  System, Action, moved, panic, publish, release_turn, arrive, give_up, abandon, read_owner,
  pending, stop_turn, step, Reach,
}
use eggy.Turns.Invariant.{HeadBlocked, grant_next-frame}
use eggy.Turns.Preserve.{Reach-Inv}

-- Whatever interleaves, no step of admission dereferences a turn that is gone.
pub step-ne-panic : {s : System} → Reach s → (a : Action) → step s a ≢ panic
unfolding step
step-ne-panic r (arrive w) h = cc
step-ne-panic r (give_up id) h = cc
step-ne-panic {s = s} r abandon h = ground arith
step-ne-panic {s = s} r read_owner h = ground arith
step-ne-panic {s = s} r publish h = elim (Option-cases s.owner) [
  | inl unread ↦ ground arith
  | inr (b, read) ↦ ground (arith, (Reach-Inv r).owner_holds b read)
]
step-ne-panic r (pending g) h = cc
step-ne-panic {s = s} r (release_turn g) h = ground arith
step-ne-panic {s = s} r stop_turn h = ground arith

-- When the running turn is released under its own generation, the messages that ever joined a turn
-- are those given back before, in order, followed by those that this turn still holds; and then all
-- of them have been given back, each once.
pub release-delivers_all :
    {s t : System} (a : ActiveTurn)
    → Reach s
    → s.entry.active ≡ some a
    → step s (release_turn a.generation) ≡ moved t
    → (s.accepted ≡ s.delivered ++ a.pending)
      × (t.accepted ≡ s.accepted)
      × (t.delivered ≡ t.accepted)
unfolding step
release-delivers_all {s = s} {t = t} a r running h = ground (arith, (Reach-Inv r).kept)

-- The turn that is being stopped is still the registered one, or none is.
abbrev pub StillStopping : ℕ → Option ActiveTurn → Type 0
StillStopping generation none = Unit
StillStopping generation (some b) = (b.generation ≡ generation) × (b.stopping ≡ true)

-- Once stopped, a turn takes no more messages, and until it is released no other turn replaces it.
pub stopping_takes_nothing :
    {s t : System} (a : ActiveTurn) (action : Action)
    → Reach s
    → s.entry.active ≡ some a
    → a.stopping ≡ true
    → step s action ≡ moved t
    → (t.accepted ≡ s.accepted) × StillStopping a.generation t.entry.active
unfolding step blocked
stopping_takes_nothing {s = s} a (arrive w) r running stopped h =
    ground (arith, grant_next-frame (record s.entry { waiters = s.entry.waiters ++ w ∷ [] }))
stopping_takes_nothing {s = s} a (give_up id) r running stopped h =
    ground (arith, grant_next-frame (record s.entry { waiters = without id s.entry.waiters }))
stopping_takes_nothing {s = s} a abandon r running stopped h =
    ground (arith, grant_next-frame (record s.entry { preparing = false; granted = none }))
stopping_takes_nothing {s = s} a read_owner r running stopped h = ground arith
stopping_takes_nothing {s = s} a publish r running stopped h = elim (Option-cases s.entry.granted) [
  | inl nobody ↦ absurd (ground arith)
  | inr (w, there) ↦ elim (Option-cases s.owner) [
    | inl unread ↦ absurd (ground arith)
    | inr (b, read) ↦ absurd (
        ground (arith, (Reach-Inv r).owner_holds b read, (Reach-Inv r).admits.granted_fits w there))
  ]
]
stopping_takes_nothing {s = s} a (pending g) r running stopped h = ground arith
stopping_takes_nothing {s = s} a (release_turn g) r running stopped h =
    ground (arith, grant_next-frame (record s.entry { active = none }))
stopping_takes_nothing {s = s} a stop_turn r running stopped h = ground arith

-- An `Admit` that is told it owns the turn registers it where none was running, under a generation
-- of its own and with nothing pending.
pub owner_alone :
    {s t : System}
    → Reach s
    → s.owner ≡ some true
    → step s publish ≡ moved t
    → (s.entry.active ≡ none)
      × ((a : ActiveTurn) × (t.entry.active ≡ some a)
          × (a.generation ≡ u64 (s.entry.next + 1))
          × (a.pending ≡ []))
unfolding step
owner_alone {s = s} {t = t} r owner h = elim (Option-cases s.entry.granted) [
  | inl nobody ↦ absurd (ground arith)
  | inr (w, there) ↦
      let a : ActiveTurn = record {
        generation = u64 (s.entry.next + 1);
        canceled = false;
        steerable = w.steerable;
        stopping = false;
        pending = [];
      } in
      (
        ground (arith, (Reach-Inv r).owner_holds true owner),
        (
          a,
          ground (
            arith,
            grant_next-frame (record s.entry {
              next = u64 (s.entry.next + 1);
              active = some a;
              preparing = false;
              granted = none;
            }),
          ),
          refl,
          refl,
        ),
      )
]

-- Whoever heads the queue behind a running turn is granted when that turn is released, before any
-- later arrival, and it alone leaves the queue.
pub release-grants_head :
    {s t : System} (a : ActiveTurn) (w : Waiter) (ws : List Waiter)
    → Reach s
    → s.entry.active ≡ some a
    → s.entry.waiters ≡ w ∷ ws
    → step s (release_turn a.generation) ≡ moved t
    → (t.entry.granted ≡ some w) × (t.entry.waiters ≡ ws) × (t.entry.preparing ≡ true)
unfolding step blocked
release-grants_head {s = s} {t = t} a w ws r running queue h = ground arith

-- Between critical sections, while nothing is preparing, the head of the queue is waiting for a
-- running turn that it cannot join: nobody waits for a grant that no one will give.
pub none_stranded :
    {s : System} → Reach s → s.entry.preparing ≡ false → HeadBlocked s.entry.active s.entry.waiters
none_stranded r quiet = (Reach-Inv r).admits.none_stranded quiet

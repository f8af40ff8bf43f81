-- ===== src/Turns/Preserve.antt =====
-- Every critical section of internal/core/services/turns.go keeps the invariant.
use eggy.Prelude.{
  ℕ, ◌+◌, true, false, ◌≡◌, refl, none, some, List, [], ◌∷◌, ◌++◌, arith, Bool-cases, Option-cases,
  inl, inr, ◌⊎◌, ◌==◌,
}
use eggy.Message.{Message}
use eggy.Turns.{Waiter, ActiveTurn, is_none, finish_preparation, as_user, blocked, without}
use eggy.Turns.Steps.{
  System, Action, arrive, give_up, abandon, read_owner, publish, pending, release_turn, stop_turn,
  moved, step, Reach, start, after,
}
use eggy.Store.{u64}
use eggy.Turns.Invariant.{Inv, HeadBlocked, grants, moved_injective, init-Inv}
use mathlib.Core.List.{append-nil, append_assoc}
use mathlib.Core.Path.{subst}

-- Draining a turn or stopping it lets nobody in.
HeadBlocked-change :
    (a b : ActiveTurn) (ws : List Waiter)
    → b.steerable ≡ a.steerable
    → (b.stopping ≡ a.stopping) ⊎ (b.stopping ≡ true)
    → HeadBlocked (some a) ws
    → HeadBlocked (some b) ws
unfolding blocked
HeadBlocked-change a b [] p q h = tt
HeadBlocked-change a b (w ∷ ws) p q h = ground arith

-- A step that replaces the running turn by one that takes no more, under the same generation.
replaces :
    (s : System) (a b : ActiveTurn) (delivered : List Message)
    → Inv s
    → s.entry.active ≡ some a
    → b.steerable ≡ a.steerable
    → (b.stopping ≡ a.stopping) ⊎ ((b.stopping ≡ true) × (s.entry.preparing ≡ false))
    → b.generation ≡ a.generation
    → s.accepted ≡ delivered ++ b.pending
    → Inv (record s { entry = record s.entry { active = some b }; delivered = delivered })
unfolding blocked
replaces s a b delivered i running p q g kept = record {
  admits = record {
    one_granted = i.admits.one_granted;
    granted_fits = λ w h. ground (arith, i.admits.granted_fits w h, i.admits.one_granted);
    none_stranded = λ h.
        HeadBlocked-change a b s.entry.waiters p (ground arith)
          (subst (λ x. HeadBlocked x s.entry.waiters) running (i.admits.none_stranded h));
  };
  owner_holds = λ o h. ground (arith, i.owner_holds o h);
  owner_granted = λ o h. i.owner_granted o h;
  latest = λ x h. ground (arith, i.latest a running);
  kept = kept;
}

arrive-Inv : (s t : System) (w : Waiter) → Inv s → step s (arrive w) ≡ moved t → Inv t
unfolding step
arrive-Inv s t w i h = subst Inv (moved_injective h) (
    grants s (record s.entry { waiters = s.entry.waiters ++ w ∷ [] }) s.owner s.accepted s.delivered
      i.admits.one_granted i.admits.granted_fits (λ b o. (i.owner_holds b o, i.owner_granted b o))
      i.latest i.kept)

give_up-Inv : (s t : System) (id : ℕ) → Inv s → step s (give_up id) ≡ moved t → Inv t
unfolding step
give_up-Inv s t id i h = subst Inv (moved_injective h) (
    grants s (record s.entry { waiters = without id s.entry.waiters }) s.owner s.accepted
      s.delivered i.admits.one_granted i.admits.granted_fits
      (λ b o. (i.owner_holds b o, i.owner_granted b o)) i.latest i.kept)

abandon-Inv : (s t : System) → Inv s → step s abandon ≡ moved t → Inv t
unfolding step
abandon-Inv s t i h = elim (Option-cases s.entry.granted) [
  | inl nobody ↦ absurd (ground arith)
  | inr (w, there) ↦
      subst Inv {x = record s { entry = finish_preparation s.entry; owner = none }} (ground arith) (
        grants s (record s.entry { preparing = false; granted = none }) none s.accepted s.delivered
          refl (λ w h. ground arith) (λ b h. ground arith) i.latest i.kept)
]

read_owner-Inv : (s t : System) → Inv s → step s read_owner ≡ moved t → Inv t
unfolding step
read_owner-Inv s t i h = elim (Option-cases s.entry.granted) [
  | inl nobody ↦ absurd (ground arith)
  | inr (w, there) ↦
      subst Inv {x = record s { owner = some (is_none s.entry.active) }} (ground arith) (record {
        admits = i.admits;
        owner_holds = λ b h. ground arith;
        owner_granted = λ b h. ground (arith, i.admits.one_granted);
        latest = i.latest;
        kept = i.kept;
      })
]

release-Inv : (s t : System) (g : ℕ) → Inv s → step s (release_turn g) ≡ moved t → Inv t
unfolding step
release-Inv s t g i h = elim (Option-cases s.entry.active) [
  | inl idle ↦ subst Inv {x = s} (ground (arith, append-nil s.delivered)) i
  | inr (a, running) ↦ elim (Bool-cases (a.generation == g)) [
    | inr stale ↦ subst Inv {x = s} (ground (arith, append-nil s.delivered)) i
    | inl own ↦ subst Inv (ground arith) (
        grants s (record s.entry { active = none }) s.owner s.accepted (s.delivered ++ a.pending)
          i.admits.one_granted (λ w h. refl) (λ b o. absurd (ground (arith, i.owner_granted b o)))
          (λ x h. ground arith) (rw append-nil (ground (arith, i.kept))))
  ]
]

pending-Inv : (s t : System) (g : ℕ) → Inv s → step s (pending g) ≡ moved t → Inv t
unfolding step
pending-Inv s t g i h = elim (Option-cases s.entry.active) [
  | inl idle ↦ subst Inv {x = s} (ground (arith, append-nil s.delivered)) i
  | inr (a, running) ↦ elim (Bool-cases (a.generation == g)) [
    | inr stale ↦ subst Inv {x = s} (ground (arith, append-nil s.delivered)) i
    | inl own ↦ subst Inv (ground arith) (
        replaces s a (record a { pending = [] }) (s.delivered ++ a.pending) i running refl
          (inl refl) refl (rw append-nil (ground (arith, i.kept))))
  ]
]

stop-Inv : (s t : System) → Inv s → step s stop_turn ≡ moved t → Inv t
unfolding step
stop-Inv s t i h = elim (Option-cases s.entry.active) [
  | inl idle ↦ subst Inv {x = s} (ground arith) i
  | inr (a, running) ↦ elim (Bool-cases a.stopping) [
    | inl already ↦ subst Inv {x = s} (ground arith) i
    | inr first ↦ subst Inv (ground arith) (
        replaces s a (record a { stopping = true; canceled = true }) s.delivered i running refl
          (inr (refl, ground arith)) refl (ground (arith, i.kept)))
  ]
]

publish-Inv : (s t : System) → Inv s → step s publish ≡ moved t → Inv t
unfolding step
publish-Inv s t i h = elim (Option-cases s.entry.granted) [
  | inl nobody ↦ absurd (ground arith)
  | inr (w, there) ↦ elim (Option-cases s.owner) [
    | inl unread ↦ absurd (ground arith)
    | inr (true, read) ↦ subst Inv (ground arith) (
        grants s
          (record s.entry {
            next = u64 (s.entry.next + 1);
            active = some (record {
              generation = u64 (s.entry.next + 1);
              canceled = false;
              steerable = w.steerable;
              stopping = false;
              pending = [];
            });
            preparing = false;
            granted = none;
          })
          none s.accepted s.delivered refl (λ x h. ground arith) (λ b h. ground arith)
          (λ a h. ground arith) (ground (arith, i.kept, i.owner_holds true read)))
    | inr (false, read) ↦ elim (Option-cases s.entry.active) [
      | inl idle ↦ absurd (ground (arith, i.owner_holds false read))
      | inr (a, running) ↦ subst Inv (ground arith) (
          grants s
            (record s.entry {
              active = some (record a { pending = a.pending ++ as_user w.message ∷ [] });
              preparing = false;
              granted = none;
            })
            none (s.accepted ++ as_user w.message ∷ []) s.delivered refl (λ x h. ground arith)
            (λ b h. ground arith) (λ x h. ground (arith, i.latest a running))
            (rw (← append_assoc) (ground (arith, i.kept))))
    ]
  ]
]

-- Every action keeps the invariant.
pub step-Inv : (s t : System) (a : Action) → Inv s → step s a ≡ moved t → Inv t
step-Inv s t (arrive w) i h = arrive-Inv s t w i h
step-Inv s t (give_up id) i h = give_up-Inv s t id i h
step-Inv s t abandon i h = abandon-Inv s t i h
step-Inv s t read_owner i h = read_owner-Inv s t i h
step-Inv s t publish i h = publish-Inv s t i h
step-Inv s t (pending g) i h = pending-Inv s t g i h
step-Inv s t (release_turn g) i h = release-Inv s t g i h
step-Inv s t stop_turn i h = stop-Inv s t i h

pub Reach-Inv : {s : System} → Reach s → Inv s
Reach-Inv start = init-Inv
Reach-Inv (after {s = s} {t = t} a r h) = step-Inv s t a (Reach-Inv r) h

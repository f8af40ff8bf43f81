-- ===== src/Turns/OneEntry.antt =====
-- At most one entry of a conversation is at work in the table of internal/core/services/turns.go.
use eggy.Prelude.{
  ℕ, ◌≡◌, ◌≢◌, ◌⊎◌, inl, inr, refl, sym, ap, ◌∙◌, false, List, [], ◌∷◌, ◌++◌, arith, Option-cases,
}
use eggy.Turns.{is_none}
use eggy.Turns.Table.{
  TurnKey, Cell, ActiveTurns, entry_of, new_entry, acquire_entry, find_entry, is_idle,
  release_entry, TableState, holding, TableReach, no_entries, admits, finds, works, leaves, cleans,
}
use eggy.Turns.Keys.{some-injective}
use eggy.Turns.Kept.{Inv, count, refer-Inv, works-Inv, cleanup-Inv}
use eggy.Turns.Made.{left-Inv, made-Inv}

acquire_entry-Inv :
    (s : TableState) (key : TurnKey)
    → Inv s
    → Inv (record {
      turns = (acquire_entry s.turns key).1;
      holders = (key, (acquire_entry s.turns key).0) ∷ s.holders;
    })
unfolding acquire_entry
acquire_entry-Inv s key i = elim (Option-cases (entry_of s.turns.entries key)) [
  | inl unknown ↦ rw (acquire_entry, unknown) (made-Inv s key unknown i)
  | inr (id, known) ↦ rw (acquire_entry, known) (refer-Inv s key id i known)
]

find_entry-Inv :
    (s : TableState) (key : TurnKey)
    → Inv s
    → Inv (record {
      turns = (find_entry s.turns key).1;
      holders = holding key (find_entry s.turns key).0 s.holders;
    })
unfolding find_entry
find_entry-Inv s key i = elim (Option-cases (entry_of s.turns.entries key)) [
  | inl unknown ↦
      rw (find_entry, unknown)
        (record { held = i.held; counted = i.counted; listed = i.listed; homed = i.homed })
  | inr (id, known) ↦ rw (find_entry, known) (refer-Inv s key id i known)
]

at_work : (c : Cell) → (is_none c.entry.active ≡ false) ⊎ (c.references ≢ 0) → is_idle c ≡ false
unfolding is_idle
at_work c (inl active) = ground (arith, active)
at_work c (inr referred) = ground (arith, referred)

no_entries-Inv :
    (home : ℕ → TurnKey)
    → Inv (record {
      turns = record {
        entries = [];
        heap = λ id. record { references = 0; entry = new_entry };
        fresh = 0;
        home = home;
      };
      holders = [];
    })
unfolding is_idle count entry_of
no_entries-Inv home = record {
  held = tt;
  counted = λ id. refl;
  listed = λ id working. absurd (ground (arith, working));
  homed = λ key id found. absurd (ground (arith, found));
}

release_entry-Inv :
    (t : ActiveTurns) (before after : List (TurnKey × ℕ)) (key : TurnKey) (id : ℕ)
    → Inv (record { turns = t; holders = before ++ (key, id) ∷ after })
    → Inv (record { turns = release_entry t key id; holders = before ++ after })
unfolding release_entry
release_entry-Inv t before after key id i = cleanup-Inv _ key id (left-Inv t before after key id i)

TableReach-Inv : (s : TableState) → TableReach s → Inv s
TableReach-Inv s (no_entries home) = no_entries-Inv home
TableReach-Inv s (admits t key r) = acquire_entry-Inv t key (TableReach-Inv t r)
TableReach-Inv s (finds t key r) = find_entry-Inv t key (TableReach-Inv t r)
TableReach-Inv s (works t id e may r) =
    works-Inv t id e (at_work (t.turns.heap id) may) (TableReach-Inv t r)
TableReach-Inv s (leaves turns before after key id r) =
    release_entry-Inv turns before after key id (TableReach-Inv _ r)
TableReach-Inv s (cleans t key id r) = cleanup-Inv t key id (TableReach-Inv t r)

-- In every state that calls of `Admit` and `Stop` can bring about, two entries that were made for the
-- same account and conversation and are both at work, that is, referred to, active, preparing or waited
-- for, are the same entry. So a conversation never has two turns active in entries of their own.
pub one_entry_at_work :
    (s : TableState) (a b : ℕ)
    → TableReach s
    → is_idle (s.turns.heap a) ≡ false
    → is_idle (s.turns.heap b) ≡ false
    → s.turns.home a ≡ s.turns.home b
    → a ≡ b
one_entry_at_work s a b r working working' same_home =
    let i = TableReach-Inv s r in
    some-injective a b (
      sym (i.listed a working)
      ∙ (ap (λ k. entry_of s.turns.entries k) same_home ∙ i.listed b working'))

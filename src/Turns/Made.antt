-- ===== src/Turns/Made.antt =====
-- A reference less and a new entry, in the table of internal/core/services/turns.go.
use mathlib.Core.Path.{subst}
use eggy.Prelude.{
  ℕ, ◌+◌, ◌-◌, ◌<◌, ◌≡◌, inl, inr, refl, sym, ap, ◌∙◌, false, none, some, List, [], ◌∷◌, ◌++◌, ◌==◌,
  ==_iff, if◌then◌else◌, arith, Bool-cases, All,
}
use eggy.Turns.Table.{TurnKey, ActiveTurns, same_key, entry_of, at_number, new_entry, TableState}
use eggy.Turns.Keys.{
  some-injective, same_key_iff, entry_of-new, entry_of-first, entry_of-rest, entry_of-old,
}
use eggy.Turns.Kept.{Inv, count}

-- The count of an entry's holders, and what is known of a holder among them.
pub count-middle :
    (before after : List (TurnKey × ℕ)) (key : TurnKey) (id j : ℕ)
    → count j (before ++ (key, id) ∷ after) ≡ (if id == j then 1 else 0) + count j (before ++ after)
unfolding count
count-middle [] after key id j = refl
count-middle ((k, n) ∷ before) after key id j = omega (arith, count-middle before after key id j)

pub count_here :
    (before after : List (TurnKey × ℕ)) (key : TurnKey) (id : ℕ)
    → count id (before ++ (key, id) ∷ after) ≡ 1 + count id (before ++ after)
count_here before after key id =
    ground (arith, count-middle before after key id id, (==_iff id id).1 refl)

pub count_elsewhere :
    (before after : List (TurnKey × ℕ)) (key : TurnKey) (id j : ℕ)
    → (id == j) ≡ false
    → count j (before ++ (key, id) ∷ after) ≡ count j (before ++ after)
count_elsewhere before after key id j apart =
    ground (arith, count-middle before after key id j, apart)

pub All-middle :
    (P : TurnKey × ℕ → Type 0) (before after : List (TurnKey × ℕ)) (h : TurnKey × ℕ)
    → All P (before ++ h ∷ after)
    → P h × All P (before ++ after)
All-middle P [] after h all = (all.0, all.1)
All-middle P (b ∷ before) after h all =
    let (here, rest) = All-middle P before after h all.1 in (here, (all.0, rest))

pub left-Inv :
    (t : ActiveTurns) (before after : List (TurnKey × ℕ)) (key : TurnKey) (id : ℕ)
    → Inv (record { turns = t; holders = before ++ (key, id) ∷ after })
    → Inv (record {
      turns = record t {
        heap = at_number t.heap id (record (t.heap id) { references = (t.heap id).references - 1 });
      };
      holders = before ++ after;
    })
left-Inv t before after key id i =
    let (known, rest) =
      All-middle (λ h. entry_of t.entries h.0 ≡ some h.1) before after (key, id) i.held in
    record {
      held = rest;
      counted = λ j. elim (Bool-cases (id == j)) [
        | inl same ↦ rw same (
            omega (
              arith,
              i.counted id,
              count_here before after key id,
              ap (λ n. count n (before ++ after)) ((==_iff id j).0 same),
            ))
        | inr apart ↦
            rw apart (omega (arith, i.counted j, count_elsewhere before after key id j apart))
      ];
      listed = λ j working. elim (Bool-cases (id == j)) [
        | inl same ↦
            subst (λ n. entry_of t.entries (t.home n) ≡ some n) ((==_iff id j).0 same)
              (ap (λ k. entry_of t.entries k) (i.homed key id known).0 ∙ known)
        | inr apart ↦ i.listed j (rw apart at working)
      ];
      homed = i.homed;
    }

pub held-more :
    (entries l : List (TurnKey × ℕ)) (key : TurnKey) (id : ℕ)
    → entry_of entries key ≡ none
    → All (λ h. entry_of entries h.0 ≡ some h.1) l
    → All (λ h. entry_of ((key, id) ∷ entries) h.0 ≡ some h.1) l
held-more entries [] key id unknown h = tt
held-more entries ((k, n) ∷ l) key id unknown h =
    (entry_of-old entries key k id n unknown h.0, held-more entries l key id unknown h.1)

-- No holder has an entry that is still to be made.
pub count-fresh :
    (t : ActiveTurns) (l : List (TurnKey × ℕ))
    → ((key : TurnKey) (id : ℕ)
        → entry_of t.entries key ≡ some id
        → (t.home id ≡ key) × (id < t.fresh))
    → All (λ h. entry_of t.entries h.0 ≡ some h.1) l
    → count t.fresh l ≡ 0
unfolding count
count-fresh t [] homed h = refl
count-fresh t ((k, n) ∷ l) homed h =
    let older = (homed k n h.0).1 in ground (arith, older, count-fresh t l homed h.1)

pub made-Inv :
    (s : TableState) (key : TurnKey)
    → entry_of s.turns.entries key ≡ none
    → Inv s
    → Inv (record {
      turns = record {
        entries = (key, s.turns.fresh) ∷ s.turns.entries;
        heap = at_number s.turns.heap s.turns.fresh (record { references = 1; entry = new_entry });
        fresh = s.turns.fresh + 1;
        home = at_number s.turns.home s.turns.fresh key;
      };
      holders = (key, s.turns.fresh) ∷ s.holders;
    })
made-Inv s key unknown i = record {
  held = (entry_of-new entries key fresh, held-more entries s.holders key fresh unknown i.held);
  counted = λ j. elim (Bool-cases (fresh == j)) [
    | inl same ↦
        unfold count in
        rw same (omega (arith, none_yet, ap (λ n. count n s.holders) ((==_iff fresh j).0 same)))
    | inr apart ↦ unfold count in rw apart (omega (arith, i.counted j))
  ];
  listed = λ j working. elim (Bool-cases (fresh == j)) [
    | inl same ↦
        rw same (entry_of-new entries key fresh ∙ ap (λ n. some n) ((==_iff fresh j).0 same))
    | inr apart ↦ rw apart (
        entry_of-old entries key (s.turns.home j) fresh j unknown
          (i.listed j (rw apart at working)))
  ];
  homed = λ other j found. elim (Bool-cases (same_key key other)) [
    | inl same ↦
        let newest : fresh ≡ j =
          some-injective fresh j (sym (entry_of-first entries key other fresh same) ∙ found) in
        (rw ((==_iff fresh j).1 newest) ((same_key_iff key other).0 same), omega (arith, newest))
    | inr apart ↦
        let (home, older) =
          i.homed other j (sym (entry_of-rest entries key other fresh apart) ∙ found) in
        let elsewhere : (fresh == j) ≡ false = ground (arith, older) in
        (rw elsewhere home, omega (arith, older))
  ];
}
  where
    entries : List (TurnKey × ℕ)
    entries = s.turns.entries

    fresh : ℕ
    fresh = s.turns.fresh

    none_yet : count fresh s.holders ≡ 0
    none_yet = count-fresh s.turns s.holders i.homed i.held

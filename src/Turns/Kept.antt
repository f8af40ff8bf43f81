-- ===== src/Turns/Kept.antt =====
-- What holds of the table of internal/core/services/turns.go, and is kept by a reference more, by work on
-- an entry and by a clean-up.
use mathlib.Core.Path.{subst}
use eggy.Prelude.{
  ℕ, ◌+◌, ◌<◌, ◌≡◌, ◌≢◌, ◌⊎◌, inl, inr, refl, sym, ap, ◌∙◌, true, false, ◌&&◌, Option, none, some,
  List, [], ◌∷◌, ◌==◌, ==_iff, if◌then◌else◌, arith, Bool-cases, All,
}
use eggy.Turns.{TurnEntry}
use eggy.Turns.Table.{
  TurnKey, ActiveTurns, same_key, entry_of, without_key, at_number, refer, is_idle, is_entry,
  cleanup, TableState,
}
use eggy.Turns.Keys.{some-injective, same_key_iff, entry_of-without_key}

unfoldable pub count : ℕ → List (TurnKey × ℕ) → ℕ
count id [] = 0
count id ((k, other) ∷ l) = (if other == id then 1 else 0) + count id l

-- What holds of the table in every reachable state.
pub record Inv (s : TableState) : Type 0 where
  pub held : All (λ h. entry_of s.turns.entries h.0 ≡ some h.1) s.holders
  pub counted : (id : ℕ) → (s.turns.heap id).references ≡ count id s.holders
  pub listed :
      (id : ℕ)
      → is_idle (s.turns.heap id) ≡ false
      → entry_of s.turns.entries (s.turns.home id) ≡ some id
  pub homed :
      (key : TurnKey) (id : ℕ)
      → entry_of s.turns.entries key ≡ some id
      → (s.turns.home id ≡ key) × (id < s.turns.fresh)

pub known-home :
    (s : TableState) (key : TurnKey) (id : ℕ)
    → Inv s
    → entry_of s.turns.entries key ≡ some id
    → entry_of s.turns.entries (s.turns.home id) ≡ some id
known-home s key id i known = ap (λ k. entry_of s.turns.entries k) (i.homed key id known).0 ∙ known

-- A key that is known gets a holder of its entry.
pub refer-Inv :
    (s : TableState) (key : TurnKey) (id : ℕ)
    → Inv s
    → entry_of s.turns.entries key ≡ some id
    → Inv (record { turns = refer s.turns id; holders = (key, id) ∷ s.holders })
unfolding refer count
refer-Inv s key id i known = record {
  held = (known, i.held);
  counted = λ j. elim (Bool-cases (id == j)) [
    | inl same ↦
        rw same (omega (arith, i.counted id, ap (λ n. count n s.holders) ((==_iff id j).0 same)))
    | inr apart ↦ rw apart (omega (arith, i.counted j))
  ];
  listed = λ j working. elim (Bool-cases (id == j)) [
    | inl same ↦
        subst (λ n. entry_of s.turns.entries (s.turns.home n) ≡ some n) ((==_iff id j).0 same)
          (known-home s key id i known)
    | inr apart ↦ i.listed j (rw apart at working)
  ];
  homed = i.homed;
}

pub works-Inv :
    (s : TableState) (id : ℕ) (e : TurnEntry)
    → is_idle (s.turns.heap id) ≡ false
    → Inv s
    → Inv (record s {
      turns = record (s.turns) {
        heap = at_number s.turns.heap id (record (s.turns.heap id) { entry = e });
      };
    })
works-Inv s id e busy i = record {
  held = i.held;
  counted = λ j. elim (Bool-cases (id == j)) [
    | inl same ↦ rw same (i.counted id ∙ ap (λ n. count n s.holders) ((==_iff id j).0 same))
    | inr apart ↦ rw apart (i.counted j)
  ];
  listed = λ j working. elim (Bool-cases (id == j)) [
    | inl same ↦
        subst (λ n. entry_of s.turns.entries (s.turns.home n) ≡ some n) ((==_iff id j).0 same)
          (i.listed id busy)
    | inr apart ↦ i.listed j (rw apart at working)
  ];
  homed = i.homed;
}

pub held-kept :
    (entries l : List (TurnKey × ℕ)) (key : TurnKey) (id : ℕ)
    → entry_of entries key ≡ some id
    → count id l ≡ 0
    → All (λ h. entry_of entries h.0 ≡ some h.1) l
    → All (λ h. entry_of (without_key entries key) h.0 ≡ some h.1) l
unfolding count
held-kept entries [] key id known none_held h = tt
held-kept entries ((k, j) ∷ l) key id known none_held h = (
  elim (Bool-cases (same_key key k)) [
    | inr apart ↦ entry_of-without_key entries key k ∙ rw apart h.0
    | inl same ↦
        let both : some id ≡ some j =
          sym known ∙ (ap (λ x. entry_of entries x) ((same_key_iff key k).0 same) ∙ h.0) in
        absurd (ground (arith, both, none_held))
  ],
  held-kept entries l key id known (ground (arith, none_held)) h.1,
)

pub idle_apart :
    (s : TableState) (a b : ℕ)
    → a ≡ b
    → is_idle (s.turns.heap a) ≡ true
    → is_idle (s.turns.heap b) ≢ false
idle_apart s a b same rest working =
    absurd (ground (arith, rest, working, ap (λ n. is_idle (s.turns.heap n)) same))

pub is_entry-eq : (o : Option ℕ) (id : ℕ) → is_entry o id ≡ true → o ≡ some id
is_entry-eq none id h = absurd (ground (arith, h))
is_entry-eq (some n) id h = ap (λ m. some m) ((==_iff n id).0 h)

pub cleaned-Inv :
    (s : TableState) (key : TurnKey) (id : ℕ)
    → is_idle (s.turns.heap id) ≡ true
    → entry_of s.turns.entries key ≡ some id
    → Inv s
    → Inv (record s { turns = record (s.turns) { entries = without_key s.turns.entries key } })
unfolding is_idle
cleaned-Inv s key id idle known i = record {
  held =
      held-kept s.turns.entries s.holders key id known (sym (i.counted id) ∙ ground (arith, idle))
        i.held;
  counted = i.counted;
  listed = λ j working.
      entry_of-without_key s.turns.entries key (s.turns.home j)
      ∙ rw (still j working) (i.listed j working);
  homed = λ other j found. i.homed other j (kept other j found);
}
  where
    still : (j : ℕ) → is_idle (s.turns.heap j) ≡ false → same_key key (s.turns.home j) ≡ false
    still j working = elim (Bool-cases (same_key key (s.turns.home j))) [
      | inr apart ↦ apart
      | inl same ↦
          let both : some id ≡ some j =
            sym known
            ∙ (ap (λ x. entry_of s.turns.entries x) ((same_key_iff key (s.turns.home j)).0 same)
                ∙ i.listed j working) in
          absurd (idle_apart s id j (some-injective id j both) idle working)
    ]

    kept :
        (other : TurnKey) (j : ℕ)
        → entry_of (without_key s.turns.entries key) other ≡ some j
        → entry_of s.turns.entries other ≡ some j
    kept other j found = elim (Bool-cases (same_key key other)) [
      | inl same ↦
          absurd (ground (arith, found, same, entry_of-without_key s.turns.entries key other))
      | inr apart ↦ sym (entry_of-without_key s.turns.entries key other ∙ rw apart refl) ∙ found
    ]

pub cleanup-cases :
    (t : ActiveTurns) (key : TurnKey) (id : ℕ)
    → (cleanup t key id ≡ t)
      ⊎ ((is_idle (t.heap id) ≡ true)
          × ((entry_of t.entries key ≡ some id)
              × (cleanup t key id ≡ record t { entries = without_key t.entries key })))
unfolding cleanup
cleanup-cases t key id =
    elim (Bool-cases (is_idle (t.heap id) && is_entry (entry_of t.entries key) id)) [
      | inr kept ↦ rw (cleanup, kept) (inl refl)
      | inl gone ↦ inr (
        ground (arith, gone),
        (is_entry-eq (entry_of t.entries key) id (ground (arith, gone)), rw (cleanup, gone) refl),
      )
    ]

pub cleanup-Inv :
    (s : TableState) (key : TurnKey) (id : ℕ)
    → Inv s
    → Inv (record s { turns = cleanup s.turns key id })
cleanup-Inv s key id i = elim (cleanup-cases s.turns key id) [
  | inl same ↦ subst (λ t. Inv (record s { turns = t })) (sym same) i
  | inr (idle, (known, gone)) ↦
      subst (λ t. Inv (record s { turns = t })) (sym gone) (cleaned-Inv s key id idle known i)
]

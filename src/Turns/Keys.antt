-- ===== src/Turns/Keys.antt =====
-- The keys of the table of internal/core/services/turns.go.
use eggy.Prelude.{
  ℕ, ◌≡◌, ◌↔◌, inl, inr, refl, sym, ap, ◌∙◌, Bool, true, false, ◌&&◌, Option, none, some, List, [],
  ◌∷◌, eq_iff, if◌then◌else◌, arith, Bool-cases,
}
use eggy.Turns.Table.{TurnKey, same_key, entry_of, without_key}

pub some-injective : (a b : ℕ) → some a ≡ some b → a ≡ b
some-injective a b h = ap (λ o. elim o [ none ↦ a | some n ↦ n ]) h

pub same_key_iff : (k j : TurnKey) → (same_key k j ≡ true) ↔ (k ≡ j)
unfolding same_key
same_key_iff k j = (to, from)
  where
    to : same_key k j ≡ true → k ≡ j
    to h = λ i. record { account = accounts i; conversation = conversations i }
      where
        accounts : k.account ≡ j.account
        accounts = (eq_iff k.account j.account).0 (ground (arith, h))

        conversations : k.conversation ≡ j.conversation
        conversations = (eq_iff k.conversation j.conversation).0 (ground (arith, h))

    from : k ≡ j → same_key k j ≡ true
    from h = ground (
      arith,
      eq_iff k.account j.account,
      eq_iff k.conversation j.conversation,
      ap (λ x. x.account) h,
      ap (λ x. x.conversation) h,
    )

pub twice :
    (b : Bool) (id : ℕ) (o : Option ℕ)
    → (if b then none else o) ≡ (if b then none else if b then some id else o)
twice true id o = refl
twice false id o = refl

pub swap :
    (b c : Bool) (id : ℕ) (o : Option ℕ)
    → (b && c) ≡ false
    → (if b then some id else if c then none else o)
      ≡ (if c then none else if b then some id else o)
swap true true id o h = absurd (ground arith)
swap true false id o h = refl
swap false c id o h = refl

pub apart_both :
    (k key other : TurnKey)
    → same_key k key ≡ false
    → (same_key k other && same_key key other) ≡ false
apart_both k key other apart = elim (Bool-cases (same_key k other && same_key key other)) [
  | inr no_both ↦ no_both
  | inl both ↦
      let first = (same_key_iff k other).0 (ground (arith, both)) in
      let second = (same_key_iff key other).0 (ground (arith, both)) in
      absurd (ground (arith, apart, (same_key_iff k key).1 (first ∙ sym second)))
]

pub entry_of-without_key :
    (entries : List (TurnKey × ℕ)) (key other : TurnKey)
    → entry_of (without_key entries key) other
      ≡ (if same_key key other then none else entry_of entries other)
unfolding entry_of without_key
entry_of-without_key [] key other = ground arith
entry_of-without_key ((k, id) ∷ entries) key other = elim (Bool-cases (same_key k key)) [
  | inl same ↦
      let equal = (same_key_iff k key).0 same in
      rw (same, entry_of-without_key entries key other, ap (λ x. same_key x other) equal)
        (twice (same_key key other) id (entry_of entries other))
  | inr apart ↦
      rw (apart, entry_of-without_key entries key other)
        (swap (same_key k other) (same_key key other) id (entry_of entries other)
          (apart_both k key other apart))
]

-- A new entry under a key that is not there changes nothing for the others.
pub entry_of-new :
    (entries : List (TurnKey × ℕ)) (key : TurnKey) (id : ℕ)
    → entry_of ((key, id) ∷ entries) key ≡ some id
unfolding entry_of
entry_of-new entries key id = rw ((same_key_iff key key).1 refl) refl

pub entry_of-first :
    (entries : List (TurnKey × ℕ)) (key other : TurnKey) (id : ℕ)
    → same_key key other ≡ true
    → entry_of ((key, id) ∷ entries) other ≡ some id
unfolding entry_of
entry_of-first entries key other id same = rw same refl

pub entry_of-rest :
    (entries : List (TurnKey × ℕ)) (key other : TurnKey) (id : ℕ)
    → same_key key other ≡ false
    → entry_of ((key, id) ∷ entries) other ≡ entry_of entries other
unfolding entry_of
entry_of-rest entries key other id apart = rw apart refl

pub entry_of-old :
    (entries : List (TurnKey × ℕ)) (key other : TurnKey) (id n : ℕ)
    → entry_of entries key ≡ none
    → entry_of entries other ≡ some n
    → entry_of ((key, id) ∷ entries) other ≡ some n
unfolding entry_of
entry_of-old entries key other id n unknown known = elim (Bool-cases (same_key key other)) [
  | inr apart ↦ rw apart known
  | inl same ↦ absurd (
      ground
        (arith, known, unknown, ap (λ k. entry_of entries k) ((same_key_iff key other).0 same)))
]

-- ===== src/Loop/Offered.antt =====
-- What a turn is shown under an allowlist, against what its allowlist grants.
use eggy.Prelude.{
  ℕ, Bool, true, false, Option, none, some, List, [], ◌∷◌, ◌++◌, ◌≡◌, ◌≢◌, ◌↔◌, ◌⊎◌, inl, inr, refl,
  sym, ap, ◌∙◌, ==_iff, arith, Bool-cases, Option-cases,
}
use eggy.Prelude.Result.{Result}
use eggy.Text.{is_empty}
use eggy.Loop.{
  LoopTool, same_text, grants, cut_prefix, scope, action_granted, allowed_actions, shown_under,
  shown, allows_call, call_action, insert_text,
}

pub same_text_iff : (s t : List ℕ) → (same_text s t ≡ true) ↔ (s ≡ t)
unfolding same_text
same_text_iff [] [] = ground arith
same_text_iff [] (d ∷ t) = ground arith
same_text_iff (c ∷ s) [] = ground arith
same_text_iff (c ∷ s) (d ∷ t) = ground (arith, ==_iff c d, same_text_iff s t)

cut_prefix-append : (p a : List ℕ) → cut_prefix (p ++ a) p ≡ some a
unfolding cut_prefix
cut_prefix-append [] [] = refl
cut_prefix-append [] (c ∷ a) = refl
cut_prefix-append (d ∷ p) a = ground (arith, cut_prefix-append p a)

pub cut_prefix-eq : (s p a : List ℕ) → cut_prefix s p ≡ some a → s ≡ p ++ a
unfolding cut_prefix
cut_prefix-eq [] [] a h = ground arith
cut_prefix-eq (c ∷ s) [] a h = ground arith
cut_prefix-eq [] (d ∷ p) a h = absurd (ground arith)
cut_prefix-eq (c ∷ s) (d ∷ p) a h = ground (arith, cut_prefix-eq s p a)

some-ne-none : (a : List ℕ) → some a ≢ none
some-ne-none a h = cc

-- The allowlist grants the whole tool, or an action of it.
abbrev pub GrantsSome : List (List ℕ × Bool) → List ℕ → Type 0
GrantsSome entries name =
    (grants entries name ≡ true)
    ⊎ ((a : List ℕ) × ((is_empty a ≡ false) × (grants entries (scope name ++ a) ≡ true)))

insert_text-ne-nil : (s : List ℕ) (l : List (List ℕ)) → is_empty (insert_text s l) ≡ false
unfolding insert_text
insert_text-ne-nil s [] = refl
insert_text-ne-nil s (t ∷ l) = ground arith

action_granted-some :
    (name entry a : List ℕ) (allowed : Bool)
    → action_granted name (entry, allowed) ≡ some a
    → (allowed ≡ true) × ((is_empty a ≡ false) × (entry ≡ scope name ++ a))
unfolding action_granted
action_granted-some name entry a allowed h = elim (Option-cases (cut_prefix entry (scope name))) [
  | inl other ↦ absurd (ground (arith, other, h))
  | inr (b, cut) ↦
      let whole = cut_prefix-eq entry (scope name) b cut in
      let same : b ≡ a = ground (arith, cut, h) in
      (ground (arith, cut, h), (ground (arith, cut, h), whole ∙ ap (λ x. scope name ++ x) same))
]

action_granted-scope :
    (name a : List ℕ) → is_empty a ≡ false → action_granted name (scope name ++ a, true) ≡ some a
unfolding action_granted
action_granted-scope name a some_action =
    rw (action_granted, cut_prefix-append (scope name) a) (ground (arith, some_action))

-- An action is listed only if an entry grants it, and a granted one makes the list not empty.
allowed_actions-granted :
    (entries : List (List ℕ × Bool)) (name : List ℕ)
    → is_empty (allowed_actions entries name) ≡ false
    → (a : List ℕ) × ((is_empty a ≡ false) × (grants entries (scope name ++ a) ≡ true))
unfolding allowed_actions action_granted grants
allowed_actions-granted [] name h = absurd (ground arith)
allowed_actions-granted ((entry, allowed) ∷ l) name h =
    elim (Option-cases (action_granted name (entry, allowed))) [
      | inl nothing ↦
          let (a, (some_action, granted)) =
            allowed_actions-granted l name (ground (arith, nothing, h)) in
          (a, (some_action, ground (arith, granted)))
      | inr (action, granted) ↦
          let (yes_granted, (some_action, whole)) =
            action_granted-some name entry action allowed granted in
          (
            action,
            (
              some_action,
              ground (arith, yes_granted, same_text_iff entry (scope name ++ action), whole),
            ),
          )
    ]

granted-allowed_actions :
    (entries : List (List ℕ × Bool)) (name a : List ℕ)
    → is_empty a ≡ false
    → grants entries (scope name ++ a) ≡ true
    → is_empty (allowed_actions entries name) ≡ false
unfolding allowed_actions action_granted grants
granted-allowed_actions [] name a some_action h = absurd (ground arith)
granted-allowed_actions ((entry, allowed) ∷ l) name a some_action h =
    elim (Option-cases (action_granted name (entry, allowed))) [
      | inr (action, granted) ↦
          ground (arith, granted, insert_text-ne-nil action (allowed_actions l name))
      | inl nothing ↦ elim (Bool-cases (grants l (scope name ++ a))) [
        | inl below ↦ ground (arith, nothing, granted-allowed_actions l name a some_action below)
        | inr elsewhere ↦
            let yes_granted : allowed ≡ true = ground (arith, elsewhere, h) in
            let whole : entry ≡ scope name ++ a =
              (same_text_iff entry (scope name ++ a)).0 (ground (arith, elsewhere, h)) in
            absurd (
              some-ne-none a (
                sym (action_granted-scope name a some_action)
                ∙ (ap (λ x. action_granted name x) (λ i. (sym whole i, sym yes_granted i))
                    ∙ nothing)))
      ]
    ]

abbrev pub is_shown {ℓ} : {A : Type ℓ} → Option A → Bool
is_shown none = false
is_shown (some _) = true

-- Under an allowlist a tool is shown to the model exactly when the allowlist grants it by its name, or
-- grants some action of it that is not empty.
pub shown-GrantsSome :
    (entries : List (List ℕ × Bool)) (t : LoopTool)
    → (is_shown (shown (some entries) t) ≡ true) ↔ GrantsSome entries t.definition.name
unfolding shown_under shown
shown-GrantsSome entries t = (to, from)
  where
    to : is_shown (shown (some entries) t) ≡ true → GrantsSome entries t.definition.name
    to h = elim (Bool-cases (grants entries t.definition.name)) [
      | inl whole ↦ inl whole
      | inr part ↦ inr (allowed_actions-granted entries t.definition.name (ground (arith, part, h)))
    ]

    from : GrantsSome entries t.definition.name → is_shown (shown (some entries) t) ≡ true
    from (inl whole) = ground (arith, whole)
    from (inr (a, (some_action, granted))) =
        ground (arith, granted-allowed_actions entries t.definition.name a some_action granted)

-- A call that is allowed is of a tool that the model was shown, unless there is no allowlist and the
-- tool is scoped to another kind of turn.
pub allowed_call-shown :
    (action_of : List ℕ → Result (List ℕ)) (allowed : Option (List (List ℕ × Bool))) (t : LoopTool)
    (arguments : List ℕ)
    → allows_call action_of allowed t.definition.name arguments ≡ true
    → (is_shown (shown allowed t) ≡ true) ⊎ ((allowed ≡ none) × (t.definition.turn_scoped ≡ true))
unfolding allows_call
allowed_call-shown action_of none t arguments h = unfold shown in ground arith
allowed_call-shown action_of (some entries) t arguments h =
    let name = t.definition.name in
    let action = call_action action_of arguments in
    inl (
      (shown-GrantsSome entries t).1 (elim (Bool-cases (grants entries name)) [
        | inl whole ↦ inl whole
        | inr part ↦ inr (action, (ground (arith, part, h), ground (arith, part, h)))
      ]))

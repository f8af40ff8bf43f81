-- ===== src/Registry/Supply.antt =====
-- What a provider of internal/core/services/tools.go supplies to the catalog.
use mathlib.Core.Path.{subst}
use eggy.Prelude.{
  ℕ, ◌≡◌, inl, inr, refl, sym, ap, ◌∙◌, Bool, true, false, ◌||◌, Option, none, some, List, [], ◌∷◌,
  arith, Bool-cases,
}
use eggy.Text.{is_empty}
use eggy.Loop.{LoopTool, same_text, find_tool}
use eggy.Loop.Offered.{same_text_iff}
use eggy.Registry.Sorted.{Distinct, same_text_refl}
use eggy.Registry.{has_name, supply}

-- None of the tools has a name that is taken.
abbrev pub Clear : List (List ℕ) → List LoopTool → Type 0
Clear taken l = (name : List ℕ) → has_name taken name ≡ true → find_tool l name ≡ none

supply-skip :
    (taken : List (List ℕ)) (t : LoopTool) (l : List LoopTool)
    → (is_empty t.definition.name || has_name taken t.definition.name) ≡ true
    → supply taken (t ∷ l) ≡ supply taken l
unfolding supply
supply-skip taken t l h = rw (supply, h) refl

supply-take :
    (taken : List (List ℕ)) (t : LoopTool) (l : List LoopTool)
    → (is_empty t.definition.name || has_name taken t.definition.name) ≡ false
    → supply taken (t ∷ l)
      ≡ (t ∷ (supply (t.definition.name ∷ taken) l).0, (supply (t.definition.name ∷ taken) l).1)
unfolding supply
supply-take taken t l h = rw (supply, h) refl

-- A name that is taken is not supplied again.
taken_first :
    (taken : List (List ℕ)) (t : LoopTool) (l : List LoopTool) (name : List ℕ)
    → has_name taken t.definition.name ≡ false
    → has_name taken name ≡ true
    → find_tool l name ≡ none
    → find_tool (t ∷ l) name ≡ none
unfolding find_tool
taken_first taken t l name free h rest = elim (Bool-cases (same_text t.definition.name name)) [
  | inl same ↦ absurd (
      ground (
        arith,
        h,
        free,
        ap (λ n. has_name taken n) ((same_text_iff t.definition.name name).0 same),
      ))
  | inr different ↦ rw different rest
]

pub supply-Clear : (taken : List (List ℕ)) (l : List LoopTool) → Clear taken (supply taken l).0
unfolding supply has_name find_tool
supply-Clear taken [] name h = refl
supply-Clear taken (t ∷ l) name h =
    elim (Bool-cases (is_empty t.definition.name || has_name taken t.definition.name)) [
      | inl skipped ↦
          ap (λ p. find_tool p.0 name) (supply-skip taken t l skipped) ∙ supply-Clear taken l name h
      | inr free ↦
          ap (λ p. find_tool p.0 name) (supply-take taken t l free)
          ∙ taken_first taken t (supply (t.definition.name ∷ taken) l).0 name (ground (arith, free))
              h (supply-Clear (t.definition.name ∷ taken) l name (ground (arith, h)))
    ]

pub supply-Distinct : (taken : List (List ℕ)) (l : List LoopTool) → Distinct (supply taken l).0
unfolding supply has_name
supply-Distinct taken [] = tt
supply-Distinct taken (t ∷ l) =
    elim (Bool-cases (is_empty t.definition.name || has_name taken t.definition.name)) [
      | inl skipped ↦
          subst (λ p. Distinct p.0) (sym (supply-skip taken t l skipped)) (supply-Distinct taken l)
      | inr free ↦
          subst (λ p. Distinct p.0) (sym (supply-take taken t l free))
            (
              supply-Clear (t.definition.name ∷ taken) l t.definition.name
                  (ground (arith, same_text_refl t.definition.name)),
              supply-Distinct (t.definition.name ∷ taken) l,
            )
    ]

abbrev pub is_some : Option LoopTool → Bool
is_some none = false
is_some (some _) = true

-- The names that are taken after a provider are those from before and those that it supplied.
pub supply-after :
    (taken : List (List ℕ)) (l : List LoopTool) (name : List ℕ)
    → has_name (supply taken l).1 name
      ≡ (has_name taken name || is_some (find_tool (supply taken l).0 name))
unfolding supply has_name find_tool
supply-after taken [] name = ground arith
supply-after taken (t ∷ l) name =
    elim (Bool-cases (is_empty t.definition.name || has_name taken t.definition.name)) [
      | inl skipped ↦
          subst (λ p. has_name p.1 name ≡ (has_name taken name || is_some (find_tool p.0 name)))
            (sym (supply-skip taken t l skipped)) (supply-after taken l name)
      | inr free ↦
          subst (λ p. has_name p.1 name ≡ (has_name taken name || is_some (find_tool p.0 name)))
            (sym (supply-take taken t l free))
            (ground (arith, supply-after (t.definition.name ∷ taken) l name))
    ]

-- ===== src/Registry/Sorted.antt =====
-- Tools with distinct names, and the sorting of internal/core/services/tools.go.
use eggy.Prelude.{
  ℕ, ◌≡◌, inl, inr, refl, sym, ap, ◌∙◌, true, Option, none, some, List, [], ◌∷◌, ◌++◌,
  if◌then◌else◌, arith, Bool-cases,
}
use eggy.Loop.{LoopTool, same_text, find_tool, before_text}
use eggy.Loop.Offered.{same_text_iff}
use eggy.Registry.{insert_tool, sorted_tools}

-- No two tools have the same name.
abbrev pub Distinct : List LoopTool → Type 0
Distinct [] = Unit
Distinct (t ∷ l) = (find_tool l t.definition.name ≡ none) × Distinct l

pub same_text_refl : (s : List ℕ) → same_text s s ≡ true
same_text_refl s = (same_text_iff s s).1 refl

-- Texts that are each the same as a third.
pub same_text_both :
    (s t u : List ℕ) → same_text s u ≡ true → same_text t u ≡ true → same_text s t ≡ true
same_text_both s t u h k =
    (same_text_iff s t).1 ((same_text_iff s u).0 h ∙ sym ((same_text_iff t u).0 k))

-- `find_tool` in a list with one tool more.
abbrev found_with : LoopTool → List LoopTool → List ℕ → Option LoopTool
found_with t l name = if same_text t.definition.name name then some t else find_tool l name

pub find_tool-append :
    (l k : List LoopTool) (name : List ℕ)
    → find_tool (l ++ k) name
      ≡ elim (find_tool l name) [ none ↦ find_tool k name | some t ↦ some t ]
unfolding find_tool
find_tool-append [] k name = refl
find_tool-append (t ∷ l) k name = ground (arith, find_tool-append l k name)

find_tool-insert_tool :
    (t : LoopTool) (l : List LoopTool) (name : List ℕ)
    → find_tool l t.definition.name ≡ none
    → find_tool (insert_tool t l) name ≡ found_with t l name
unfolding find_tool insert_tool
find_tool-insert_tool t [] name h = refl
find_tool-insert_tool t (u ∷ l) name h =
    elim (Bool-cases (before_text t.definition.name u.definition.name)) [
      | inl first ↦ rw first refl
      | inr later ↦ elim (Bool-cases (same_text u.definition.name name)) [
        | inr other ↦ rw (later, other) (find_tool-insert_tool t l name (ground (arith, h)))
        | inl here ↦ elim (Bool-cases (same_text t.definition.name name)) [
          | inr other ↦ rw (later, here, other) refl
          | inl both ↦
              absurd (
                ground
                  (arith, h, same_text_both u.definition.name t.definition.name name here both))
        ]
      ]
    ]

-- Sorting distinct tools keeps what is found, and keeps them distinct.
pub find_tool-sorted_tools :
    (l : List LoopTool) (name : List ℕ)
    → Distinct l
    → find_tool (sorted_tools l) name ≡ find_tool l name
unfolding sorted_tools find_tool
find_tool-sorted_tools [] name h = refl
find_tool-sorted_tools (t ∷ l) name h =
    find_tool-insert_tool t (sorted_tools l) name
      (find_tool-sorted_tools l t.definition.name h.1 ∙ h.0)
    ∙ ap (λ o. if same_text t.definition.name name then some t else o)
        (find_tool-sorted_tools l name h.1)

head_apart :
    (t u : LoopTool) (l : List LoopTool)
    → find_tool (u ∷ l) t.definition.name ≡ none
    → find_tool l u.definition.name ≡ none
    → find_tool (insert_tool t l) u.definition.name ≡ none
unfolding find_tool
head_apart t u l new apart = elim (Bool-cases (same_text t.definition.name u.definition.name)) [
  | inl same ↦ absurd (
      ground (
        arith,
        new,
        same_text_both u.definition.name t.definition.name u.definition.name
            (same_text_refl u.definition.name) same,
      ))
  | inr different ↦
      find_tool-insert_tool t l u.definition.name (ground (arith, new)) ∙ rw different apart
]

insert_tool-Distinct :
    (t : LoopTool) (l : List LoopTool)
    → find_tool l t.definition.name ≡ none
    → Distinct l
    → Distinct (insert_tool t l)
unfolding insert_tool find_tool
insert_tool-Distinct t [] new h = (refl, tt)
insert_tool-Distinct t (u ∷ l) new h =
    elim (Bool-cases (before_text t.definition.name u.definition.name)) [
      | inl first ↦ rw first (new, h)
      | inr later ↦
          rw later (head_apart t u l new h.0, insert_tool-Distinct t l (ground (arith, new)) h.1)
    ]

pub sorted_tools-Distinct : (l : List LoopTool) → Distinct l → Distinct (sorted_tools l)
unfolding sorted_tools
sorted_tools-Distinct [] h = tt
sorted_tools-Distinct (t ∷ l) h =
    insert_tool-Distinct t (sorted_tools l) (find_tool-sorted_tools l t.definition.name h.1 ∙ h.0)
      (sorted_tools-Distinct l h.1)

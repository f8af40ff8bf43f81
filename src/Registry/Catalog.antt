-- ===== src/Registry/Catalog.antt =====
-- How internal/core/services/tools.go puts its catalog together.
use mathlib.Core.List.{append-nil}
use mathlib.Core.Path.{subst}
use eggy.Prelude.{
  ℕ, ◌≡◌, refl, sym, ap, ◌∙◌, String, true, none, List, [], ◌∷◌, ◌++◌, if◌then◌else◌, arith,
}
use eggy.Text.{is_empty}
use eggy.Loop.{LoopTool, find_tool}
use eggy.Registry.{
  ToolRegistry, ToolProvider, SourcedTool, sorted_tools, has_name, supply, sourced, provided,
  names_of, merged, bare, tools_of,
}
use eggy.Registry.Sorted.{
  Distinct, find_tool-append, find_tool-sorted_tools, sorted_tools-Distinct, same_text_refl,
}
use eggy.Registry.Supply.{Clear, supply-Clear, supply-Distinct, supply-after, is_some}

bare-append : (l k : List SourcedTool) → bare (l ++ k) ≡ bare l ++ bare k
bare-append [] k = refl
bare-append (entry ∷ l) k = ap (λ r. entry.tool ∷ r) (bare-append l k)

bare-sourced : (source : String) (l : List LoopTool) → bare (sourced source l) ≡ l
bare-sourced source [] = refl
bare-sourced source (t ∷ l) = ap (λ r. t ∷ r) (bare-sourced source l)

bare-kernel :
    (source : String) (l : List LoopTool) (k : List SourcedTool)
    → bare (sourced source l ++ k) ≡ l ++ bare k
bare-kernel source l k =
    bare-append (sourced source l) k ∙ ap (λ r. r ++ bare k) (bare-sourced source l)

pub has_name-names_of :
    (l : List LoopTool) (name : List ℕ) → has_name (names_of l) name ≡ is_some (find_tool l name)
unfolding has_name find_tool
has_name-names_of [] name = refl
has_name-names_of (t ∷ l) name = ground (arith, has_name-names_of l name)

-- The second list has no name of the first.
abbrev pub Apart : List LoopTool → List LoopTool → Type 0
Apart l k = (name : List ℕ) → is_some (find_tool l name) ≡ true → find_tool k name ≡ none

pub append-Distinct :
    (l k : List LoopTool) → Distinct l → Distinct k → Apart l k → Distinct (l ++ k)
unfolding find_tool
append-Distinct [] k h g apart = g
append-Distinct (t ∷ l) k h g apart = (
  find_tool-append l k t.definition.name
      ∙ rw h.0 (apart t.definition.name (ground (arith, same_text_refl t.definition.name))),
  append-Distinct l k h.1 g (λ name found. apart name (ground (arith, found))),
)

pub provided-Clear :
    (now : ℕ) (taken : List (List ℕ)) (providers : List ToolProvider)
    → Clear taken (bare (provided now taken providers))
unfolding provided find_tool
provided-Clear now taken [] name h = refl
provided-Clear now taken (p ∷ providers) name h =
    let (supplied, after) = supply taken (p.list now) in
    let still : has_name after name ≡ true =
      ground (arith, supply-after taken (p.list now) name, h) in
    ap (λ l. find_tool l name)
      (bare-kernel p.source (sorted_tools supplied) (provided now after providers))
    ∙ (find_tool-append (sorted_tools supplied) (bare (provided now after providers)) name
        ∙ rw
            (
              find_tool-sorted_tools supplied name (supply-Distinct taken (p.list now)),
              supply-Clear taken (p.list now) name h,
            )
            (provided-Clear now after providers name still))

pub provided-Distinct :
    (now : ℕ) (taken : List (List ℕ)) (providers : List ToolProvider)
    → Distinct (bare (provided now taken providers))
unfolding provided
provided-Distinct now taken [] = tt
provided-Distinct now taken (p ∷ providers) =
    let (supplied, after) = supply taken (p.list now) in
    subst Distinct
      (sym (bare-kernel p.source (sorted_tools supplied) (provided now after providers)))
      (append-Distinct (sorted_tools supplied) (bare (provided now after providers))
        (sorted_tools-Distinct supplied (supply-Distinct taken (p.list now)))
        (provided-Distinct now after providers)
        (λ name found. provided-Clear now after providers name (
          ground (
            arith,
            supply-after taken (p.list now) name,
            find_tool-sorted_tools supplied name (supply-Distinct taken (p.list now)),
            found,
          ))))

provided-nil : (now : ℕ) (taken : List (List ℕ)) → [] ≡ provided now taken []
unfolding provided
provided-nil now taken = refl

bare-providers :
    (now : ℕ) (kernel : List LoopTool) (taken : List (List ℕ)) (providers : List ToolProvider)
    → bare (
        if is_empty providers
        then sourced "kernel" kernel
        else sourced "kernel" kernel ++ provided now taken providers)
      ≡ kernel ++ bare (provided now taken providers)
bare-providers now kernel taken [] =
    bare-sourced "kernel" kernel
    ∙ (sym (append-nil kernel) ∙ ap (λ k. kernel ++ bare k) (provided-nil now taken))
bare-providers now kernel taken (p ∷ providers) =
    bare-kernel "kernel" kernel (provided now taken (p ∷ providers))

-- The catalog is the registered tools and then what the providers add.
pub tools_of-append :
    (r : ToolRegistry) (now : ℕ)
    → tools_of r now ≡ sorted_tools r.tools ++ bare (provided now (names_of r.tools) r.providers)
unfolding tools_of merged
tools_of-append r now = bare-providers now (sorted_tools r.tools) (names_of r.tools) r.providers

-- ===== src/Registry/Lookup.antt =====
-- What internal/core/services/tools.go promises of its catalog: no name twice, and one answer for a name.
use mathlib.Core.List.{append-nil, append_assoc}
use mathlib.Core.Path.{subst}
use eggy.Prelude.{
  ℕ, ◌≡◌, ◌⊎◌, inl, inr, refl, sym, ap, ◌∙◌, String, true, Option, none, some, List, [], ◌∷◌, ◌++◌,
  arith, Bool-cases, Option-cases,
}
use eggy.Text.{is_empty}
use eggy.Loop.{LoopTool, same_text, find_tool, resolve, resolve_from}
use eggy.Loop.Offered.{same_text_iff}
use eggy.Registry.{
  ToolRegistry, register, add_provider, new_tool_registry, sorted_tools, provided, names_of, bare,
  tools_of, lookup,
}
use eggy.Registry.Sorted.{
  Distinct, find_tool-append, find_tool-sorted_tools, sorted_tools-Distinct, same_text_refl,
}
use eggy.Registry.Supply.{is_some}
use eggy.Registry.Catalog.{
  Apart, has_name-names_of, append-Distinct, provided-Clear, provided-Distinct, tools_of-append,
}

-- A registry as the program makes it: from the empty one, by `Register` and `AddProvider`.
pub data Built : ToolRegistry → Type 0 where
  empty : Built new_tool_registry
  registered : (r : ToolRegistry) (t : LoopTool) → Built r → Built (register r t).1
  with_provider :
      (r : ToolRegistry) (source : String) (list : Option (ℕ → List LoopTool))
      → Built r
      → Built (add_provider r source list)

-- `Register` keeps the tools, or adds one whose name is not among theirs.
register-cases :
    (r : ToolRegistry) (t : LoopTool)
    → ((register r t).1 ≡ r)
      ⊎ ((find_tool r.tools t.definition.name ≡ none)
          × ((register r t).1 ≡ record r { tools = r.tools ++ t ∷ [] }))
unfolding register
register-cases r t = elim (Bool-cases (is_empty t.definition.name)) [
  | inl unnamed ↦ rw (register, unnamed) (inl refl)
  | inr named ↦ elim (Option-cases (find_tool r.tools t.definition.name)) [
    | inr (u, taken) ↦ rw (register, named, taken) (inl refl)
    | inl free ↦ inr (free, rw (register, named, free) refl)
  ]
]

free-Apart :
    (l : List LoopTool) (t : LoopTool) → find_tool l t.definition.name ≡ none → Apart l (t ∷ [])
unfolding find_tool
free-Apart l t free name found = elim (Bool-cases (same_text t.definition.name name)) [
  | inr different ↦ rw different refl
  | inl same ↦ absurd (
      ground (
        arith,
        found,
        ap (λ n. find_tool l n) ((same_text_iff t.definition.name name).0 same),
        free,
      ))
]

snoc-Distinct :
    (l : List LoopTool) (t : LoopTool)
    → find_tool l t.definition.name ≡ none
    → Distinct l
    → Distinct (l ++ t ∷ [])
snoc-Distinct l t free h =
    append-Distinct l (t ∷ []) h (unfold find_tool in refl, tt) (free-Apart l t free)

register-Distinct :
    (r : ToolRegistry) (t : LoopTool) → Distinct r.tools → Distinct (register r t).1.tools
register-Distinct r t h = elim (register-cases r t) [
  | inl same ↦ subst (λ q. Distinct q.tools) (sym same) h
  | inr (free, more) ↦ subst (λ q. Distinct q.tools) (sym more) (snoc-Distinct r.tools t free h)
]

add_provider-tools :
    (r : ToolRegistry) (source : String) (list : Option (ℕ → List LoopTool))
    → (add_provider r source list).tools ≡ r.tools
unfolding add_provider
add_provider-tools r source none = refl
add_provider-tools r source (some list) = refl

Built-Distinct : (r : ToolRegistry) → Built r → Distinct r.tools
Built-Distinct r empty = tt
Built-Distinct r (registered s t b) = register-Distinct s t (Built-Distinct s b)
Built-Distinct r (with_provider s source list b) =
    subst Distinct (sym (add_provider-tools s source list)) (Built-Distinct s b)

tools-Distinct : (r : ToolRegistry) (now : ℕ) → Distinct r.tools → Distinct (tools_of r now)
tools-Distinct r now h = subst Distinct (sym (tools_of-append r now)) (
    append-Distinct (sorted_tools r.tools) (bare (provided now (names_of r.tools) r.providers))
      (sorted_tools-Distinct r.tools h) (provided-Distinct now (names_of r.tools) r.providers)
      (λ name found. provided-Clear now (names_of r.tools) r.providers name (
        ground
          (arith, has_name-names_of r.tools name, find_tool-sorted_tools r.tools name h, found))))

lookup-remote :
    (r : ToolRegistry) (name : List ℕ) (now : ℕ)
    → find_tool r.tools name ≡ none
    → lookup r name now ≡ find_tool (tools_of r now) name
unfolding lookup tools_of
lookup-remote r name now remote = rw (lookup, remote) refl

lookup-known :
    (r : ToolRegistry) (name : List ℕ) (now : ℕ) (t : LoopTool)
    → find_tool r.tools name ≡ some t
    → lookup r name now ≡ some t
unfolding lookup
lookup-known r name now t known = rw (lookup, known) refl

-- The catalog of a registry lists no name twice, whatever its providers list at the moment.
pub tools_of-Distinct : (r : ToolRegistry) (now : ℕ) → Built r → Distinct (tools_of r now)
tools_of-Distinct r now b = tools-Distinct r now (Built-Distinct r b)

-- `Lookup` answers with what the catalog has under the name, although it asks the registered tools first.
pub lookup-tools_of :
    (r : ToolRegistry) (name : List ℕ) (now : ℕ)
    → Built r
    → lookup r name now ≡ find_tool (tools_of r now) name
lookup-tools_of r name now b =
    let listed =
      ap (λ l. find_tool l name) (tools_of-append r now)
      ∙ (find_tool-append (sorted_tools r.tools)
            (bare (provided now (names_of r.tools) r.providers)) name
          ∙ ap
              (λ o. elim o [
                | none ↦ find_tool (bare (provided now (names_of r.tools) r.providers)) name
                | some t ↦ some t
              ])
              (find_tool-sorted_tools r.tools name (Built-Distinct r b))) in
    elim (Option-cases (find_tool r.tools name)) [
      | inl remote ↦ lookup-remote r name now remote
      | inr (t, known) ↦ lookup-known r name now t known ∙ sym (listed ∙ rw known refl)
    ]

still-Apart :
    (taken : List LoopTool) (t : LoopTool) (l : List LoopTool) (name : List ℕ)
    → find_tool l t.definition.name ≡ none
    → is_some (find_tool l name) ≡ true
    → find_tool taken name ≡ none
    → find_tool (taken ++ t ∷ []) name ≡ none
still-Apart taken t l name free found none_taken =
    find_tool-append taken (t ∷ []) name ∙ rw none_taken (free-Apart l t free name found)

-- The first tools of their names are all that `resolve` takes.
resolve_from-Apart :
    (taken l : List LoopTool) → Distinct l → Apart l taken → resolve_from taken l ≡ taken ++ l
unfolding resolve_from
resolve_from-Apart taken [] h apart = sym (append-nil taken)
resolve_from-Apart taken (t ∷ l) h apart = rw (apart t.definition.name (here t l)) (
    resolve_from-Apart (taken ++ t ∷ []) l h.1
      (λ name found. still-Apart taken t l name h.0 found (apart name (later t l name found)))
    ∙ append_assoc taken (t ∷ []) l)
  where
    here : (t : LoopTool) (l : List LoopTool) → is_some (find_tool (t ∷ l) t.definition.name) ≡ true
    here t l = unfold find_tool in ground (arith, same_text_refl t.definition.name)

    later :
        (t : LoopTool) (l : List LoopTool) (name : List ℕ)
        → is_some (find_tool l name) ≡ true
        → is_some (find_tool (t ∷ l) name) ≡ true
    later t l name found = unfold find_tool in ground (arith, found)

-- The loop can call every tool of the catalog: `resolve` drops none of them.
pub resolve-tools_of :
    (r : ToolRegistry) (now : ℕ) → Built r → resolve (tools_of r now) ≡ tools_of r now
unfolding resolve
resolve-tools_of r now b =
    resolve_from-Apart [] (tools_of r now) (tools_of-Distinct r now b)
      (λ name found. unfold find_tool in refl)

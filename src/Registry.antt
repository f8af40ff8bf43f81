-- ===== src/Registry.antt =====
-- internal/core/services/tools.go: the registry that a turn takes its tools from. The map of registered
-- tools is the list of its values; what a provider lists depends on when it is asked.
pub mod Sorted
pub mod Supply
pub mod Catalog
pub mod Lookup
use eggy.Prelude.{
  ℕ, String, Bool, true, false, ◌||◌, Option, none, some, List, [], ◌∷◌, ◌++◌, if◌then◌else◌, map,
}
use eggy.Prelude.Result.{Result, ok, err, duplicate_tool, other}
use eggy.Text.{is_empty}
use eggy.Loop.{ToolDefinition, LoopTool, same_text, find_tool, before_text}

pub record ToolProvider : Type 0 where
  pub source : String
  pub list : ℕ → List LoopTool

pub record ToolRegistry : Type 0 where
  pub tools : List LoopTool
  pub providers : List ToolProvider

pub record SourcedTool : Type 0 where
  pub source : String
  pub tool : LoopTool

pub record ToolListing : Type 0 where
  pub source : String
  pub definition : ToolDefinition

abbrev pub new_tool_registry : ToolRegistry
new_tool_registry = record { tools = []; providers = [] }

-- `Register`: the error, if any, and the registry after.
unfoldable pub register : ToolRegistry → LoopTool → Result (Unit {0}) × ToolRegistry
unfolding find_tool
register r t =
    if is_empty t.definition.name
    then (err (other "tool name is empty"), r)
    else (elim (find_tool r.tools t.definition.name) [
      | some _ ↦ (err duplicate_tool, r)
      | none ↦ (ok tt, record r { tools = r.tools ++ t ∷ [] })
    ])

-- `AddProvider`, of a provider that may be nil.
unfoldable pub add_provider : ToolRegistry → String → Option (ℕ → List LoopTool) → ToolRegistry
add_provider r source none = r
add_provider r source (some list) = record r {
  providers = r.providers ++ record { source = source; list = list } ∷ [];
}

insert_tool : LoopTool → List LoopTool → List LoopTool
unfolding before_text
insert_tool t [] = t ∷ []
insert_tool t (u ∷ l) =
    let rest = insert_tool t l in
    if before_text t.definition.name u.definition.name then t ∷ u ∷ l else u ∷ rest

-- `sortedTools`.
unfoldable pub sorted_tools : List LoopTool → List LoopTool
unfolding insert_tool
sorted_tools [] = []
sorted_tools (t ∷ l) = insert_tool t (sorted_tools l)

unfoldable pub has_name : List (List ℕ) → List ℕ → Bool
unfolding same_text
has_name [] name = false
has_name (taken ∷ l) name = same_text taken name || has_name l name

-- The loop over one provider's tools: what it supplies, and the names that are taken after it.
unfoldable pub supply : List (List ℕ) → List LoopTool → List LoopTool × List (List ℕ)
unfolding has_name
supply taken [] = ([], taken)
supply taken (t ∷ l) = elim (is_empty t.definition.name || has_name taken t.definition.name) [
  | true ↦ supply taken l
  | false ↦ let (supplied, after) = supply (t.definition.name ∷ taken) l in (t ∷ supplied, after)
]

abbrev pub sourced : String → List LoopTool → List SourcedTool
sourced source [] = []
sourced source (t ∷ l) = record { source = source; tool = t } ∷ sourced source l

-- The loop over the providers.
unfoldable pub provided : ℕ → List (List ℕ) → List ToolProvider → List SourcedTool
unfolding supply sorted_tools
provided now taken [] = []
provided now taken (p ∷ providers) =
    let (supplied, after) = supply taken (p.list now) in
    sourced p.source (sorted_tools supplied) ++ provided now after providers

abbrev pub names_of : List LoopTool → List (List ℕ)
names_of [] = []
names_of (t ∷ l) = t.definition.name ∷ names_of l

-- `merged`.
unfoldable pub merged : ToolRegistry → ℕ → List SourcedTool
unfolding sorted_tools provided
merged r now =
    let kernel = sourced "kernel" (sorted_tools r.tools) in
    if is_empty r.providers then kernel else kernel ++ provided now (names_of r.tools) r.providers

abbrev pub bare : List SourcedTool → List LoopTool
bare [] = []
bare (entry ∷ l) = entry.tool ∷ bare l

-- `Tools`.
unfoldable pub tools_of : ToolRegistry → ℕ → List LoopTool
unfolding merged
tools_of r now = bare (merged r now)

-- `Catalog`.
unfoldable pub catalog : ToolRegistry → ℕ → List ToolListing
unfolding merged
catalog r now =
    map (λ entry. record { source = entry.source; definition = entry.tool.definition })
      (merged r now)

-- `Lookup`.
unfoldable pub lookup : ToolRegistry → List ℕ → ℕ → Option LoopTool
unfolding find_tool merged
lookup r name now = elim (find_tool r.tools name) [
  | some t ↦ some t
  | none ↦ find_tool (bare (merged r now)) name
]

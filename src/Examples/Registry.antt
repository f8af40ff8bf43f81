-- ===== src/Examples/Registry.antt =====
-- The theorems on the registry of tools, on one whose provider lists a tool of a registered name.
use eggy.Prelude.{String, ◌≡◌, refl, some, none, false, [], ◌∷◌, length}
use eggy.Prelude.Result.{ok}
use eggy.Text.{codes}
use eggy.Loop.{LoopTool, resolve}
use eggy.Registry.{ToolRegistry, new_tool_registry, register, add_provider, tools_of}
use eggy.Registry.Lookup.{Built, empty, registered, with_provider, resolve-tools_of}

abbrev tool_named : String → LoopTool
tool_named name = record {
  definition = record { name = codes name; description = []; schema = []; turn_scoped = false };
  execute = λ steps arguments. ok arguments;
  scoped = none;
}

abbrev with_shadow : ToolRegistry
with_shadow =
    add_provider (register (register new_tool_registry (tool_named "web")).1 (tool_named "edit")).1
      "mcp" (some (λ now. tool_named "edit" ∷ tool_named "mail" ∷ []))

with_shadow-Built : Built with_shadow
with_shadow-Built =
    with_provider _ "mcp" _
      (registered _ (tool_named "edit") (registered _ (tool_named "web") empty))

three_tools : length (tools_of with_shadow 0) ≡ 3
unfolding tools_of register add_provider
three_tools = refl

resolve-tools_of_example : resolve (tools_of with_shadow 0) ≡ tools_of with_shadow 0
resolve-tools_of_example = resolve-tools_of with_shadow 0 with_shadow-Built

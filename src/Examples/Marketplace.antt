-- ===== src/Examples/Marketplace.antt =====
-- The theorems on the plan of an installation, on a tree with one skill and a script, and on two servers.
use eggy.Prelude.{some, if◌then◌else◌, ◌≡◌, refl, none, [], ◌∷◌, ◌++◌, map, true, All}
use eggy.Prelude.Result.{ok}
use eggy.Text.{codes}
use eggy.Marketplace.{FrontValue, text, Formats, Tree, PlanInput, Plan}
use eggy.Marketplace.Skills.{new_plan, plan_skills}
use eggy.Marketplace.Servers.{Decoders, ServerInput, ServerPlan, plan_plugin_servers}
use eggy.Marketplace.Declared.{Remote, Apart, plan_plugin_servers-Remote}
use eggy.Loop.{same_text}
use eggy.Marketplace.Sound.{Acceptable}
use eggy.Marketplace.Plans.{Distinct, plan_skills-Acceptable}

-- A reader of one frontmatter.
abbrev formats : Formats (Unit {0})
formats = record {
  join = λ dir file. dir ++ codes "/" ++ file;
  base = λ path. path;
  ext = λ path. codes ".md";
  dir_of = λ path. path;
  sort = λ l. l;
  trim_space = λ s. s;
  read_front = λ s. ok (
      (codes "name", text (codes "notes"))
      ∷ (codes "description", text (codes "Keeps notes"))
      ∷ []);
  can_store = λ extra. true;
  skill_hash = λ description body files. body;
}

abbrev tree : Tree
tree = record {
  files =
      (codes "s/SKILL.md", codes "---" ++ 10 ∷ codes "n" ++ 10 ∷ codes "---go")
      ∷ (codes "s/more.md", codes "more")
      ∷ [];
  skipped = codes "s/run.sh" ∷ [];
}

abbrev first_install : PlanInput
first_install = record { renames = []; skill_exists = none; replacing = [] }

abbrev planned : Plan (Unit {0})
planned = plan_skills formats first_install tree new_plan (codes "s" ∷ [])

one_skill_planned : planned.seen ≡ codes "notes" ∷ []
unfolding plan_skills eggy.Marketplace.Files.◌>>=◌
one_skill_planned = refl

plan_skills-Acceptable_example :
    All (Acceptable formats first_install) planned.skills
    × Distinct (map (λ s. s.name) planned.skills)
plan_skills-Acceptable_example = plan_skills-Acceptable formats first_install tree (codes "s" ∷ [])

-- Two servers of one document: one remote, and one that runs a program.
abbrev decoders : Decoders
decoders = record {
  join = λ dir file. dir ++ codes "/" ++ file;
  read_object = λ raw. ok ((codes "maps", codes "remote") ∷ (codes "disk", codes "local") ∷ []);
  read_entry = λ raw. some (record {
    url = codes "https://maps.example";
    command = if same_text raw (codes "local") then codes "run" else [];
    headers = [];
  });
  parse_url = λ raw. some (codes "https", codes "maps.example");
  sha256_hex = λ raw. raw;
}

abbrev plugin_tree : Tree
plugin_tree = record { files = (codes "p/.mcp.json", []) ∷ []; skipped = [] }

abbrev travel : ServerInput
travel = record { item_name = codes "travel"; mcp_exists = none; replacing = [] }

abbrev one_server : ServerPlan
one_server = record {
  mcp =
      record {
        name = codes "travel-maps";
        url = codes "https://maps.example";
        hash = codes "https://maps.example";
      }
      ∷ [];
  skipped =
      record { path = codes "p/.mcp.json#disk"; reason = codes "runs a downloaded program" } ∷ [];
}

one_server_planned :
    plan_plugin_servers decoders travel plugin_tree (codes "p") (record { mcp = []; skipped = [] })
    ≡ ok one_server
unfolding plan_plugin_servers
one_server_planned = refl

plan_plugin_servers-Remote_example :
    All (Remote decoders travel) one_server.mcp × Apart one_server.mcp
plan_plugin_servers-Remote_example =
    plan_plugin_servers-Remote decoders travel plugin_tree (codes "p") one_server one_server_planned

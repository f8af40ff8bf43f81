-- ===== src/Marketplace/Servers.antt =====
-- `planMCP` of internal/extensions/marketplace/plan.go: the remote servers that a plugin declares. JSON and `url.Parse`
-- are fields of `Decoders`.
use eggy.Prelude.{
  ℕ, Bool, true, false, not, ◌&&◌, ◌||◌, Option, none, some, List, [], ◌∷◌, ◌++◌, leb, ◌==◌, length,
  if◌then◌else◌,
}
use eggy.Prelude.Result.{Result, ok, ◌>>=◌}
use eggy.Text.{codes, is_empty}
use eggy.Loop.{same_text}
use eggy.Marketplace.{Tree, Skipped, find_key, has_key, contains_text}

-- The entry of a server; the headers are the bytes that stand for them, and empty when they are missing.
pub record ServerEntry : Type 0 where
  pub url : List ℕ
  pub command : List ℕ
  pub headers : List ℕ

pub record Decoders : Type 0 where
  pub join : List ℕ → List ℕ → List ℕ
  pub read_object : List ℕ → Result (List (List ℕ × List ℕ))
  pub read_entry : List ℕ → Option ServerEntry
  pub parse_url : List ℕ → Option (List ℕ × List ℕ)
  pub sha256_hex : List ℕ → List ℕ

-- What `PlanInput` has on servers.
pub record ServerInput : Type 0 where
  pub item_name : List ℕ
  pub mcp_exists : Option (List ℕ → Bool)
  pub replacing : List (List ℕ)

pub record PlannedMcp : Type 0 where
  pub name : List ℕ
  pub url : List ℕ
  pub hash : List ℕ

-- The part of `Plan` that servers fill.
pub record ServerPlan : Type 0 where
  pub mcp : List PlannedMcp
  pub skipped : List Skipped

abbrev is_name_start : ℕ → Bool
is_name_start c = (leb 97 c && leb c 122) || (leb 65 c && leb c 90) || (leb 48 c && leb c 57)

unfoldable pub is_mcp_tail : List ℕ → Bool
is_mcp_tail [] = true
is_mcp_tail (c ∷ s) = (is_name_start c || c == 46 || c == 95 || c == 45) && is_mcp_tail s

-- `mcpNamePattern`.
unfoldable pub is_mcp_name : List ℕ → Bool
unfolding is_mcp_tail
is_mcp_name [] = false
is_mcp_name (c ∷ s) = is_name_start c && leb (length s) 63 && is_mcp_tail s

-- `plannedMCP`.
unfoldable pub planned_mcp : List PlannedMcp → List ℕ → Bool
unfolding same_text
planned_mcp [] name = false
planned_mcp (s ∷ l) name = same_text s.name name || planned_mcp l name

module _ (d : Decoders) where
  -- `httpsURL`.
  unfoldable pub https_url : List ℕ → Bool
  unfolding same_text
  https_url raw = elim (d.parse_url raw) [
    | none ↦ false
    | some (scheme, host) ↦ same_text scheme (codes "https") && not (is_empty host)
  ]

  -- Whether an entry asks for something that only its owner knows.
  unfoldable pub needs_configuration : List ℕ → ServerEntry → Bool
  unfolding same_text contains_text
  needs_configuration raw entry =
      (not (is_empty entry.headers) && not (same_text entry.headers (codes "null")))
      || contains_text raw (codes "${")

  module _ (input : ServerInput) where
    -- Whether a name belongs to a server that this installation does not replace.
    unfoldable pub is_configured : List ℕ → Bool
    unfolding has_key
    is_configured name = elim input.mcp_exists [
      | none ↦ false
      | some exists ↦ exists name && not (has_key input.replacing (codes "mcp_server/" ++ name))
    ]

    -- The reason to skip an entry that could be read, if there is one.
    unfoldable pub reason_against :
        List PlannedMcp → List ℕ → List ℕ → ServerEntry → Option (List ℕ)
    unfolding is_mcp_name planned_mcp https_url needs_configuration is_configured
    reason_against planned name raw entry =
        if not (is_empty entry.command)
        then some (codes "runs a downloaded program")
        else if is_empty entry.url
        then some (codes "not a remote server")
        else if needs_configuration raw entry
        then some (codes "needs configuration Eggy cannot infer")
        else if not (is_mcp_name name)
        then some (codes "server name is not valid in Eggy")
        else if not (https_url entry.url)
        then some (codes "only https servers are supported")
        else if planned_mcp planned name
        then some (codes "server is declared more than once")
        else if is_configured name
        then some (codes "a server with this name is already configured")
        else none

    abbrev server_name : List ℕ → List ℕ
    server_name server = input.item_name ++ codes "-" ++ server

    abbrev skip_server : ServerPlan → List ℕ → List ℕ → ServerPlan
    skip_server plan path reason = record plan {
      skipped = plan.skipped ++ record { path = path; reason = reason } ∷ [];
    }

    -- One round of the loop over the servers.
    unfoldable pub plan_server : List ℕ → ServerPlan → List ℕ → List ℕ → ServerPlan
    unfolding reason_against
    plan_server file plan server raw =
        let path = file ++ codes "#" ++ server in
        elim (d.read_entry raw) [
          | none ↦ skip_server plan path (codes "unreadable server entry")
          | some entry ↦ elim (reason_against plan.mcp (server_name server) raw entry) [
            | some reason ↦ skip_server plan path reason
            | none ↦ record plan {
              mcp =
                  plan.mcp
                  ++ record {
                    name = server_name server;
                    url = entry.url;
                    hash = d.sha256_hex entry.url;
                  }
                    ∷ [];
            }
          ]
        ]

    unfoldable pub plan_servers : List ℕ → ServerPlan → List (List ℕ × List ℕ) → ServerPlan
    unfolding plan_server
    plan_servers file plan [] = plan
    plan_servers file plan ((server, raw) ∷ l) =
        plan_servers file (plan_server file plan server raw) l

    -- The servers that a document declares; a manifest may declare none.
    unfoldable pub declared_servers :
        Bool → List (List ℕ × List ℕ) → Result (List (List ℕ × List ℕ))
    unfolding find_key
    declared_servers from_manifest doc = elim (find_key doc (codes "mcpServers")) [
      | some inner ↦ d.read_object inner
      | none ↦ ok (if from_manifest then [] else doc)
    ]

    -- `planMCP`.
    unfoldable pub plan_mcp : Tree → List ℕ → Bool → ServerPlan → Result ServerPlan
    unfolding find_key declared_servers plan_servers
    plan_mcp tree file from_manifest plan = elim (find_key tree.files file) [
      | none ↦ ok plan
      | some raw ↦ do
        doc ← d.read_object raw
        servers ← declared_servers from_manifest doc
        ok (plan_servers file plan servers)
    ]

    -- The servers of a plugin: those of its own file, and those of its manifest.
    unfoldable pub plan_plugin_servers : Tree → List ℕ → ServerPlan → Result ServerPlan
    unfolding plan_mcp
    plan_plugin_servers tree root plan = do
      first ← plan_mcp tree (d.join root (codes ".mcp.json")) false plan
      plan_mcp tree (d.join (d.join root (codes ".claude-plugin")) (codes "plugin.json")) true first

-- ===== src/Marketplace/Declared.antt =====
-- What every plan of servers holds, in internal/extensions/marketplace/plan.go.
use eggy.Prelude.{
  ℕ, ◌≡◌, false, true, Bool, none, List, [], ◌∷◌, ◌++◌, arith, All, Option-cases, inl, inr,
}
use eggy.Prelude.Result.{ok, ◌>>=◌, bind-ok, ok-injective}
use mathlib.Core.Path.{subst}
use eggy.Text.{codes}
use eggy.Loop.{same_text}
use eggy.Marketplace.{Tree, find_key}
use eggy.Marketplace.Servers.{
  ServerEntry, Decoders, ServerInput, PlannedMcp, ServerPlan, is_mcp_name, planned_mcp, https_url,
  is_configured, reason_against, plan_server, plan_servers, declared_servers, plan_mcp,
  plan_plugin_servers,
}
use eggy.Marketplace.Plans.{All-snoc}

-- No two servers of a plan have the same name.
abbrev pub Apart : List PlannedMcp → Type 0
Apart [] = Unit
Apart (s ∷ l) = All (λ (t : PlannedMcp). same_text s.name t.name ≡ false) l × Apart l

planned_mcp-other :
    (l : List PlannedMcp) (s : PlannedMcp) (name : List ℕ)
    → planned_mcp (s ∷ l) name ≡ false
    → (same_text s.name name ≡ false) × (planned_mcp l name ≡ false)
unfolding planned_mcp
planned_mcp-other l s name h = (ground (arith, h), ground (arith, h))

snoc-Apart :
    (l : List PlannedMcp) (s : PlannedMcp)
    → Apart l
    → planned_mcp l s.name ≡ false
    → Apart (l ++ s ∷ [])
snoc-Apart [] s h fresh = (tt, tt)
snoc-Apart (t ∷ l) s (apart, h) fresh =
    let (other, rest) = planned_mcp-other l t s.name fresh in
    (
      All-snoc (λ (k : PlannedMcp). same_text t.name k.name ≡ false) l s apart other,
      snoc-Apart l s h rest,
    )

module _ (d : Decoders) (input : ServerInput) where
  -- A server that the configuration accepts under a name that it has free.
  pub record Remote (s : PlannedMcp) : Type 0 where
    pub named : is_mcp_name s.name ≡ true
    pub secure : https_url d s.url ≡ true
    pub free : is_configured d input s.name ≡ false

  pub record Declared (plan : ServerPlan) : Type 0 where
    pub remote : All Remote plan.mcp
    pub apart : Apart plan.mcp

  reason_against-none :
      (planned : List PlannedMcp) (name raw : List ℕ) (entry : ServerEntry)
      → reason_against d input planned name raw entry ≡ none
      → (is_mcp_name name ≡ true)
        × ((https_url d entry.url ≡ true)
            × ((planned_mcp planned name ≡ false) × (is_configured d input name ≡ false)))
  unfolding reason_against
  reason_against-none planned name raw entry h =
      (ground (arith, h), (ground (arith, h), (ground (arith, h), ground (arith, h))))

  plan_server-Declared :
      (file : List ℕ) (plan : ServerPlan) (server raw : List ℕ)
      → Declared plan
      → Declared (plan_server d input file plan server raw)
  unfolding plan_server
  plan_server-Declared file plan server raw h = elim (Option-cases (d.read_entry raw)) [
    | inl unreadable ↦ rw (plan_server, unreadable) (record { remote = h.remote; apart = h.apart })
    | inr (entry, read) ↦
        let name = input.item_name ++ codes "-" ++ server in
        elim (Option-cases (reason_against d input plan.mcp name raw entry)) [
          | inr (reason, against) ↦
              rw (plan_server, read, against) (record { remote = h.remote; apart = h.apart })
          | inl fine ↦
              let (named, (secure, (fresh, free))) =
                reason_against-none plan.mcp name raw entry fine in
              let s : PlannedMcp = record {
                name = name;
                url = entry.url;
                hash = d.sha256_hex entry.url;
              } in
              rw (plan_server, read, fine)
                (record {
                  remote =
                      All-snoc Remote plan.mcp s h.remote
                        (record { named = named; secure = secure; free = free });
                  apart = snoc-Apart plan.mcp s h.apart fresh;
                })
        ]
  ]

  plan_servers-Declared :
      (file : List ℕ) (l : List (List ℕ × List ℕ)) (plan : ServerPlan)
      → Declared plan
      → Declared (plan_servers d input file plan l)
  unfolding plan_servers
  plan_servers-Declared file [] plan h = h
  plan_servers-Declared file ((server, raw) ∷ l) plan h =
      plan_servers-Declared file l (plan_server d input file plan server raw)
        (plan_server-Declared file plan server raw h)

  plan_mcp-Declared :
      (tree : Tree) (file : List ℕ) (from_manifest : Bool) (plan after : ServerPlan)
      → Declared plan
      → plan_mcp d input tree file from_manifest plan ≡ ok after
      → Declared after
  unfolding plan_mcp
  plan_mcp-Declared tree file from_manifest plan after h made =
      elim (Option-cases (find_key tree.files file)) [
        | inl missing ↦ subst Declared (ok-injective plan after (rw (plan_mcp, missing) at made)) h
        | inr (raw, there) ↦
            let (doc, (_, made₁)) =
              bind-ok (d.read_object raw)
                (λ doc. declared_servers d input from_manifest doc >>= λ servers.
                  ok (plan_servers d input file plan servers))
                after (rw (plan_mcp, there) at made) in
            let (servers, (_, made₂)) =
              bind-ok (declared_servers d input from_manifest doc)
                (λ servers. ok (plan_servers d input file plan servers)) after made₁ in
            subst Declared (ok-injective (plan_servers d input file plan servers) after made₂)
              (plan_servers-Declared file servers plan h)
      ]

  -- When the servers that a plugin declares can be planned, in its own file and in its manifest, each server of
  -- the plan has a valid name, an https address with a host, and a name that no configured server has unless
  -- the installation replaces it; and no two servers of the plan have the same name.
  pub plan_plugin_servers-Remote :
      (tree : Tree) (root : List ℕ) (after : ServerPlan)
      → plan_plugin_servers d input tree root (record { mcp = []; skipped = [] }) ≡ ok after
      → All Remote after.mcp × Apart after.mcp
  unfolding plan_plugin_servers
  plan_plugin_servers-Remote tree root after made =
      let manifest = d.join (d.join root (codes ".claude-plugin")) (codes "plugin.json") in
      let own = d.join root (codes ".mcp.json") in
      let (first, (read, made₁)) =
        bind-ok (plan_mcp d input tree own false (record { mcp = []; skipped = [] }))
          (λ first. plan_mcp d input tree manifest true first) after made in
      let start =
        plan_mcp-Declared tree own false _ first (record { remote = tt; apart = tt }) read in
      let kept = plan_mcp-Declared tree manifest true first after start made₁ in
      (kept.remote, kept.apart)

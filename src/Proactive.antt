-- ===== src/Proactive.antt =====
-- internal/core/turns/policy.go: what a turn that nobody asked for may call, and when its reply is dropped.
pub mod ReadOnly
pub mod Silence
use mathlib.Core.List.{reverse}
use eggy.Prelude.{
  ℕ, ◌+◌, ◌≡◌, ◌⊎◌, String, Bool, true, false, ◌||◌, Option, none, some, List, [], ◌∷◌, ◌++◌, leb,
  ltb, if◌then◌else◌,
}
use eggy.Text.{codes, trim_space, is_empty}
use eggy.Loop.{cut_prefix}

-- One of the names.
abbrev pub OneOf : List ℕ → List (List ℕ) → Type 0
OneOf name [] = ⊥
OneOf name (n ∷ l) = (n ≡ name) ⊎ OneOf name l

-- `ReadOnlyTools`: the keys of its allowlist, and the allowlist.
abbrev pub read_only_names : List (List ℕ)
read_only_names =
    codes "status"
    ∷ codes "repository_list"
    ∷ codes "read_file"
    ∷ codes "repository_github"
    ∷ codes "workspace_open"
    ∷ codes "workspace_close"
    ∷ codes "skill_read"
    ∷ codes "schedule:list"
    ∷ []

abbrev pub all_allowed : List (List ℕ) → List (List ℕ × Bool)
all_allowed [] = []
all_allowed (name ∷ l) = (name, true) ∷ all_allowed l

abbrev pub read_only_tools : List (List ℕ × Bool)
read_only_tools = all_allowed read_only_names

-- `heartbeatTools`.
abbrev pub heartbeat_tools : List (List ℕ × Bool)
heartbeat_tools = read_only_tools ++ (codes "heartbeat_respond", true) ∷ []

-- `HeartbeatSentinels`.
abbrev pub heartbeat_sentinels : List (List ℕ)
heartbeat_sentinels = codes "HEARTBEAT_OK" ∷ codes "NO_REPLY" ∷ []

abbrev pub pleasantry_limit : ℕ
pleasantry_limit = 300

-- `len` of a text: the bytes of its code points.
unfoldable pub byte_length : List ℕ → ℕ
byte_length [] = 0
byte_length (c ∷ s) =
    (if ltb c 0x80 then 1 else if ltb c 0x800 then 2 else if ltb c 0x10000 then 3 else 4)
    + byte_length s

-- `strings.CutSuffix`.
unfoldable pub cut_suffix : List ℕ → List ℕ → Option (List ℕ)
unfolding cut_prefix
cut_suffix s p = elim (cut_prefix (reverse s) (reverse p)) [
  | none ↦ none
  | some rest ↦ some (reverse rest)
]

-- What is left of a reply that a sentinel leads or trails.
unfoldable pub remainder : List ℕ → List ℕ → Option (List ℕ)
unfolding cut_suffix
remainder trimmed sentinel = elim (cut_prefix trimmed sentinel) [
  | some rest ↦ some rest
  | none ↦ cut_suffix trimmed sentinel
]

unfoldable pub is_pleasantry : Option (List ℕ) → Bool
unfolding trim_space byte_length
is_pleasantry none = false
is_pleasantry (some rest) = leb (byte_length (trim_space rest)) pleasantry_limit

unfoldable pub any_sentinel : List ℕ → List (List ℕ) → Bool
unfolding remainder is_pleasantry
any_sentinel trimmed [] = false
any_sentinel trimmed (sentinel ∷ l) =
    is_pleasantry (remainder trimmed sentinel) || any_sentinel trimmed l

-- `silentReply`.
unfoldable pub silent_reply : List ℕ → Bool
unfolding trim_space any_sentinel
silent_reply content =
    is_empty (trim_space content) || any_sentinel (trim_space content) heartbeat_sentinels

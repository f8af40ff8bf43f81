-- ===== src/Marketplace.antt =====
-- internal/extensions/marketplace/plan.go: which skills of a fetched tree an installation would write. A text is a list of
-- bytes. YAML, JSON, hashing, `strings.TrimSpace` and the functions of `path` are fields of `Formats`.
pub mod Files
pub mod Skills
pub mod Sound
pub mod Plans
pub mod Servers
pub mod Declared
use eggy.Prelude.{
  ℕ, suc, ◌+◌, Bool, true, false, not, ◌&&◌, ◌||◌, Option, none, some, List, [], ◌∷◌, ◌++◌, map,
  leb, ◌==◌, length, if◌then◌else◌,
}
use eggy.Prelude.Result.{Result}
use eggy.Text.{codes}
use eggy.Loop.{same_text, cut_prefix}

-- A value of a frontmatter: a string, or one of another kind.
pub data FrontValue (E : Type 0) : Type 0 where
  text : List ℕ → FrontValue E
  structured : E → FrontValue E

-- A map is a list of its keys and values, in the order in which the code happens to visit them.
pub record Formats (E : Type 0) : Type 0 where
  pub join : List ℕ → List ℕ → List ℕ
  pub base : List ℕ → List ℕ
  pub ext : List ℕ → List ℕ
  pub dir_of : List ℕ → List ℕ
  pub sort : List (List ℕ) → List (List ℕ)
  pub trim_space : List ℕ → List ℕ
  pub read_front : List ℕ → Result (List (List ℕ × FrontValue E))
  pub can_store : List (List ℕ × FrontValue E) → Bool
  pub skill_hash : List ℕ → List ℕ → List (List ℕ × List ℕ) → List ℕ

-- `Tree`; the sizes of the skipped files are not read.
pub record Tree : Type 0 where
  pub files : List (List ℕ × List ℕ)
  pub skipped : List (List ℕ)

pub record Skipped : Type 0 where
  pub path : List ℕ
  pub reason : List ℕ

-- What `PlanInput` has on names.
pub record PlanInput : Type 0 where
  pub renames : List (List ℕ × List ℕ)
  pub skill_exists : Option (List ℕ → Bool)
  pub replacing : List (List ℕ)

pub record PlannedSkill (E : Type 0) : Type 0 where
  pub name : List ℕ
  pub upstream_name : List ℕ
  pub description : List ℕ
  pub body : List ℕ
  pub hash : List ℕ
  pub extra : List (List ℕ × FrontValue E)
  pub files : List (List ℕ × List ℕ)
  pub warnings : List (List ℕ)

-- The part of `Plan` that skills fill, with `seen`.
pub record Plan (E : Type 0) : Type 0 where
  pub skills : List (PlannedSkill E)
  pub skipped : List Skipped
  pub conflicts : List (List ℕ)
  pub seen : List (List ℕ)

abbrev pub max_skill_file_bytes : ℕ
max_skill_file_bytes = 32768

abbrev pub max_reference_bytes : ℕ
max_reference_bytes = 65536

abbrev pub max_skill_dir_bytes : ℕ
max_skill_dir_bytes = 262144

abbrev pub max_skill_dir_files : ℕ
max_skill_dir_files = 64

abbrev pub max_description_size : ℕ
max_description_size = 1024

-- A key of a map.
unfoldable pub find_key : {A : Type 0} → List (List ℕ × A) → List ℕ → Option A
unfolding same_text
find_key [] key = none
find_key ((k, a) ∷ l) key = let rest = find_key l key in if same_text k key then some a else rest

unfoldable pub has_key : List (List ℕ) → List ℕ → Bool
unfolding same_text
has_key [] key = false
has_key (k ∷ l) key = same_text k key || has_key l key

-- The text before the first place of a separator, and what follows it there.
unfoldable pub cut_at : List ℕ → List ℕ → Option (List ℕ × List ℕ)
unfolding cut_prefix
cut_at separator [] = elim (cut_prefix [] separator) [ none ↦ none | some after ↦ some ([], after) ]
cut_at separator (c ∷ s) =
    let rest = cut_at separator s in
    elim (cut_prefix (c ∷ s) separator) [
      | some after ↦ some ([], after)
      | none ↦ elim rest [ none ↦ none | some (before, after) ↦ some (c ∷ before, after) ]
    ]

-- `strings.Contains`.
unfoldable pub contains_text : List ℕ → List ℕ → Bool
unfolding cut_at
contains_text s part = elim (cut_at part s) [ none ↦ false | some _ ↦ true ]

-- `normalizeText`: without a byte-order mark, and with newlines for the pairs `\r\n`.
unfoldable pub without_returns : List ℕ → List ℕ
without_returns [] = []
without_returns (c ∷ []) = c ∷ []
without_returns (c ∷ d ∷ s) =
    let rest = without_returns (d ∷ s) in if c == 13 && d == 10 then rest else c ∷ rest

unfoldable pub normalize_text : List ℕ → List ℕ
unfolding cut_prefix without_returns
normalize_text raw =
    without_returns (elim (cut_prefix raw (239 ∷ 187 ∷ 191 ∷ [])) [ none ↦ raw | some s ↦ s ])

-- `under`.
unfoldable pub under : List ℕ → List ℕ → Option (List ℕ)
unfolding same_text cut_prefix
under dir file =
    if same_text dir (codes ".") || same_text dir []
    then some file
    else cut_prefix file (dir ++ codes "/")

abbrev is_alphanumeric : ℕ → Bool
is_alphanumeric c = (leb 97 c && leb c 122) || (leb 48 c && leb c 57)

-- What may follow the first byte of a name.
unfoldable pub is_name_tail : List ℕ → Bool
is_name_tail [] = true
is_name_tail (c ∷ []) = is_alphanumeric c
is_name_tail (c ∷ d ∷ s) = (is_alphanumeric c || c == 45) && is_name_tail (d ∷ s)

-- `skillNamePattern`.
unfoldable pub is_skill_name : List ℕ → Bool
unfolding is_name_tail
is_skill_name [] = false
is_skill_name (c ∷ s) = is_alphanumeric c && leb (length s) 63 && is_name_tail s

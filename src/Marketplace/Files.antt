-- ===== src/Marketplace/Files.antt =====
-- `skillFiles` of internal/extensions/marketplace/plan.go. A step of the checks goes on with a value, or stops with what
-- the plan records of the directory.
use eggy.Prelude.{
  ℕ, ◌+◌, Bool, true, false, not, ◌||◌, none, some, List, [], ◌∷◌, ltb, length, if◌then◌else◌,
}
use eggy.Text.{codes}
use eggy.Loop.{same_text}
use eggy.Marketplace.{
  Formats, Tree, Skipped, max_reference_bytes, max_skill_dir_bytes, max_skill_dir_files, find_key,
  has_key, normalize_text, under,
}

-- What the plan records of a directory that brings no skill.
pub data Verdict : Type 0 where
  nothing : Verdict
  left_out : List Skipped → Verdict
  conflicting : List ℕ → Verdict

abbrev pub left_file : List ℕ → List ℕ → Verdict
left_file path reason = left_out (record { path = path; reason = reason } ∷ [])

pub data Step (A : Type 0) : Type 0 where
  go : A → Step A
  halt : Verdict → Step A

infixl 5 ◌>>=◌
unfoldable pub ◌>>=◌ : {A B : Type 0} → Step A → (A → Step B) → Step B
halt v >>= next = halt v
go a >>= next = next a

infixl 5 ◌>>◌
abbrev pub ◌>>◌ : {A B : Type 0} → Step A → Step B → Step B
m >> next = m >>= λ _. next

-- An early return under a condition.
unfoldable pub stop_if : Bool → Verdict → Step (Unit {0})
stop_if true v = halt v
stop_if false v = go tt

-- What `skillFiles` finds: the reference files, the skipped ones, and the bytes.
pub record Found : Type 0 where
  pub files : List (List ℕ × List ℕ)
  pub skipped : List Skipped
  pub total : ℕ

abbrev pub never_runs : List ℕ
never_runs = codes "Eggy never runs skill files"

abbrev pub reference_too_long : List ℕ
reference_too_long = codes "reference exceeds 64 KiB"

abbrev pub skill_md : List ℕ
skill_md = codes "SKILL.md"

unfoldable pub text_extensions : List (List ℕ)
text_extensions =
    codes ".md" ∷ codes ".txt" ∷ codes ".json" ∷ codes ".yaml" ∷ codes ".yml" ∷ codes ".csv" ∷ []

module _ {E : Type 0} (f : Formats E) where
  -- `isTextPath`.
  unfoldable pub is_text_path : List ℕ → Bool
  unfolding same_text has_key text_extensions
  is_text_path name = same_text (f.base name) skill_md || has_key text_extensions (f.ext name)

  -- A file of the tree, before what is found in the others.
  unfoldable pub add_file : List ℕ → List ℕ → List ℕ → Found → Found
  unfolding same_text under normalize_text is_text_path
  add_file dir file raw found = elim (under dir file) [
    | none ↦ found
    | some rel ↦
        let content = normalize_text raw in
        if same_text rel skill_md
        then found
        else if not (is_text_path rel)
        then record found { skipped = record { path = file; reason = never_runs } ∷ found.skipped }
        else if ltb max_reference_bytes (length content)
        then record found {
          skipped = record { path = file; reason = reference_too_long } ∷ found.skipped;
        }
        else record found {
          files = (rel, content) ∷ found.files;
          total = length content + found.total;
        }
  ]

  unfoldable pub find_files : List ℕ → List (List ℕ × List ℕ) → Found → Found
  unfolding add_file
  find_files dir [] found = found
  find_files dir ((file, raw) ∷ l) found = add_file dir file raw (find_files dir l found)

  -- The files that the tree has left out itself.
  unfoldable pub find_skipped : List ℕ → List (List ℕ) → List Skipped
  unfolding under is_text_path
  find_skipped dir [] = []
  find_skipped dir (file ∷ l) =
      let rest = find_skipped dir l in
      elim (under dir file) [
        | none ↦ rest
        | some rel ↦
            record {
              path = file;
              reason = if is_text_path rel then reference_too_long else never_runs;
            }
            ∷ rest
      ]

  -- The bytes of the skill's own file.
  unfoldable pub own_bytes : Tree → List ℕ → ℕ
  unfolding find_key normalize_text
  own_bytes tree dir = elim (find_key tree.files (f.join dir skill_md)) [
    | none ↦ 0
    | some raw ↦ length (normalize_text raw)
  ]

  -- `skillFiles`; a reason stops it.
  unfoldable pub skill_files : Tree → List ℕ → Step Found
  unfolding own_bytes find_files find_skipped stop_if
  skill_files tree dir =
      let found = find_files dir tree.files (record {
        files = [];
        skipped = find_skipped dir tree.skipped;
        total = own_bytes tree dir;
      }) in
      do
        stop_if (ltb max_skill_dir_files (length found.files + 1))
            (left_file dir (codes "skill directory exceeds 64 files"))
        stop_if (ltb max_skill_dir_bytes found.total)
            (left_file dir (codes "skill directory exceeds 256 KiB"))
        go found

-- ===== src/Marketplace/Skills.antt =====
-- `planSkill` of internal/extensions/marketplace/plan.go, and the directories it is called for.
use eggy.Prelude.{
  ℕ, Bool, false, not, ◌&&◌, ◌||◌, Option, none, some, List, [], ◌∷◌, ◌++◌, ltb, length,
  if◌then◌else◌,
}
use eggy.Prelude.Result.{ok, err}
use eggy.Text.{codes, is_empty}
use eggy.Loop.{same_text, cut_prefix}
use eggy.Marketplace.{
  FrontValue, text, structured, Formats, Tree, Skipped, PlanInput, PlannedSkill,
  max_skill_file_bytes, max_description_size, find_key, has_key, cut_at, contains_text,
  normalize_text, is_skill_name, Plan,
}
use eggy.Marketplace.Files.{
  nothing, left_out, conflicting, left_file, Step, go, halt, ◌>>=◌, ◌>>◌, stop_if, skill_md,
  skill_files,
}

pub record SkillText (E : Type 0) : Type 0 where
  pub front : List (List ℕ × FrontValue E)
  pub upstream : List ℕ
  pub description : List ℕ
  pub body : List ℕ

-- The plan before the first directory.
abbrev pub new_plan : {E : Type 0} → Plan E
new_plan = record { skills = []; skipped = []; conflicts = []; seen = [] }

module _ {E : Type 0} (f : Formats E) where
  -- `splitSkill`, whose errors are all left out under one reason.
  unfoldable pub split_skill : List ℕ → Option (List (List ℕ × FrontValue E) × List ℕ)
  unfolding cut_prefix cut_at
  split_skill content = elim (cut_prefix content (codes "---" ++ 10 ∷ [])) [
    | none ↦ none
    | some rest ↦ elim (cut_at (10 ∷ codes "---") rest) [
      | none ↦ none
      | some (before, after) ↦ elim (f.read_front before) [
        | err _ ↦ none
        | ok front ↦ some (front, f.trim_space after)
      ]
    ]
  ]

  -- `front[key].(string)`, which is empty when it is missing or of another kind.
  unfoldable pub string_of : List (List ℕ × FrontValue E) → List ℕ → List ℕ
  unfolding find_key
  string_of front key = elim (find_key front key) [
    | none ↦ []
    | some (text s) ↦ s
    | some (structured _) ↦ []
  ]

  -- The fields that a skill keeps as they are.
  unfoldable pub extra_of : List (List ℕ × FrontValue E) → List (List ℕ × FrontValue E)
  unfolding has_key
  extra_of [] = []
  extra_of ((key, value) ∷ front) =
      let rest = extra_of front in
      if has_key (codes "name" ∷ codes "description" ∷ codes "source" ∷ codes "disabled" ∷ []) key
      then rest
      else (key, value) ∷ rest

  -- Whether the instructions name a file that is not installed.
  unfoldable pub refers_to_skipped : List ℕ → List ℕ → List Skipped → Bool
  unfolding cut_prefix contains_text
  refers_to_skipped dir body [] = false
  refers_to_skipped dir body (s ∷ l) =
      contains_text body
        (elim (cut_prefix s.path (dir ++ codes "/")) [ none ↦ s.path | some rel ↦ rel ])
      || refers_to_skipped dir body l

  -- What `planSkill` reads of a directory before it looks at the name.
  unfoldable pub read_skill : Tree → List ℕ → Step (SkillText E)
  unfolding find_key stop_if normalize_text split_skill string_of
  read_skill tree dir =
      let skill_file = f.join dir skill_md in
      do
        raw ← elim (find_key tree.files skill_file) [ none ↦ halt nothing | some raw ↦ go raw ]
        let content = normalize_text raw
        stop_if (ltb max_skill_file_bytes (length content))
            (left_file skill_file (codes "SKILL.md exceeds 32 KiB"))
        parts ← elim (split_skill content) [
          | none ↦ halt (left_file skill_file (codes "malformed frontmatter"))
          | some parts ↦ go parts
        ]
        let upstream = string_of parts.0 (codes "name")
        let description = f.trim_space (string_of parts.0 (codes "description"))
        stop_if (is_empty upstream) (left_file skill_file (codes "frontmatter has no name"))
        stop_if (is_empty description)
            (left_file skill_file (codes "frontmatter has no description"))
        stop_if (is_empty parts.1) (left_file skill_file (codes "SKILL.md has no instructions"))
        stop_if (ltb max_description_size (length description))
            (left_file skill_file (codes "description exceeds 1024 bytes"))
        go (record {
          front = parts.0;
          upstream = upstream;
          description = description;
          body = parts.1;
        })

  module _ (input : PlanInput) where
    unfoldable pub renamed : List ℕ → List ℕ
    unfolding find_key
    renamed upstream = elim (find_key input.renames upstream) [ none ↦ upstream | some name ↦ name ]

    -- Whether a name belongs to a skill that this installation does not replace.
    unfoldable pub is_taken : List ℕ → Bool
    unfolding has_key
    is_taken name = elim input.skill_exists [
      | none ↦ false
      | some exists ↦ exists name && not (has_key input.replacing (codes "skill/" ++ name))
    ]

    -- The name under which a skill is planned: a valid one, that is neither planned nor taken.
    unfoldable pub claim_name : List (List ℕ) → List ℕ → Step (List ℕ)
    unfolding stop_if renamed is_taken is_skill_name has_key
    claim_name seen upstream =
        let name = renamed upstream in
        do
          stop_if (not (is_skill_name name) || has_key seen name) (conflicting upstream)
          stop_if (is_taken name) (conflicting upstream)
          go name

    -- `planSkill` up to what it adds to the plan: the skill with the files skipped on the way.
    unfoldable pub examine : Tree → List (List ℕ) → List ℕ → Step (PlannedSkill E × List Skipped)
    unfolding read_skill claim_name stop_if skill_files extra_of refers_to_skipped
    examine tree seen dir = do
      r ← read_skill tree dir
      name ← claim_name seen r.upstream
      found ← skill_files f tree dir
      let extra = extra_of r.front
      stop_if (not (f.can_store extra)) (
          left_out (
            found.skipped
            ++ record { path = f.join dir skill_md; reason = codes "frontmatter cannot be stored" }
              ∷ []))
      go (
        record {
          name = name;
          upstream_name = r.upstream;
          description = r.description;
          body = r.body;
          hash = f.skill_hash r.description r.body found.files;
          extra = extra;
          files = found.files;
          warnings =
              if refers_to_skipped dir r.body found.skipped
              then codes "this skill refers to files Eggy will not install and may not work" ∷ []
              else [];
        },
        found.skipped,
      )

    -- What a directory adds to the plan. A name is seen once its skill is planned, as the code takes
    -- its mark back when the skill is left out after it.
    unfoldable pub record_examined : Plan E → Step (PlannedSkill E × List Skipped) → Plan E
    record_examined plan (halt nothing) = plan
    record_examined plan (halt (left_out found)) = record plan { skipped = plan.skipped ++ found }
    record_examined plan (halt (conflicting upstream)) = record plan {
      conflicts = plan.conflicts ++ upstream ∷ [];
    }
    record_examined plan (go (skill, found)) = record {
      skills = plan.skills ++ skill ∷ [];
      skipped = plan.skipped ++ found;
      conflicts = plan.conflicts;
      seen = plan.seen ++ skill.name ∷ [];
    }

    -- `planSkill`.
    unfoldable pub plan_skill : Tree → Plan E → List ℕ → Plan E
    unfolding examine record_examined
    plan_skill tree plan dir = record_examined plan (examine tree plan.seen dir)

    -- The loop over the directories.
    unfoldable pub plan_skills : Tree → Plan E → List (List ℕ) → Plan E
    unfolding plan_skill
    plan_skills tree plan [] = plan
    plan_skills tree plan (dir ∷ dirs) = plan_skills tree (plan_skill tree plan dir) dirs

  -- `pluginSkillDirs`.
  unfoldable pub child_dirs : List ℕ → List (List ℕ × List ℕ) → List (List ℕ)
  unfolding same_text
  child_dirs base [] = []
  child_dirs base ((file, _) ∷ l) =
      let rest = child_dirs base l in
      if same_text (f.base file) skill_md && same_text (f.dir_of (f.dir_of file)) base
      then f.dir_of file ∷ rest
      else rest

  unfoldable pub plugin_skill_dirs : Tree → List ℕ → List (List ℕ)
  unfolding find_key child_dirs
  plugin_skill_dirs tree root = f.sort (
      child_dirs (f.join root (codes "skills")) tree.files
      ++ elim (find_key tree.files (f.join root skill_md)) [ none ↦ [] | some _ ↦ root ∷ [] ])

-- ===== src/Marketplace/Sound.antt =====
-- What every plan of skills keeps, in internal/extensions/marketplace/plan.go.
use mathlib.Core.Path.{subst}
use eggy.Prelude.{
  ℕ, ◌+◌, ◌≤◌, ◌≡◌, inl, inr, refl, ap, Bool, true, false, List, [], ◌∷◌, arith, ltb, length, All,
  Bool-cases, Option-cases,
}
use eggy.Text.{codes, is_empty}
use eggy.Loop.{same_text}
use eggy.Marketplace.{
  Formats, Tree, Skipped, PlanInput, PlannedSkill, max_reference_bytes, max_skill_dir_files,
  max_skill_dir_bytes, max_description_size, has_key, is_skill_name, under, normalize_text,
}
use eggy.Marketplace.Files.{
  Verdict, Step, go, halt, ◌>>=◌, stop_if, Found, add_file, find_files, skill_files, is_text_path,
  find_skipped, own_bytes,
}
use eggy.Marketplace.Skills.{is_taken, SkillText, read_skill, claim_name, examine}

-- A step that goes on after an early return.
stop_if-go : (b : Bool) (v : Verdict) (u : Unit {0}) → stop_if b v ≡ go u → b ≡ false
unfolding stop_if
stop_if-go true v u h = absurd (ground (arith, h))
stop_if-go false v u h = refl

halt-ne-go : {A : Type 0} (v : Verdict) (a : A) → halt v ≡ go a → ⊥
halt-ne-go v a h = subst (λ s. elim s [ halt _ ↦ Unit {0} | go _ ↦ ⊥ ]) h tt

-- What a chain that goes on to its end went through.
bind-go :
    {A B : Type 0} (m : Step A) (next : A → Step B) (b : B)
    → (m >>= next) ≡ go b
    → (a : A) × ((m ≡ go a) × (next a ≡ go b))
unfolding ◌>>=◌
bind-go (halt v) next b h = absurd (halt-ne-go v b h)
bind-go (go a) next b h = (a, (refl, h))

go-injective : {A : Type 0} (a b : A) → go a ≡ go b → a ≡ b
go-injective a b h = ap (λ s. elim s [ go x ↦ x | halt _ ↦ a ]) h

-- The bytes of the files that are kept.
unfoldable pub bytes_of : List (List ℕ × List ℕ) → ℕ
bytes_of [] = 0
bytes_of (file ∷ l) = length file.1 + bytes_of l

module _ {E : Type 0} (f : Formats E) where
  -- A description within its limit, and instructions.
  pub record Reads (r : SkillText E) : Type 0 where
    pub described : is_empty r.description ≡ false
    pub short : length r.description ≤ max_description_size
    pub instructs : is_empty r.body ≡ false

  read_skill-Reads :
      (tree : Tree) (dir : List ℕ) (r : SkillText E) → read_skill f tree dir ≡ go r → Reads r
  unfolding read_skill
  read_skill-Reads tree dir r h =
      let (raw, (found, h₁)) = bind-go _ _ r h in
      let (_, (_, h₂)) = bind-go _ _ r h₁ in
      let (parts, (split, h₃)) = bind-go _ _ r h₂ in
      let (_, (_, h₄)) = bind-go _ _ r h₃ in
      let (u₅, (described, h₅)) = bind-go _ _ r h₄ in
      let (u₆, (instructs, h₆)) = bind-go _ _ r h₅ in
      let (u₇, (short, h₇)) = bind-go _ _ r h₆ in
      let same = go-injective _ r h₇ in
      subst Reads same (record {
        described = stop_if-go _ _ u₅ described;
        short = ground (arith, stop_if-go _ _ u₇ short);
        instructs = stop_if-go _ _ u₆ instructs;
      })

  -- A file within the bound of references.
  abbrev pub Bounded : List ℕ × List ℕ → Type 0
  Bounded file = length file.1 ≤ max_reference_bytes

  -- Files within the bound, and counted in the total.
  pub record Counts (found : Found) : Type 0 where
    pub bounded : All Bounded found.files
    pub counted : bytes_of found.files ≤ found.total

  add_file-Counts :
      (dir file raw : List ℕ) (found : Found)
      → Counts found
      → Counts (add_file f dir file raw found)
  unfolding add_file bytes_of
  add_file-Counts dir file raw found h = elim (Option-cases (under dir file)) [
    | inl outside ↦ rw (add_file, outside) h
    | inr (rel, inside) ↦ elim (Bool-cases (same_text rel (codes "SKILL.md"))) [
      | inl own ↦ rw (add_file, inside, own) h
      | inr reference ↦ elim (Bool-cases (is_text_path f rel)) [
        | inr program ↦
            rw (add_file, inside, reference, program)
              (record { bounded = h.bounded; counted = h.counted })
        | inl readable ↦ elim (Bool-cases (ltb max_reference_bytes (length (normalize_text raw)))) [
          | inl long ↦
              rw (add_file, inside, reference, readable, long)
                (record { bounded = h.bounded; counted = h.counted })
          | inr short ↦
              let counted = h.counted in
              rw (add_file, inside, reference, readable, short)
                (record {
                  bounded = (ground (arith, short), h.bounded);
                  counted = omega (arith, counted);
                })
        ]
      ]
    ]
  ]

  find_files-Counts :
      (dir : List ℕ) (l : List (List ℕ × List ℕ)) (found : Found)
      → Counts found
      → Counts (find_files f dir l found)
  unfolding find_files
  find_files-Counts dir [] found h = h
  find_files-Counts dir ((file, raw) ∷ l) found h =
      add_file-Counts dir file raw (find_files f dir l found) (find_files-Counts dir l found h)

  -- The references of a skill within the limits of a directory.
  pub record Fits (files : List (List ℕ × List ℕ)) : Type 0 where
    pub few : length files + 1 ≤ max_skill_dir_files
    pub bounded : All Bounded files
    pub small : bytes_of files ≤ max_skill_dir_bytes

  skill_files-Fits :
      (tree : Tree) (dir : List ℕ) (found : Found)
      → skill_files f tree dir ≡ go found
      → Fits found.files
  unfolding skill_files bytes_of
  skill_files-Fits tree dir found h =
      let (u₁, (few, h₁)) = bind-go _ _ found h in
      let (u₂, (small, h₂)) = bind-go _ _ found h₁ in
      let same = go-injective _ found h₂ in
      let counts =
        find_files-Counts dir tree.files
          (record {
            files = [];
            skipped = find_skipped f dir tree.skipped;
            total = own_bytes f tree dir;
          })
          (record { bounded = tt; counted = omega arith }) in
      let counted = counts.counted in
      subst (λ (x : Found). Fits x.files) same
        (record {
          few = ground (arith, stop_if-go _ _ u₁ few);
          bounded = counts.bounded;
          small = ground (arith, stop_if-go _ _ u₂ small, counted);
        })

  module _ (input : PlanInput) where
    claim_name-ok :
        (seen : List (List ℕ)) (upstream name : List ℕ)
        → claim_name f input seen upstream ≡ go name
        → (is_skill_name name ≡ true)
          × ((has_key seen name ≡ false) × (is_taken f input name ≡ false))
    unfolding claim_name
    claim_name-ok seen upstream name h =
        let (u₁, (valid, h₁)) = bind-go _ _ name h in
        let (u₂, (free, h₂)) = bind-go _ _ name h₁ in
        let same = go-injective _ name h₂ in
        let fresh = stop_if-go _ _ u₁ valid in
        let untaken = stop_if-go _ _ u₂ free in
        subst
          (λ x.
            (is_skill_name x ≡ true) × ((has_key seen x ≡ false) × (is_taken f input x ≡ false)))
          same (ground (arith, fresh), (ground (arith, fresh), untaken))

    -- A planned skill that the store of skills accepts: a valid name that no other skill has, a description within its
    -- limit, instructions, and references within theirs.
    pub record Acceptable (s : PlannedSkill E) : Type 0 where
      pub valid : is_skill_name s.name ≡ true
      pub free : is_taken f input s.name ≡ false
      pub described : is_empty s.description ≡ false
      pub short : length s.description ≤ max_description_size
      pub instructs : is_empty s.body ≡ false
      pub fits : Fits s.files
      pub stored : f.can_store s.extra ≡ true

    pub examine-ok :
        (tree : Tree) (seen : List (List ℕ)) (dir : List ℕ) (s : PlannedSkill E) (l : List Skipped)
        → examine f input tree seen dir ≡ go (s, l)
        → Acceptable s × (has_key seen s.name ≡ false)
    unfolding examine
    examine-ok tree seen dir s l h =
        let (r, (read, h₁)) = bind-go _ _ (s, l) h in
        let (name, (claimed, h₂)) = bind-go _ _ (s, l) h₁ in
        let (found, (files, h₃)) = bind-go _ _ (s, l) h₂ in
        let (u₄, (storable, h₄)) = bind-go _ _ (s, l) h₃ in
        let same = go-injective _ (s, l) h₄ in
        let texts = read_skill-Reads tree dir r read in
        let (valid, (unseen, free)) = claim_name-ok seen r.upstream name claimed in
        let stored = stop_if-go _ _ u₄ storable in
        subst
          (λ (x : PlannedSkill E × List Skipped). Acceptable x.0 × (has_key seen x.0.name ≡ false))
          same
          (
            record {
              valid = valid;
              free = free;
              described = texts.described;
              short = texts.short;
              instructs = texts.instructs;
              fits = skill_files-Fits tree dir found files;
              stored = ground (arith, stored);
            },
            unseen,
          )

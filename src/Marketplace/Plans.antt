-- ===== src/Marketplace/Plans.antt =====
-- What a plan of skills holds, in internal/extensions/marketplace/plan.go, whatever the directories bring.
use mathlib.Core.Path.{subst}
use eggy.Prelude.{ℕ, ◌≡◌, refl, ap, ◌∙◌, sym, false, List, [], ◌∷◌, ◌++◌, map, arith, All}
use eggy.Loop.{same_text}
use eggy.Marketplace.{Formats, Tree, PlanInput, PlannedSkill, Plan, Skipped, has_key}
use eggy.Marketplace.Files.{nothing, left_out, conflicting, Step, go, halt}
use eggy.Marketplace.Skills.{examine, record_examined, plan_skill, plan_skills, new_plan}
use eggy.Marketplace.Sound.{Acceptable, examine-ok}

pub All-snoc :
    {A : Type 0} (P : A → Type 0) (l : List A) (x : A) → All P l → P x → All P (l ++ x ∷ [])
All-snoc P [] x h p = (p, tt)
All-snoc P (y ∷ l) x (q, h) p = (q, All-snoc P l x h p)

-- No two of a list of names are the same.
abbrev pub Distinct : List (List ℕ) → Type 0
Distinct [] = Unit
Distinct (n ∷ l) = All (λ k. same_text n k ≡ false) l × Distinct l

has_key-apart :
    (l : List (List ℕ)) (n x : List ℕ)
    → has_key (n ∷ l) x ≡ false
    → (same_text n x ≡ false) × (has_key l x ≡ false)
unfolding has_key
has_key-apart l n x h = (ground (arith, h), ground (arith, h))

snoc-Distinct :
    (l : List (List ℕ)) (x : List ℕ) → Distinct l → has_key l x ≡ false → Distinct (l ++ x ∷ [])
snoc-Distinct [] x d h = (tt, tt)
snoc-Distinct (n ∷ l) x (apart, d) h =
    let (other, rest) = has_key-apart l n x h in
    (All-snoc (λ k. same_text n k ≡ false) l x apart other, snoc-Distinct l x d rest)

abbrev name_of : {E : Type 0} → PlannedSkill E → List ℕ
name_of s = s.name

map-snoc :
    {E : Type 0} (l : List (PlannedSkill E)) (s : PlannedSkill E)
    → map name_of (l ++ s ∷ []) ≡ map name_of l ++ s.name ∷ []
map-snoc [] s = refl
map-snoc (t ∷ l) s = ap (λ x. t.name ∷ x) (map-snoc l s)

module _ {E : Type 0} (f : Formats E) (input : PlanInput) where
  pub record Sound (plan : Plan E) : Type 0 where
    pub acceptable : All (Acceptable f input) plan.skills
    pub distinct : Distinct (map name_of plan.skills)
    pub marked : plan.seen ≡ map name_of plan.skills

  recorded-Sound :
      (plan : Plan E) (examined : Step (PlannedSkill E × List Skipped))
      → Sound plan
      → ((s : PlannedSkill E) (l : List Skipped)
          → examined ≡ go (s, l)
          → Acceptable f input s × (has_key plan.seen s.name ≡ false))
      → Sound (record_examined f input plan examined)
  unfolding record_examined
  recorded-Sound plan (halt nothing) h brings = h
  recorded-Sound plan (halt (left_out l)) h brings = record {
    acceptable = h.acceptable;
    distinct = h.distinct;
    marked = h.marked;
  }
  recorded-Sound plan (halt (conflicting n)) h brings = record {
    acceptable = h.acceptable;
    distinct = h.distinct;
    marked = h.marked;
  }
  recorded-Sound plan (go (s, l)) h brings =
      let (good, unseen) = brings s l refl in
      let names = map-snoc plan.skills s in
      let new = subst (λ x. has_key x s.name ≡ false) h.marked unseen in
      record {
        acceptable = All-snoc (Acceptable f input) plan.skills s h.acceptable good;
        distinct =
            subst Distinct (sym names)
              (snoc-Distinct (map name_of plan.skills) s.name h.distinct new);
        marked = ap (λ x. x ++ s.name ∷ []) h.marked ∙ sym names;
      }

  kept-Sound :
      (tree : Tree) (dirs : List (List ℕ)) (plan : Plan E)
      → Sound plan
      → Sound (plan_skills f input tree plan dirs)
  unfolding plan_skills plan_skill
  kept-Sound tree [] plan h = h
  kept-Sound tree (dir ∷ dirs) plan h = kept-Sound tree dirs (plan_skill f input tree plan dir) (
      recorded-Sound plan (examine f input tree plan.seen dir) h
        (λ s l went. examine-ok f input tree plan.seen dir s l went))

  -- Whatever the directories of a tree bring, each skill of the plan has a valid name that no other skill of
  -- the owner's has unless the installation replaces it, a description that is not empty and within 1024
  -- bytes, instructions, fields that can be stored, and at most 63 references of at most 64 KiB each and
  -- 256 KiB together; and no two skills of the plan have the same name.
  pub plan_skills-Acceptable :
      (tree : Tree) (dirs : List (List ℕ))
      → All (Acceptable f input) (plan_skills f input tree new_plan dirs).skills
        × Distinct (map name_of (plan_skills f input tree new_plan dirs).skills)
  plan_skills-Acceptable tree dirs =
      let kept =
        kept-Sound tree dirs new_plan (record { acceptable = tt; distinct = tt; marked = refl }) in
      (kept.acceptable, kept.distinct)

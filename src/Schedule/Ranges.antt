-- ===== src/Schedule/Ranges.antt =====
-- The values that `parseCronField` of internal/schedule/local/cron.go selects.
use mathlib.Core.Path.{subst}
use eggy.Prelude.{
  ℕ, zero, suc, ◌+◌, ◌-◌, ◌≤◌, ◌≡◌, ◌∙◌, sym, refl, false, ◌||◌, List, [], ◌∷◌, ◌++◌, arith, All,
  ltb, Bool-cases, inl, inr,
}
use eggy.Prelude.Result.{ok, Result-cases, ok-injective}
use eggy.Text.{is_empty}
use eggy.Schedule.Cron.{
  CronField, split, step_of, range_of, selected, parse_segment, parse_segments, parse_cron_field,
}

module _ (minimum maximum : ℕ) where
  abbrev pub InRange : ℕ → Type 0
  InRange v = (minimum ≤ v) × (v ≤ maximum)

  selected-InRange :
      (fuel end step candidate : ℕ)
      → minimum ≤ candidate
      → end ≤ maximum
      → All InRange (selected fuel false end step candidate)
  unfolding selected
  selected-InRange zero end step candidate from to = tt
  selected-InRange (suc fuel) end step candidate from to = elim (Bool-cases (ltb end candidate)) [
    | inl past ↦ rw past tt
    | inr within ↦ rw within (
      (from, ground (arith, within, to)),
      selected-InRange fuel end step (candidate + step) (omega (arith, from)) to,
    )
  ]

  append-InRange : (l r : List ℕ) → All InRange l → All InRange r → All InRange (l ++ r)
  append-InRange [] r a b = b
  append-InRange (x ∷ l) r a b = (a.0, append-InRange l r a.1 b)

  parse_segment-InRange :
      (segment l : List ℕ) → parse_segment minimum maximum false segment ≡ ok l → All InRange l
  unfolding parse_segment
  parse_segment-InRange segment l h = elim (Result-cases (step_of (split 47 segment))) [
    | inr (e, refused) ↦ absurd (ground (arith, refused, h))
    | inl ((base, step), stepped) ↦
        elim (Result-cases (range_of minimum maximum base (split 45 base))) [
          | inr (e, refused) ↦ absurd (ground (arith, stepped, refused, h))
          | inl ((start, end), ranged) ↦
              elim (Bool-cases (ltb start minimum || ltb maximum end || ltb end start)) [
                | inl outside ↦ absurd (ground (arith, stepped, ranged, outside, h))
                | inr inside ↦
                    let chosen = selected (suc end - start) false end step start in
                    let made : ok chosen ≡ ok l =
                      sym (rw (parse_segment, stepped, ranged, inside) refl) ∙ h in
                    subst (λ x. All InRange x) (ok-injective chosen l made)
                      (selected-InRange (suc end - start) end step start (ground (arith, inside))
                        (ground (arith, inside)))
              ]
        ]
  ]

  parse_segments-InRange :
      (segments : List (List ℕ)) (l : List ℕ)
      → parse_segments minimum maximum false segments ≡ ok l
      → All InRange l
  unfolding parse_segments
  parse_segments-InRange [] l h = subst (λ x. All InRange x) (ok-injective [] l h) tt
  parse_segments-InRange (s ∷ segments) l h =
      elim (Result-cases (parse_segment minimum maximum false s)) [
        | inr (e, refused) ↦ absurd (ground (arith, refused, h))
        | inl (chosen, parsed) ↦
            elim (Result-cases (parse_segments minimum maximum false segments)) [
              | inr (e, refused) ↦ absurd (ground (arith, parsed, refused, h))
              | inl (rest, more) ↦
                  let made : ok (chosen ++ rest) ≡ ok l =
                    sym (rw (parse_segments, parsed, more) refl) ∙ h in
                  subst (λ x. All InRange x) (ok-injective (chosen ++ rest) l made)
                    (append-InRange chosen rest (parse_segment-InRange s chosen parsed)
                      (parse_segments-InRange segments rest more))
            ]
      ]

  -- A field of an expression that parses, other than the weekday's, allows some value, and only
  -- values between its limits.
  pub parse_cron_field-InRange :
      (value : List ℕ) (field : CronField)
      → parse_cron_field value minimum maximum false ≡ ok field
      → All InRange field.allowed × (is_empty field.allowed ≡ false)
  unfolding parse_cron_field
  parse_cron_field-InRange value field h =
      elim (Result-cases (parse_segments minimum maximum false (split 44 value))) [
        | inr (e, refused) ↦ absurd (ground (arith, refused, h))
        | inl (allowed, parsed) ↦ elim (Bool-cases (is_empty allowed)) [
          | inl nothing ↦ absurd (ground (arith, parsed, nothing, h))
          | inr something ↦
              let same : allowed ≡ field.allowed = ground (arith, parsed, something, h) in
              subst (λ x. All InRange x × (is_empty x ≡ false)) same
                (parse_segments-InRange (split 44 value) allowed parsed, something)
        ]
      ]

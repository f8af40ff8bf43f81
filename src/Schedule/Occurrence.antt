-- ===== src/Schedule/Occurrence.antt =====
-- `Cron.Next` of internal/schedule/local/cron.go against what it stands for: the first minute after
-- a time that the expression matches.
use mathlib.Core.Path.{subst}
use eggy.Prelude.{
  ℕ, zero, suc, ◌+◌, ◌-◌, ◌*◌, ◌/◌, ◌%◌, ◌<◌, ◌≤◌, ◌≡◌, sym, ap, ◌∙◌, true, false, arith,
  Bool-cases, inl, inr, leb,
}
use eggy.Prelude.Result.{Result, ok, err}
use eggy.Schedule.Cron.{Cron, Calendar, matches, next_from, next, next_minute}

module _ (cron : Cron) (c : Calendar) where
  -- No minute from the n-th on matches, before the limit.
  abbrev pub NoneBefore : ℕ → ℕ → Type 0
  NoneBefore n limit = (m : ℕ) → n ≤ m → m * 60 < limit → matches cron c (m * 60) ≡ false

  NoneBefore-step :
      (n limit : ℕ)
      → matches cron c (n * 60) ≡ false
      → NoneBefore (suc n) limit
      → NoneBefore n limit
  NoneBefore-step n limit here later m from below = elim (Bool-cases (leb m n)) [
    | inl first ↦
        let same : n ≡ m = ground arith in ap (λ k. matches cron c (k * 60)) (sym same) ∙ here
    | inr more ↦ later m (ground arith) below
  ]

  -- What the search says: an answer is the first matching minute, and an error that there is none.
  abbrev pub Searched : ℕ → ℕ → Result ℕ → Type 0
  Searched n limit (ok t) =
      (n * 60 ≤ t) × ((t < limit) × ((t % 60 ≡ 0) × ((matches cron c t ≡ true) × NoneBefore n t)))
  Searched n limit (err e) = NoneBefore n limit

  Searched-step :
      (n limit : ℕ) (r : Result ℕ)
      → matches cron c (n * 60) ≡ false
      → Searched (suc n) limit r
      → Searched n limit r
  Searched-step n limit (ok t) here (from, (below, (minute, (hit, misses)))) =
      (omega (arith, from), (below, (minute, (hit, NoneBefore-step n t here misses))))
  Searched-step n limit (err e) here misses = NoneBefore-step n limit here misses

  next_from-Searched :
      (n limit fuel : ℕ)
      → limit < (n + fuel) * 60
      → Searched n limit (next_from cron c limit fuel (n * 60))
  unfolding next_from
  next_from-Searched n limit zero enough =
      λ m from below. absurd (omega (arith, enough, from, below))
  next_from-Searched n limit (suc fuel) enough =
      let later : suc n * 60 ≡ n * 60 + 60 = omega arith in
      elim (Bool-cases (leb limit (n * 60))) [
        | inl past ↦ rw past (λ m from below. absurd (ground (arith, from, below, past)))
        | inr before ↦ elim (Bool-cases (matches cron c (n * 60))) [
          | inl hit ↦
              rw (before, hit)
                (
                  omega arith,
                  (
                    ground (arith, before),
                    (omega arith, (hit, λ m from below. absurd (omega (arith, from, below)))),
                  ),
                )
          | inr miss ↦
              rw (before, miss)
                (Searched-step n limit _ miss (
                  subst (λ k. Searched (suc n) limit (next_from cron c limit fuel k)) later
                    (next_from-Searched (suc n) limit fuel (omega (arith, enough)))))
        ]
      ]

  -- `Next` answers with the first minute after the given time that the expression matches, and fails
  -- only when no minute within the five years does; the search is long enough for both.
  pub next-Searched :
      (after : ℕ)
      → Searched (after / 60 + 1) (c.five_years (next_minute after)) (next cron c after)
        × (after < next_minute after)
  unfolding next
  next-Searched after =
      let n = after / 60 + 1 in
      let limit = c.five_years (next_minute after) in
      (next_from-Searched n limit ((limit - n * 60) / 60 + 1) (omega arith), omega arith)

-- ===== src/Throttle/Told.antt =====
-- internal/auth/session/throttle.go makes logins wait as their histories say.
use eggy.Prelude.{
  ℕ, suc, ◌+◌, ◌≡◌, refl, ap, ◌∙◌, String, true, false, not, Option, none, some, List, [], ◌∷◌,
  arith, Bool-cases, inl, inr, length, str_eq, if◌then◌else◌,
}
use eggy.Throttle.{AttemptState, is_expired, delay_of, state_locked, failed_once}
use eggy.Throttle.Abstract.{
  current, Windows, window_failed, window_reset, Attempt, asked, failed, passed, delays,
  abstract_delays, InOrder,
}
use eggy.Throttle.Histories.{Failures, latest, still_count, failed_again, wait, waits}
use eggy.Throttle.Refines.{delays-refines}

-- What the throttle keeps of failures.
abbrev kept : Failures → AttemptState
kept f = record {
  failures = length f.times;
  window_start = f.opened;
  last_failure = latest f.times;
}

abbrev kept_of : Option Failures → Option AttemptState
kept_of none = none
kept_of (some f) = some (kept f)

is_expired-kept : (now : ℕ) (f : Failures) → is_expired now (kept f) ≡ not (still_count now f)
unfolding is_expired still_count
is_expired-kept now f = ground arith

delay_of-kept : (o : Option Failures) (clock : ℕ → ℕ) → delay_of (kept_of o) clock ≡ wait o clock
unfolding delay_of wait is_expired still_count eggy.Throttle.remaining
delay_of-kept none clock = refl
delay_of-kept (some f) clock = ground arith

joined :
    (f : Failures) (now : ℕ) → failed_once (kept f) now ≡ kept (record f { times = now ∷ f.times })
joined f now = ap (λ n. record { failures = n; window_start = f.opened; last_failure = now }) counts
  where
    counts : length f.times + 1 ≡ suc (length f.times)
    counts = omega arith

failed-kept :
    (o : Option Failures) (clock : ℕ → ℕ)
    → failed_once (state_locked (current (clock 0) (kept_of o)) clock) (clock 0)
      ≡ kept (failed_again o clock)
unfolding state_locked current failed_again
failed-kept none clock = refl
failed-kept (some f) clock = elim (Bool-cases (still_count (clock 0) f)) [
  | inr over ↦
      let gone : is_expired (clock 0) (kept f) ≡ true = is_expired-kept (clock 0) f ∙ ap not over in
      rw (gone, over) refl
  | inl counts ↦
      let here : is_expired (clock 0) (kept f) ≡ false =
        is_expired-kept (clock 0) f ∙ ap not counts in
      elim (Bool-cases (still_count (clock 1) f)) [
        | inl joins ↦
            let here' : is_expired (clock 1) (kept f) ≡ false =
              is_expired-kept (clock 1) f ∙ ap not joins in
            rw (here, here', counts, joins) (joined f (clock 0))
        | inr ceased ↦
            let gone' : is_expired (clock 1) (kept f) ≡ true =
              is_expired-kept (clock 1) f ∙ ap not ceased in
            rw (here, gone', counts, ceased) refl
      ]
]

abstract_delays-waits :
    (windows : Windows) (histories : String → Option Failures) (attempts : List Attempt)
    → ((key : String) → windows key ≡ kept_of (histories key))
    → abstract_delays windows attempts ≡ waits histories attempts
unfolding abstract_delays waits window_failed window_reset
abstract_delays-waits windows histories [] same = refl
abstract_delays-waits windows histories (asked key clock ∷ later) same = λ i.
    (ap (λ o. delay_of o clock) (same key) ∙ delay_of-kept (histories key) clock) i
    ∷ abstract_delays-waits windows histories later same i
abstract_delays-waits windows histories (failed key clock ∷ later) same =
    abstract_delays-waits (window_failed windows key clock)
      (λ other.
        if str_eq key other then some (failed_again (histories key) clock) else histories other)
      later
      (λ other. elim (Bool-cases (str_eq key other)) [
        | inl own ↦ rw own (
            ap (λ o. some (failed_once (state_locked (current (clock 0) o) clock) (clock 0)))
              (same key)
            ∙ ap some (failed-kept (histories key) clock))
        | inr foreign ↦ rw foreign (same other)
      ])
abstract_delays-waits windows histories (passed key clock ∷ later) same =
    abstract_delays-waits (window_reset windows key)
      (λ other. if str_eq key other then none else histories other) later
      (λ other. elim (Bool-cases (str_eq key other)) [
        | inl own ↦ rw own refl
        | inr foreign ↦ rw foreign (same other)
      ])

-- From the empty map, for any attempts of any keys, as long as the clock does not go back, the throttle tells
-- the delays that the failed logins themselves call for, however its map is swept: each key waits by its
-- own failures since it last passed, of which five or more within fifteen minutes of the first make it
-- wait two seconds from the last; a failure after those fifteen minutes is the first of new ones.
pub delays-waits :
    (attempts : List Attempt)
    → InOrder 0 attempts
    → delays [] attempts ≡ waits (λ key. none) attempts
delays-waits attempts order =
    delays-refines attempts order
    ∙ abstract_delays-waits (λ key. none) (λ key. none) attempts (λ key. refl)

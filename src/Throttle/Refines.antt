-- ===== src/Throttle/Refines.antt =====
-- internal/auth/session/throttle.go tells the delays of its abstract description.
use eggy.Prelude.{
  ℕ, ◌≤◌, ◌≡◌, refl, sym, ap, ◌∙◌, String, Option, none, some, List, [], ◌∷◌, arith, Bool-cases,
  inl, inr, str_eq,
}
use eggy.Prelude.Dict.{Dict, get, get-put, get-remove}
use eggy.Throttle.{
  AttemptState, is_expired, delay_of, delay, sweep, state_locked, record_failure, reset,
  failed_once,
}
use eggy.Throttle.Abstract.{
  current, Windows, window_failed, window_reset, Attempt, asked, failed, passed, delays,
  abstract_delays, InOrder,
}

pub get-sweep :
    (now : ℕ) (attempts : Dict AttemptState) (key : String)
    → get (sweep now attempts) key ≡ current now (get attempts key)
unfolding get sweep current
get-sweep now [] key = refl
get-sweep now ((k, state) ∷ attempts) key =
    ground (arith, get-sweep now attempts key, get-remove (sweep now attempts) k key)

current-current :
    (now t : ℕ) (o : Option AttemptState) → now ≤ t → current t (current now o) ≡ current t o
unfolding current is_expired
current-current now t none h = refl
current-current now t (some state) h = ground arith

delay_of-current :
    (clock : ℕ → ℕ) (o : Option AttemptState)
    → delay_of (current (clock 0) o) clock ≡ delay_of o clock
unfolding current delay_of is_expired
delay_of-current clock none = refl
delay_of-current clock (some state) = ground arith

-- From `now` on, the map and the windows tell the same.
abbrev Agree : ℕ → Dict AttemptState → Windows → Type 0
Agree now attempts windows =
    (key : String) (t : ℕ) → now ≤ t → current t (get attempts key) ≡ current t (windows key)

reset-Agree :
    (now : ℕ) (attempts : Dict AttemptState) (windows : Windows) (key : String)
    → Agree now attempts windows
    → Agree now (reset attempts key) (window_reset windows key)
unfolding reset window_reset
reset-Agree now attempts windows key h other t later = elim (Bool-cases (str_eq key other)) [
  | inl same ↦ rw (get-remove attempts key other, same) refl
  | inr different ↦ rw (get-remove attempts key other, different) (h other t later)
]

record_failure-Agree :
    (now : ℕ) (attempts : Dict AttemptState) (windows : Windows) (key : String) (clock : ℕ → ℕ)
    → now ≤ clock 0
    → Agree now attempts windows
    → Agree (clock 0) (record_failure attempts key clock) (window_failed windows key clock)
unfolding record_failure window_failed
record_failure-Agree now attempts windows key clock starts h other t later =
    let live = sweep (clock 0) attempts in
    let state = failed_once (state_locked (get live key) clock) (clock 0) in
    elim (Bool-cases (str_eq key other)) [
      | inl same ↦
          rw (get-put live key state other, same)
            (ap (λ o. current t (some (failed_once (state_locked o clock) (clock 0))))
              (get-sweep (clock 0) attempts key ∙ h key (clock 0) starts))
      | inr different ↦
          rw (get-put live key state other, different)
            (ap (λ o. current t o) (get-sweep (clock 0) attempts other)
              ∙ (current-current (clock 0) t (get attempts other) later
                  ∙ h other t (omega (arith, starts, later))))
    ]

Agree-weaken :
    (now t : ℕ) (attempts : Dict AttemptState) (windows : Windows)
    → now ≤ t
    → Agree now attempts windows
    → Agree t attempts windows
Agree-weaken now t attempts windows h agree key u later = agree key u (omega (arith, h, later))

delays-Agree :
    (now : ℕ) (attempts : Dict AttemptState) (windows : Windows) (calls : List Attempt)
    → Agree now attempts windows
    → InOrder now calls
    → delays attempts calls ≡ abstract_delays windows calls
unfolding delays abstract_delays delay
delays-Agree now attempts windows [] agree order = refl
delays-Agree now attempts windows (asked key clock ∷ calls) agree order =
    let at : now ≤ clock 2 = omega (arith, order.0, order.1.0, order.1.1.0) in
    let same : delay_of (get attempts key) clock ≡ delay_of (windows key) clock =
      sym (delay_of-current clock (get attempts key))
      ∙ (ap (λ o. delay_of o clock) (agree key (clock 0) order.0)
          ∙ delay_of-current clock (windows key)) in
    λ i.
      same i
      ∷ delays-Agree (clock 2) attempts windows calls
          (Agree-weaken now (clock 2) attempts windows at agree) order.1.1.1 i
delays-Agree now attempts windows (failed key clock ∷ calls) agree order =
    delays-Agree (clock 2) _ _ calls
      (Agree-weaken (clock 0) (clock 2) _ _ (omega (arith, order.1.0, order.1.1.0))
        (record_failure-Agree now attempts windows key clock order.0 agree))
      order.1.1.1
delays-Agree now attempts windows (passed key clock ∷ calls) agree order =
    delays-Agree (clock 2) _ _ calls
      (Agree-weaken now (clock 2) _ _ (omega (arith, order.0, order.1.0, order.1.1.0))
        (reset-Agree now attempts windows key agree))
      order.1.1.1

-- However the map is swept, the throttle tells the delays of its abstract description, in which every
-- key has a window of its own that counts as none once it has expired: from the empty map, for any
-- attempts of any keys, as long as the clock does not go back.
pub delays-refines :
    (calls : List Attempt) → InOrder 0 calls → delays [] calls ≡ abstract_delays (λ key. none) calls
delays-refines calls order =
    delays-Agree 0 [] (λ key. none) calls (λ key t later. unfold get in refl) order

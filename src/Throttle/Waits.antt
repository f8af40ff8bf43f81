-- ===== src/Throttle/Waits.antt =====
-- How long internal/auth/session/throttle.go makes a login wait, and what its map holds.
use eggy.Prelude.{ℕ, ◌+◌, ◌≤◌, ◌≡◌, refl, ap, ◌∙◌, String, false, some, arith, eq_refl}
use eggy.Prelude.Dict.{Dict, get, get-put}
use eggy.Throttle.Abstract.{current}
use eggy.Throttle.Refines.{get-sweep}
use eggy.Throttle.{
  AttemptState, throttle_delay, throttle_threshold, is_expired, remaining, delay_of, delay, sweep,
  state_locked, record_failure, failed_once,
}

abbrev pub at_once : ℕ → ℕ → ℕ
at_once now reading = now

current-live :
    (now : ℕ) (state : AttemptState)
    → is_expired now state ≡ false
    → current now (some state) ≡ some state
unfolding current
current-live now state live = rw live refl

state_locked-live :
    (state : AttemptState) (now : ℕ)
    → is_expired now state ≡ false
    → state_locked (some state) (at_once now) ≡ state
unfolding state_locked
state_locked-live state now live = rw live refl

delay_of-failed :
    (state : AttemptState) (now : ℕ)
    → throttle_threshold ≤ state.failures + 1
    → is_expired now state ≡ false
    → (delay_of (some (failed_once state now)) (at_once now) ≡ throttle_delay)
      × (delay_of (some (failed_once state now)) (at_once (now + throttle_delay)) ≡ 0)
unfolding delay_of is_expired remaining
delay_of-failed state now many live = (ground arith, ground arith)

-- What the map has for a key after it failed.
get-record_failure :
    (attempts : Dict AttemptState) (key : String) (state : AttemptState) (now : ℕ)
    → get attempts key ≡ some state
    → is_expired now state ≡ false
    → get (record_failure attempts key (at_once now)) key ≡ some (failed_once state now)
unfolding record_failure
get-record_failure attempts key state now known live =
    let swept = sweep now attempts in
    let found : get swept key ≡ some state =
      get-sweep now attempts key ∙ (ap (λ o. current now o) known ∙ current-live now state live) in
    rw
      (
        get-put swept key (failed_once (state_locked (get swept key) (at_once now)) now) key,
        eq_refl key,
        found,
      )
      (ap (λ s. some (failed_once s now)) (state_locked-live state now live))

-- A failure that is at least the fifth of its key, in a window that is still open, delays the key by two
-- seconds from then on, and no longer.
pub record_failure-delay :
    (attempts : Dict AttemptState) (key : String) (state : AttemptState) (now : ℕ)
    → get attempts key ≡ some state
    → throttle_threshold ≤ state.failures + 1
    → is_expired now state ≡ false
    → (delay (record_failure attempts key (at_once now)) key (at_once now) ≡ throttle_delay)
      × (delay (record_failure attempts key (at_once now)) key (at_once (now + throttle_delay)) ≡ 0)
unfolding delay
record_failure-delay attempts key state now known many live =
    let after = get-record_failure attempts key state now known live in
    let (waits, passes) = delay_of-failed state now many live in
    (
      ap (λ o. delay_of o (at_once now)) after ∙ waits,
      ap (λ o. delay_of o (at_once (now + throttle_delay))) after ∙ passes,
    )

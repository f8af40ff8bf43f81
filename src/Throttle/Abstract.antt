-- ===== src/Throttle/Abstract.antt =====
-- What internal/auth/session/throttle.go promises, without the sweeping of its map: every key has a
-- window of its own, and a window that has expired is as none.
use eggy.Prelude.{ℕ, ◌≤◌, String, Option, none, some, List, [], ◌∷◌, str_eq, if◌then◌else◌}
use eggy.Prelude.Dict.{Dict}
use eggy.Throttle.{
  AttemptState, is_expired, delay_of, delay, state_locked, failed_once, record_failure, reset,
}

-- What a key has at `now`.
unfoldable pub current : ℕ → Option AttemptState → Option AttemptState
unfolding is_expired
current now none = none
current now (some state) = if is_expired now state then none else some state

abbrev pub Windows : Type 0
Windows = String → Option AttemptState

unfoldable pub window_failed : Windows → String → (ℕ → ℕ) → Windows
unfolding current state_locked
window_failed windows key clock other =
    if str_eq key other
    then some (failed_once (state_locked (current (clock 0) (windows key)) clock) (clock 0))
    else windows other

unfoldable pub window_reset : Windows → String → Windows
window_reset windows key other = if str_eq key other then none else windows other

-- An attempt to log in that asks for its delay, fails or passes, with the readings of the clock.
pub data Attempt : Type 0 where
  asked failed passed : String → (ℕ → ℕ) → Attempt

abbrev clock_of : Attempt → ℕ → ℕ
clock_of (asked key clock) = clock
clock_of (failed key clock) = clock
clock_of (passed key clock) = clock

-- The delays that a sequence of attempts is told, by the throttle and by the abstract one.
unfoldable pub delays : Dict AttemptState → List Attempt → List ℕ
unfolding delay record_failure reset
delays attempts [] = []
delays attempts (asked key clock ∷ later) = delay attempts key clock ∷ delays attempts later
delays attempts (failed key clock ∷ later) = delays (record_failure attempts key clock) later
delays attempts (passed key clock ∷ later) = delays (reset attempts key) later

unfoldable pub abstract_delays : Windows → List Attempt → List ℕ
unfolding delay_of window_failed window_reset
abstract_delays windows [] = []
abstract_delays windows (asked key clock ∷ later) =
    delay_of (windows key) clock ∷ abstract_delays windows later
abstract_delays windows (failed key clock ∷ later) =
    abstract_delays (window_failed windows key clock) later
abstract_delays windows (passed key clock ∷ later) =
    abstract_delays (window_reset windows key) later

-- The clock never goes back.
abbrev pub InOrder : ℕ → List Attempt → Type 0
InOrder now [] = Unit
InOrder now (a ∷ later) =
    (now ≤ clock_of a 0)
    × ((clock_of a 0 ≤ clock_of a 1)
        × ((clock_of a 1 ≤ clock_of a 2) × InOrder (clock_of a 2) later))

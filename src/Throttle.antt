-- ===== src/Throttle.antt =====
-- internal/auth/session/throttle.go: the delay of repeated failed logins. Times and durations count
-- nanoseconds. An operation reads the clock several times: `clock k` is its reading k. Failures are counted without wrap-around.
pub mod Waits
pub mod Abstract
pub mod Refines
pub mod Histories
pub mod Told
use eggy.Prelude.{
  ℕ, ◌+◌, ◌-◌, ◌*◌, String, Bool, Option, none, some, List, [], ◌∷◌, ltb, if◌then◌else◌,
}
use eggy.Prelude.Dict.{Dict, get, put, remove}

abbrev pub throttle_window : ℕ
throttle_window = 15 * 60 * 1000000000

abbrev pub throttle_threshold : ℕ
throttle_threshold = 5

abbrev pub throttle_delay : ℕ
throttle_delay = 2 * 1000000000

pub record AttemptState : Type 0 where
  pub failures : ℕ
  pub window_start : ℕ
  pub last_failure : ℕ

-- `now.Sub(windowStart) > throttleWindow`.
unfoldable pub is_expired : ℕ → AttemptState → Bool
is_expired now state = ltb (state.window_start + throttle_window) now

-- What is left of the delay at `now`; a negative rest counts as none.
unfoldable pub remaining : ℕ → AttemptState → ℕ
remaining now state = throttle_delay + state.last_failure - now

-- `Delay`, of what the map has for the key.
unfoldable pub delay_of : Option AttemptState → (ℕ → ℕ) → ℕ
unfolding is_expired remaining
delay_of none clock = 0
delay_of (some state) clock =
    if is_expired (clock 0) state
    then 0
    else if ltb state.failures throttle_threshold
    then 0
    else remaining (clock 1) state

-- `Delay`.
unfoldable pub delay : Dict AttemptState → String → (ℕ → ℕ) → ℕ
unfolding delay_of
delay attempts key clock = delay_of (get attempts key) clock

-- The loop of `RecordFailure` that deletes the expired windows.
unfoldable pub sweep : ℕ → Dict AttemptState → Dict AttemptState
unfolding is_expired
sweep now [] = []
sweep now ((key, state) ∷ attempts) =
    let rest = sweep now attempts in
    if is_expired now state then remove rest key else (key, state) ∷ rest

abbrev pub fresh : ℕ → AttemptState
fresh now = record { failures = 0; window_start = now; last_failure = 0 }

-- `stateLocked`, of what the map has for the key, with the readings from 1 on.
unfoldable pub state_locked : Option AttemptState → (ℕ → ℕ) → AttemptState
unfolding is_expired
state_locked none clock = fresh (clock 1)
state_locked (some state) clock = if is_expired (clock 1) state then fresh (clock 2) else state

abbrev pub failed_once : AttemptState → ℕ → AttemptState
failed_once state now = record state { failures = state.failures + 1; last_failure = now }

-- `RecordFailure`.
unfoldable pub record_failure : Dict AttemptState → String → (ℕ → ℕ) → Dict AttemptState
unfolding sweep state_locked
record_failure attempts key clock =
    let live = sweep (clock 0) attempts in
    put live key (failed_once (state_locked (get live key) clock) (clock 0))

-- `Reset`.
unfoldable pub reset : Dict AttemptState → String → Dict AttemptState
reset attempts key = remove attempts key

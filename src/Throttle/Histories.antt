-- ===== src/Throttle/Histories.antt =====
-- What internal/auth/session/throttle.go promises, in terms of the failed logins themselves: which of them count
-- together, and how long they make the next login wait.
use eggy.Prelude.{
  ℕ, ◌+◌, ◌-◌, String, Bool, ◌&&◌, Option, none, some, List, [], ◌∷◌, leb, length, str_eq,
  if◌then◌else◌,
}
use eggy.Throttle.Abstract.{Attempt, asked, failed, passed}

-- Failed logins of a key that count together: when the first of them opened their window, and when each
-- was, the last one first.
pub record Failures : Type 0 where
  pub opened : ℕ
  pub times : List ℕ

abbrev pub latest : List ℕ → ℕ
latest [] = 0
latest (t ∷ times) = t

-- Failures count for fifteen minutes from the first.
unfoldable pub still_count : ℕ → Failures → Bool
still_count now f = leb now (f.opened + 900000000000)

-- One failure more, with the readings of the clock: of the moment, when it joins the others, and when it
-- begins anew as they have ceased to count in between.
unfoldable pub failed_again : Option Failures → (ℕ → ℕ) → Failures
unfolding still_count
failed_again none clock = record { opened = clock 1; times = clock 0 ∷ [] }
failed_again (some f) clock =
    if still_count (clock 0) f
    then (if still_count (clock 1) f
        then record { opened = f.opened; times = clock 0 ∷ f.times }
        else record { opened = clock 2; times = clock 0 ∷ [] })
    else record { opened = clock 1; times = clock 0 ∷ [] }

-- Five failures or more that still count make the key wait two seconds from the last one.
unfoldable pub wait : Option Failures → (ℕ → ℕ) → ℕ
unfolding still_count
wait none clock = 0
wait (some f) clock =
    if still_count (clock 0) f && leb 5 (length f.times)
    then latest f.times + 2000000000 - clock 1
    else 0

-- The delays that a sequence of attempts is told, each key by its own failures since it last passed.
unfoldable pub waits : (String → Option Failures) → List Attempt → List ℕ
unfolding wait failed_again
waits histories [] = []
waits histories (asked key clock ∷ later) = wait (histories key) clock ∷ waits histories later
waits histories (failed key clock ∷ later) =
    waits
      (λ other.
        if str_eq key other then some (failed_again (histories key) clock) else histories other)
      later
waits histories (passed key clock ∷ later) =
    waits (λ other. if str_eq key other then none else histories other) later

-- ===== src/Examples/Throttle.antt =====
-- The theorems on the throttle of logins, on a key that fails five times.
use eggy.Prelude.{◌≡◌, none, List, [], ◌∷◌, arith}
use eggy.Throttle.Abstract.{Attempt, asked, failed, passed, delays}
use eggy.Throttle.Told.{delays-waits}
use eggy.Throttle.Histories.{waits}
use eggy.Throttle.Waits.{at_once}

abbrev attempts_made : List Attempt
attempts_made =
    failed "a" (at_once 10)
    ∷ failed "a" (at_once 20)
    ∷ failed "b" (at_once 30)
    ∷ asked "a" (at_once 40)
    ∷ passed "a" (at_once 50)
    ∷ []

delays-waits_example : delays [] attempts_made ≡ waits (λ key. none) attempts_made
delays-waits_example = delays-waits attempts_made (
  omega arith,
  (
    omega arith,
    (
      omega arith,
      (
        omega arith,
        (
          omega arith,
          (
            omega arith,
            (
              omega arith,
              (
                omega arith,
                (
                  omega arith,
                  (
                    omega arith,
                    (omega arith, (omega arith, (omega arith, (omega arith, (omega arith, tt))))),
                  ),
                ),
              ),
            ),
          ),
        ),
      ),
    ),
  ),
)

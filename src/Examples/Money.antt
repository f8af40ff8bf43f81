-- ===== src/Examples/Money.antt =====
-- The theorems on amounts, on fourteen dollars and fifty cents.
use eggy.Prelude.{ℕ, ◌≡◌, ◌<◌, ◌*◌, ◌^◌, refl, some, arith}
use eggy.Prelude.Dict.{get}
use eggy.Prelude.Result.{ok}
use eggy.Text.{codes}
use eggy.Money.{exponents, parse_amount, format_amount}
use eggy.Money.RoundTrip.{parse_amount-format_amount}
use eggy.Money.Bounds.{parse_amount-bound}

prints : format_amount 1450 "SGD" ≡ codes "14.50"
unfolding format_amount get eggy.Text.decimal
prints = refl

refuses_bare_point : parse_amount (codes "14.") "SGD" ≡ parse_amount (codes "") "SGD"
unfolding parse_amount eggy.Text.trim_space
refuses_bare_point = refl

parse_amount-format_amount_example : parse_amount (format_amount 1450 "SGD") "SGD" ≡ ok 1450
unfolding get
parse_amount-format_amount_example =
    parse_amount-format_amount 1450 2 "SGD" refl (omega arith) (omega arith)

parse_amount-bound_example :
    (exponent : ℕ) × ((get exponents "JPY" ≡ some exponent)
      × ((0 < 1234)
          × ((1234 < 10 ^ 13 * 10 ^ exponent)
              × (parse_amount (format_amount 1234 "JPY") "JPY" ≡ ok 1234))))
unfolding parse_amount get eggy.Text.trim_space
parse_amount-bound_example = parse_amount-bound (codes " 1,234") "JPY" 1234 refl

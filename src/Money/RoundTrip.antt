-- ===== src/Money/RoundTrip.antt =====
-- Printing an amount and reading it back in internal/extensions/finance/money.go.
use mathlib.Core.List.{append-nil}
use mathlib.Core.Path.{subst}
use eggy.Prelude.{
  ℕ, ◌*◌, ◌/◌, ◌%◌, ◌^◌, ◌<◌, ◌≡◌, refl, sym, ap, ◌∙◌, String, true, ◌⊎◌, some, List, [], ◌∷◌,
  arith, Bool-cases, inl, inr, All, str_eq,
}
use eggy.Prelude.Dict.{Dict, get}
use eggy.Prelude.Result.{ok}
use eggy.Text.{trim_space, decimal}
use eggy.Money.{
  exponents, exponent_or_zero, scaled, parse_trimmed, parse_amount, format_with, format_amount,
}
use eggy.Money.Reading.{all_amount, trim_space-all_amount, all_amount-append}
use eggy.Money.Digits.{all_digits-decimal}
use eggy.Money.Printed.{padded-two, parse-whole, two_digits, fraction-all_amount, parse-cents}

format_with-all_amount :
    (exponent minor : ℕ)
    → minor < 10 ^ 15
    → (exponent ≡ 0) ⊎ (exponent ≡ 2)
    → all_amount (format_with exponent minor) ≡ true
unfolding format_with scaled
format_with-all_amount exponent minor small (inl none_) = rw none_ (
    ap all_amount (sym (append-nil (decimal minor)))
    ∙ all_amount-append (decimal minor) [] (all_digits-decimal minor) (unfold all_amount in refl))
format_with-all_amount exponent minor small (inr two) =
    rw (two, padded-two (minor % 100) (omega arith))
      (all_amount-append (decimal (minor / 100)) _ (all_digits-decimal (minor / 100))
        (fraction-all_amount _ (two_digits (minor % 100) (omega arith))))

get-All :
    (m : Dict ℕ) (k : String) (exponent : ℕ)
    → All (λ p. (p.1 ≡ 0) ⊎ (p.1 ≡ 2)) m
    → get m k ≡ some exponent
    → (exponent ≡ 0) ⊎ (exponent ≡ 2)
unfolding get
get-All [] k exponent h found = absurd (ground (arith, found))
get-All ((j, v) ∷ m) k exponent h found = elim (Bool-cases (str_eq j k)) [
  | inl here ↦ subst (λ n. (n ≡ 0) ⊎ (n ≡ 2)) (ground (arith, here, found)) h.0
  | inr there ↦ get-All m k exponent h.1 (ground (arith, there, found))
]

-- A supported currency is counted in whole units or in hundredths.
pub exponent-cases :
    (currency : String) (exponent : ℕ)
    → get exponents currency ≡ some exponent
    → (exponent ≡ 0) ⊎ (exponent ≡ 2)
exponent-cases currency exponent known =
    get-All exponents currency exponent
      (
        inr refl,
        (
          inr refl,
          (
            inl refl,
            (inr refl, (inr refl, (inr refl, (inr refl, (inr refl, (inr refl, (inr refl, tt))))))),
          ),
        ),
      )
      known

format_with-back :
    (minor exponent : ℕ)
    → (exponent ≡ 0) ⊎ (exponent ≡ 2)
    → 0 < minor
    → minor < 10 ^ 13 * 10 ^ exponent
    → parse_trimmed (format_with exponent minor) exponent ≡ ok minor
format_with-back minor exponent (inl none_) some_amount small =
    ap (λ n. parse_trimmed (format_with n minor) n) none_
    ∙ parse-whole minor some_amount (subst (λ n. minor < 10 ^ 13 * 10 ^ n) none_ small)
format_with-back minor exponent (inr two) some_amount small =
    ap (λ n. parse_trimmed (format_with n minor) n) two
    ∙ parse-cents minor some_amount (subst (λ n. minor < 10 ^ 13 * 10 ^ n) two small)

within-all :
    (minor exponent : ℕ)
    → (exponent ≡ 0) ⊎ (exponent ≡ 2)
    → minor < 10 ^ 13 * 10 ^ exponent
    → minor < 10 ^ 15
within-all minor exponent (inl none_) small =
    omega (arith, subst (λ n. minor < 10 ^ 13 * 10 ^ n) none_ small)
within-all minor exponent (inr two) small =
    omega (arith, subst (λ n. minor < 10 ^ 13 * 10 ^ n) two small)

pub parse_amount-known :
    (text : List ℕ) (currency : String) (exponent : ℕ)
    → get exponents currency ≡ some exponent
    → parse_amount text currency ≡ parse_trimmed (trim_space text) exponent
unfolding parse_amount
parse_amount-known text currency exponent known = rw (parse_amount, known) refl

-- What `FormatAmount` prints of an amount above zero that `ParseAmount` could read, in a currency that is
-- supported, `ParseAmount` reads back as the same amount.
pub parse_amount-format_amount :
    (minor exponent : ℕ) (currency : String)
    → get exponents currency ≡ some exponent
    → 0 < minor
    → minor < 10 ^ 13 * 10 ^ exponent
    → parse_amount (format_amount minor currency) currency ≡ ok minor
unfolding format_amount
parse_amount-format_amount minor exponent currency known some_amount small =
    let places = exponent-cases currency exponent known in
    let trimmed =
      trim_space-all_amount (format_with exponent minor)
        (format_with-all_amount exponent minor (within-all minor exponent places small) places) in
    ap (λ t. parse_amount t currency) (ap (λ o. format_with (exponent_or_zero o) minor) known)
    ∙ (parse_amount-known (format_with exponent minor) currency exponent known
        ∙ (ap (λ t. parse_trimmed t exponent) trimmed
            ∙ format_with-back minor exponent places some_amount small))

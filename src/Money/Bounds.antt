-- ===== src/Money/Bounds.antt =====
-- How large an amount is that internal/extensions/finance/money.go reads.
use native.Mathlib.Nat.{mul-le-mul_right}
use mathlib.Core.Path.{subst}
use eggy.Prelude.{
  ℕ, zero, suc, ◌+◌, ◌-◌, ◌*◌, ◌%◌, ◌^◌, ◌≤◌, ◌<◌, ◌≡◌, refl, sym, ◌∙◌, String, Bool, true, false,
  not, ◌&&◌, ◌||◌, ◌⊎◌, Option, none, some, List, [], ◌∷◌, ◌++◌, ltb, leb, ◌==◌, if◌then◌else◌,
  length, arith, Bool-cases, Option-cases, inl, inr, length-append,
}
use eggy.Prelude.Dict.{get}
use eggy.Prelude.Result.{Result, ok, ok-injective, bind-ok}
use eggy.Text.{trim_space, is_empty}
use eggy.Money.{
  invalid, exponents, is_digit, all_digits, plain_digits, starts_minus, trim_amount, cut_point,
  is_malformed, has_too_many, without_commas, trim_zeros, grouped_digits, value_from, parse_int,
  zeros, scaled, parse_cents, positive, count_minor, parse_parts, parse_trimmed, parse_amount,
  format_amount, max_major_digits,
}
use eggy.Money.Digits.{power}
use eggy.Money.RoundTrip.{exponent-cases, parse_amount-known, parse_amount-format_amount}

value_from-bound :
    (n : ℕ) (s : List ℕ) → all_digits s ≡ true → value_from n s < (n + 1) * power (length s)
unfolding value_from all_digits is_digit power
value_from-bound n [] h = omega arith
value_from-bound n (c ∷ s) h =
    let step = value_from-bound (n * 10 + (c - 48)) s (ground arith) in
    let digit : c - 48 ≤ 9 = ground arith in
    let room : n * 10 + (c - 48) + 1 ≤ (n + 1) * 10 = omega (arith, digit) in
    omega (arith, step, mul-le-mul_right (power (length s)) room)

value_from-trim_zeros : (s : List ℕ) → value_from 0 s ≡ value_from 0 (trim_zeros s)
unfolding value_from trim_zeros
value_from-trim_zeros [] = refl
value_from-trim_zeros (c ∷ s) = ground (arith, value_from-trim_zeros s)

all_digits-trim_zeros : (s : List ℕ) → all_digits s ≡ true → all_digits (trim_zeros s) ≡ true
unfolding all_digits trim_zeros
all_digits-trim_zeros [] h = refl
all_digits-trim_zeros (c ∷ s) h = ground (arith, all_digits-trim_zeros s)

power-le : (j k : ℕ) → j ≤ k → power j ≤ power k
unfolding power
power-le zero zero h = omega arith
power-le zero (suc k) h = omega (arith, power-le zero k (omega arith))
power-le (suc j) zero h = absurd (omega (arith, h))
power-le (suc j) (suc k) h = omega (arith, power-le j k (omega (arith, h)))

-- What an accepted text went through.
if-ok :
    (b : Bool) (r : Result ℕ) (n : ℕ) → (if b then invalid else r) ≡ ok n → (b ≡ false) × (r ≡ ok n)
if-ok true r n h = absurd (ground (arith, h))
if-ok false r n h = (refl, h)

parse_int-ok :
    (s : List ℕ) (n : ℕ) → parse_int s ≡ ok n → (all_digits s ≡ true) × (value_from 0 s ≡ n)
unfolding parse_int plain_digits
parse_int-ok s n h = elim (Bool-cases (plain_digits s && ltb (value_from 0 s) (2 ^ 63))) [
  | inl fine ↦ (ground (arith, fine), ok-injective _ _ (ground (arith, fine, h)))
  | inr bad ↦ absurd (ground (arith, bad, h))
]

positive-inv : (n m : ℕ) → positive n ≡ ok m → (n ≡ m) × (0 < m)
unfolding positive
positive-inv n m h =
    let (fine, same) = if-ok (n == 0 || leb (2 ^ 63) n) (ok n) m h in
    let value : n ≡ m = ok-injective n m same in (value, ground (arith, fine, value))

trimmed-parts :
    (text : List ℕ) (exponent n : ℕ)
    → parse_trimmed text exponent ≡ ok n
    → parse_parts (cut_point text).0 (cut_point text).1 exponent ≡ ok n
unfolding parse_trimmed
trimmed-parts text exponent n h =
    (if-ok (not (is_empty (trim_amount text))) _ n
      (if-ok (starts_minus text) _ n (if-ok (is_empty text) _ n h).1).1).1

parts-count :
    (major : List ℕ) (fraction : Option (List ℕ)) (exponent n : ℕ)
    → parse_parts major fraction exponent ≡ ok n
    → (has_too_many fraction exponent ≡ false)
      × (count_minor (without_commas major) fraction exponent ≡ ok n)
unfolding parse_parts
parts-count major fraction exponent n h =
    let (few, rest) =
      if-ok (has_too_many fraction exponent) _ n (if-ok (is_malformed major fraction) _ n h).1 in
    (few, (if-ok (not (plain_digits major) && not (grouped_digits major)) _ n rest).1)

-- A whole part of at most thirteen digits, after its zeros, is below `10 ^ 13`.
whole-bound :
    (major : List ℕ) (whole : ℕ)
    → ltb max_major_digits (length (trim_zeros major)) ≡ false
    → parse_int major ≡ ok whole
    → whole < 10 ^ 13
whole-bound major whole few read =
    let (digits, value) = parse_int-ok major whole read in
    let bound = value_from-bound 0 (trim_zeros major) (all_digits-trim_zeros major digits) in
    let most = power-le (length (trim_zeros major)) 13 (ground (arith, few)) in
    let top : power 13 ≡ 10 ^ 13 = unfold power in refl in
    omega (arith, bound, most, top, value, value_from-trim_zeros major)

zeros-length : (n : ℕ) → length (zeros n) ≡ n
unfolding zeros
zeros-length zero = refl
zeros-length (suc n) = omega (arith, zeros-length n)

power-zero : power 0 ≡ 1
unfolding power
power-zero = refl

cents-bound :
    (fraction : Option (List ℕ)) (exponent cents : ℕ)
    → has_too_many fraction exponent ≡ false
    → parse_cents fraction exponent ≡ ok cents
    → cents < power exponent
unfolding has_too_many parse_cents
cents-bound none exponent cents few read =
    omega (arith, ok-injective 0 cents read, power-le 0 exponent (omega arith), power-zero)
cents-bound (some fraction) exponent cents few read =
    elim (Bool-cases (ltb 0 exponent && not (is_empty fraction))) [
      | inr nothing ↦
          let none_read : ok 0 ≡ ok cents = ground (arith, nothing, read) in
          omega
            (arith, ok-injective 0 cents none_read, power-le 0 exponent (omega arith), power-zero)
      | inl something ↦
          let s = fraction ++ zeros (exponent - length fraction) in
          let all_read : parse_int s ≡ ok cents = ground (arith, something, read) in
          let (digits, value) = parse_int-ok s cents all_read in
          let size : length s ≡ exponent = ground (
            arith,
            few,
            length-append fraction (zeros (exponent - length fraction)),
            zeros-length (exponent - length fraction),
          ) in
          omega (
            arith,
            value,
            subst (λ k. value_from 0 s < 1 * power k) size (value_from-bound 0 s digits),
          )
    ]

sum-bound :
    (exponent whole cents n : ℕ)
    → (exponent ≡ 0) ⊎ (exponent ≡ 2)
    → whole < 10 ^ 13
    → cents < power exponent
    → (scaled exponent whole + cents) % 2 ^ 64 ≡ n
    → n < 10 ^ 13 * 10 ^ exponent
unfolding scaled power
sum-bound exponent whole cents n (inl none_) small few value =
    subst (λ e. cents < power e → (scaled e whole + cents) % 2 ^ 64 ≡ n → n < 10 ^ 13 * 10 ^ e)
      (sym none_) (λ few value. omega (arith, small, few, value)) few value
sum-bound exponent whole cents n (inr two) small few value =
    subst (λ e. cents < power e → (scaled e whole + cents) % 2 ^ 64 ≡ n → n < 10 ^ 13 * 10 ^ e)
      (sym two) (λ few value. omega (arith, small, few, value)) few value

count-bound :
    (major : List ℕ) (fraction : Option (List ℕ)) (exponent n : ℕ)
    → (exponent ≡ 0) ⊎ (exponent ≡ 2)
    → has_too_many fraction exponent ≡ false
    → count_minor major fraction exponent ≡ ok n
    → (0 < n) × (n < 10 ^ 13 * 10 ^ exponent)
unfolding count_minor
count-bound major fraction exponent n places few h =
    let (short, rest) = if-ok (ltb max_major_digits (length (trim_zeros major))) _ n h in
    let (whole, (read, more)) = bind-ok (parse_int major) _ n rest in
    let (cents, (read_cents, last)) = bind-ok (parse_cents fraction exponent) _ n more in
    let (value, some_amount) = positive-inv ((scaled exponent whole + cents) % 2 ^ 64) n last in
    (
      some_amount,
      sum-bound exponent whole cents n places (whole-bound major whole short read)
          (cents-bound fraction exponent cents few read_cents) value,
    )

-- An amount that `ParseAmount` accepts is of a currency that is supported, is above zero, and is below
-- `10 ^ 13` units of the currency, so no multiplication or sum on the way has wrapped; and
-- `FormatAmount` prints it as a text that is read back as the same amount.
pub parse_amount-bound :
    (text : List ℕ) (currency : String) (n : ℕ)
    → parse_amount text currency ≡ ok n
    → (exponent : ℕ) × ((get exponents currency ≡ some exponent)
        × ((0 < n)
            × ((n < 10 ^ 13 * 10 ^ exponent)
                × (parse_amount (format_amount n currency) currency ≡ ok n))))
unfolding parse_amount
parse_amount-bound text currency n h = elim (Option-cases (get exponents currency)) [
  | inl unknown ↦ absurd (ground (arith, unknown, h))
  | inr (exponent, known) ↦
      let trimmed = sym (parse_amount-known text currency exponent known) ∙ h in
      let (few, counted) =
        parts-count (cut_point (trim_space text)).0 (cut_point (trim_space text)).1 exponent n
          (trimmed-parts (trim_space text) exponent n trimmed) in
      let (some_amount, bound) =
        count-bound (without_commas (cut_point (trim_space text)).0) (cut_point (trim_space text)).1
          exponent n (exponent-cases currency exponent known) few counted in
      (
        exponent,
        (
          known,
          (
            some_amount,
            (bound, parse_amount-format_amount n exponent currency known some_amount bound),
          ),
        ),
      )
]

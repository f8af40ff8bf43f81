-- ===== src/Money.antt =====
-- internal/extensions/finance/money.go: amounts as counts of a currency's minor unit. Texts are lists of
-- code points; an `int64` is its 64 bits, and `FormatAmount` is read on amounts that are not negative.
pub mod Digits
pub mod Reading
pub mod Printed
pub mod RoundTrip
pub mod Bounds
use mathlib.Core.List.{reverse}
use eggy.Prelude.{
  ℕ, zero, suc, ◌+◌, ◌-◌, ◌*◌, ◌/◌, ◌%◌, ◌^◌, String, Bool, true, false, not, ◌&&◌, ◌||◌, Option,
  none, some, List, [], ◌∷◌, ◌++◌, ltb, leb, ◌==◌, if◌then◌else◌, length,
}
use eggy.Prelude.Dict.{Dict, get}
use eggy.Prelude.Result.{Result, ok, err, ◌>>=◌, finance_invalid}
use eggy.Text.{trim_space, is_empty, decimal}

abbrev pub exponents : Dict ℕ
exponents =
    ("USD", 2)
    ∷ ("EUR", 2)
    ∷ ("JPY", 0)
    ∷ ("GBP", 2)
    ∷ ("CNY", 2)
    ∷ ("AUD", 2)
    ∷ ("CAD", 2)
    ∷ ("CHF", 2)
    ∷ ("HKD", 2)
    ∷ ("SGD", 2)
    ∷ []

abbrev pub max_major_digits : ℕ
max_major_digits = 13

abbrev pub invalid {ℓ} : {A : Type ℓ} → Result A
invalid = err finance_invalid

unfoldable pub is_digit : ℕ → Bool
is_digit c = leb 48 c && leb c 57

unfoldable pub all_digits : List ℕ → Bool
unfolding is_digit
all_digits [] = true
all_digits (c ∷ s) = is_digit c && all_digits s

-- `plainDigits`.
unfoldable pub plain_digits : List ℕ → Bool
unfolding all_digits
plain_digits s = not (is_empty s) && all_digits s

-- `groupedDigits` after its first group: what is read of a group of three, with what follows.
grouped_rest : ℕ → List ℕ → Bool
unfolding is_digit
grouped_rest n [] = n == 3
grouped_rest n (c ∷ s) =
    let next = grouped_rest (n + 1) s in
    let fresh = grouped_rest 0 s in if c == 44 then n == 3 && fresh else is_digit c && next

-- `groupedDigits` in its first group.
grouped_first : ℕ → List ℕ → Bool
unfolding is_digit grouped_rest
grouped_first n [] = false
grouped_first n (c ∷ s) =
    let next = grouped_first (n + 1) s in
    if c == 44 then leb 1 n && leb n 3 && grouped_rest 0 s else is_digit c && next

unfoldable pub grouped_digits : List ℕ → Bool
unfolding grouped_first
grouped_digits s = grouped_first 0 s

-- A character of an amount: the cutset of `strings.Trim`.
unfoldable pub is_amount : ℕ → Bool
unfolding is_digit
is_amount c = is_digit c || c == 44 || c == 46

unfoldable pub drop_amount : List ℕ → List ℕ
unfolding is_amount
drop_amount [] = []
drop_amount (c ∷ s) = let rest = drop_amount s in if is_amount c then rest else c ∷ s

-- `strings.Trim(text, "0123456789,.")`.
unfoldable pub trim_amount : List ℕ → List ℕ
unfolding drop_amount
trim_amount s = reverse (drop_amount (reverse (drop_amount s)))

unfoldable pub starts_minus : List ℕ → Bool
starts_minus [] = false
starts_minus (c ∷ s) = c == 45

-- `strings.Cut(text, ".")`; without a point there is no fraction.
unfoldable pub cut_point : List ℕ → List ℕ × Option (List ℕ)
cut_point [] = ([], none)
cut_point (c ∷ s) =
    let (major, fraction) = cut_point s in if c == 46 then ([], some s) else (c ∷ major, fraction)

-- `strings.ContainsAny(fraction, ",.")`.
unfoldable pub has_mark : List ℕ → Bool
has_mark [] = false
has_mark (c ∷ s) = c == 44 || c == 46 || has_mark s

unfoldable pub is_malformed : List ℕ → Option (List ℕ) → Bool
unfolding has_mark
is_malformed major none = false
is_malformed major (some fraction) = is_empty major || is_empty fraction || has_mark fraction

unfoldable pub has_too_many : Option (List ℕ) → ℕ → Bool
has_too_many none exponent = false
has_too_many (some fraction) exponent = ltb exponent (length fraction)

-- `strings.ReplaceAll(major, ",", "")`.
unfoldable pub without_commas : List ℕ → List ℕ
without_commas [] = []
without_commas (c ∷ s) = let rest = without_commas s in if c == 44 then rest else c ∷ rest

-- `strings.TrimLeft(major, "0")`.
unfoldable pub trim_zeros : List ℕ → List ℕ
trim_zeros [] = []
trim_zeros (c ∷ s) = let rest = trim_zeros s in if c == 48 then rest else c ∷ s

unfoldable pub value_from : ℕ → List ℕ → ℕ
value_from n [] = n
value_from n (c ∷ s) = value_from (n * 10 + (c - 48)) s

-- `strconv.ParseInt(s, 10, 64)` of a text without a sign.
unfoldable pub parse_int : List ℕ → Result ℕ
unfolding plain_digits value_from
parse_int s =
    if plain_digits s && ltb (value_from 0 s) (2 ^ 63) then ok (value_from 0 s) else invalid

-- `strings.Repeat("0", n)`.
unfoldable pub zeros : ℕ → List ℕ
zeros zero = []
zeros (suc n) = 48 ∷ zeros n

-- The loop that multiplies by ten.
unfoldable pub scaled : ℕ → ℕ → ℕ
scaled zero minor = minor
scaled (suc n) minor = scaled n (minor * 10 % 2 ^ 64)

unfoldable pub parse_cents : Option (List ℕ) → ℕ → Result ℕ
unfolding parse_int zeros
parse_cents none exponent = ok 0
parse_cents (some fraction) exponent =
    if ltb 0 exponent && not (is_empty fraction)
    then parse_int (fraction ++ zeros (exponent - length fraction))
    else ok 0

-- `minor <= 0`, of 64 bits.
unfoldable pub positive : ℕ → Result ℕ
positive minor = if minor == 0 || leb (2 ^ 63) minor then invalid else ok minor

unfoldable pub count_minor : List ℕ → Option (List ℕ) → ℕ → Result ℕ
unfolding trim_zeros parse_int parse_cents scaled positive
count_minor major fraction exponent =
    if ltb max_major_digits (length (trim_zeros major)) then invalid else do
      whole ← parse_int major
      cents ← parse_cents fraction exponent
      positive ((scaled exponent whole + cents) % 2 ^ 64)

unfoldable pub parse_parts : List ℕ → Option (List ℕ) → ℕ → Result ℕ
unfolding is_malformed has_too_many plain_digits grouped_digits without_commas count_minor
parse_parts major fraction exponent =
    if is_malformed major fraction
    then invalid
    else if has_too_many fraction exponent
    then invalid
    else if not (plain_digits major) && not (grouped_digits major)
    then invalid
    else count_minor (without_commas major) fraction exponent

unfoldable pub parse_trimmed : List ℕ → ℕ → Result ℕ
unfolding starts_minus trim_amount cut_point parse_parts
parse_trimmed text exponent =
    let (major, fraction) = cut_point text in
    if is_empty text
    then invalid
    else if starts_minus text
    then invalid
    else if not (is_empty (trim_amount text))
    then invalid
    else parse_parts major fraction exponent

-- `ParseAmount`.
unfoldable pub parse_amount : List ℕ → String → Result ℕ
unfolding parse_trimmed
parse_amount text currency = elim (get exponents currency) [
  | none ↦ invalid
  | some exponent ↦ parse_trimmed (trim_space text) exponent
]

-- `exponents[currency]`.
abbrev pub exponent_or_zero : Option ℕ → ℕ
exponent_or_zero none = 0
exponent_or_zero (some exponent) = exponent

-- `%0*d`.
unfoldable pub padded : ℕ → ℕ → List ℕ
unfolding zeros
padded width n = zeros (width - length (decimal n)) ++ decimal n

unfoldable pub format_with : ℕ → ℕ → List ℕ
unfolding padded scaled
format_with exponent minor =
    if exponent == 0
    then decimal minor
    else decimal (minor / scaled exponent 1) ++ 46 ∷ padded exponent (minor % scaled exponent 1)

-- `FormatAmount`.
unfoldable pub format_amount : ℕ → String → List ℕ
unfolding format_with
format_amount minor currency = format_with (exponent_or_zero (get exponents currency)) minor

-- ===== src/Money/Printed.antt =====
-- Reading back the digits that internal/extensions/finance/money.go prints.
use mathlib.Core.List.{append-nil}
use eggy.Prelude.{
  ℕ, ◌+◌, ◌/◌, ◌%◌, ◌^◌, ◌≤◌, ◌<◌, ◌≡◌, refl, sym, ap, ◌∙◌, Bool, true, false, not, ◌&&◌, Option,
  none, some, List, [], ◌∷◌, ◌++◌, ltb, if◌then◌else◌, length, lt→ltb, ltb→lt, arith, Bool-cases,
  inl, inr,
}
use eggy.Prelude.Result.{Result, ok}
use eggy.Text.{digits_of, is_empty, decimal}
use eggy.Money.{
  is_digit, all_digits, plain_digits, grouped_digits, is_amount, starts_minus, cut_point, has_mark,
  is_malformed, has_too_many, trim_zeros, value_from, parse_int, zeros, scaled, parse_cents,
  positive, count_minor, parse_parts, parse_trimmed, padded, format_with, max_major_digits,
}
use eggy.Money.Reading.{
  all_amount, trim_amount-all_amount, all_amount-append, cut_point-digits, cut_point-append,
  without_commas-digits, starts_minus-digits, parse_int-digits,
}
use eggy.Money.Digits.{
  length-trim_zeros, value_from-decimal, all_digits-decimal, decimal-ne-nil, length-decimal,
}

count_minor-decimal :
    (w cents exponent : ℕ) (fraction : Option (List ℕ))
    → w < 10 ^ 13
    → parse_cents fraction exponent ≡ ok cents
    → count_minor (decimal w) fraction exponent ≡ positive ((scaled exponent w + cents) % 2 ^ 64)
unfolding count_minor
count_minor-decimal w cents exponent fraction small read =
    let digits = all_digits-decimal w in
    let value = value_from-decimal w (omega (arith, small)) in
    let short : ltb max_major_digits (length (trim_zeros (decimal w))) ≡ false =
      ground (arith, length-trim_zeros (decimal w), length-decimal w small) in
    let whole : parse_int (decimal w) ≡ ok w =
      parse_int-digits (decimal w) (decimal-ne-nil w) digits (omega (arith, value, small))
      ∙ ap (λ n. ok n) value in
    rw (count_minor, short, whole, read) refl

if_false : (b : Bool) (x y : Result ℕ) → b ≡ false → (if b then x else y) ≡ y
if_false b x y h = rw h refl

parse_parts-decimal :
    (w exponent : ℕ) (fraction : Option (List ℕ))
    → is_malformed (decimal w) fraction ≡ false
    → has_too_many fraction exponent ≡ false
    → parse_parts (decimal w) fraction exponent ≡ count_minor (decimal w) fraction exponent
unfolding parse_parts
parse_parts-decimal w exponent fraction formed few =
    let plain : plain_digits (decimal w) ≡ true =
      unfold plain_digits in rw (decimal-ne-nil w, all_digits-decimal w) refl in
    if_false (is_malformed (decimal w) fraction) _ _ formed
    ∙ (if_false (has_too_many fraction exponent) _ _ few
        ∙ (if_false (not (plain_digits (decimal w)) && not (grouped_digits (decimal w))) _ _
              (ground (arith, plain))
            ∙ ap (λ s. count_minor s fraction exponent)
                (without_commas-digits (decimal w) (all_digits-decimal w))))

parse_trimmed-parts :
    (text major : List ℕ) (fraction : Option (List ℕ)) (exponent : ℕ)
    → is_empty text ≡ false
    → starts_minus text ≡ false
    → all_amount text ≡ true
    → cut_point text ≡ (major, fraction)
    → parse_trimmed text exponent ≡ parse_parts major fraction exponent
unfolding parse_trimmed
parse_trimmed-parts text major fraction exponent some_text plain amount cut =
    rw (parse_trimmed, some_text, plain, trim_amount-all_amount text amount, cut) refl

decimal-one : (m : ℕ) → m < 10 → decimal m ≡ (48 + m) ∷ []
unfolding decimal digits_of
decimal-one m h = rw (lt→ltb m 10 h) refl

decimal-two : (m : ℕ) → 10 ≤ m → m < 100 → decimal m ≡ (48 + m / 10) ∷ (48 + m % 10) ∷ []
unfolding decimal digits_of
decimal-two m h k =
    let large : ltb m 10 ≡ false = ground arith in
    let small : ltb (m / 10) 10 ≡ true = lt→ltb (m / 10) 10 (omega (arith, k)) in
    rw (large, small) refl

pub padded-two : (m : ℕ) → m < 100 → padded 2 m ≡ (48 + m / 10) ∷ (48 + m % 10) ∷ []
unfolding padded zeros
padded-two m h = elim (Bool-cases (ltb m 10)) [
  | inl small ↦
      let tens : m / 10 ≡ 0 = ground (arith, small) in
      let ones : m % 10 ≡ m = ground (arith, small) in
      rw (decimal-one m (ltb→lt m 10 small), tens, ones) refl
  | inr large ↦ rw (decimal-two m (ground (arith, large)) h) refl
]

positive-ok : (n : ℕ) → 0 < n → n < 2 ^ 63 → positive n ≡ ok n
unfolding positive
positive-ok n some_amount small = ground arith

-- Reading back what is printed, for a currency without decimals and for one with two.
pub parse-whole :
    (minor : ℕ) → 0 < minor → minor < 10 ^ 13 → parse_trimmed (format_with 0 minor) 0 ≡ ok minor
unfolding format_with scaled is_malformed has_too_many parse_cents
parse-whole minor some_amount small =
    let digits = all_digits-decimal minor in
    parse_trimmed-parts (decimal minor) (decimal minor) none 0 (decimal-ne-nil minor)
      (ap starts_minus (sym (append-nil (decimal minor)))
        ∙ starts_minus-digits (decimal minor) [] (decimal-ne-nil minor) digits)
      (ap all_amount (sym (append-nil (decimal minor)))
        ∙ all_amount-append (decimal minor) [] digits (unfold all_amount in refl))
      (cut_point-digits (decimal minor) digits)
    ∙ (parse_parts-decimal minor 0 none refl refl
        ∙ (count_minor-decimal minor 0 0 none small refl
            ∙ (ap positive (omega (arith, small))
                ∙ positive-ok minor some_amount (omega (arith, small)))))

pub two_digits : (m : ℕ) → m < 100 → all_digits ((48 + m / 10) ∷ (48 + m % 10) ∷ []) ≡ true
unfolding all_digits is_digit
two_digits m h = ground arith

parse_cents-two :
    (m : ℕ) → m < 100 → parse_cents (some ((48 + m / 10) ∷ (48 + m % 10) ∷ [])) 2 ≡ ok m
unfolding parse_cents zeros
parse_cents-two m h =
    let s = (48 + m / 10) ∷ (48 + m % 10) ∷ [] in
    let value : value_from 0 s ≡ m = unfold value_from in omega (arith, h) in
    parse_int-digits s refl (two_digits m h) (omega (arith, value, h)) ∙ ap (λ n. ok n) value

point-ne-nil : (s t : List ℕ) → is_empty (s ++ 46 ∷ t) ≡ false
point-ne-nil [] t = refl
point-ne-nil (c ∷ s) t = refl

pub fraction-all_amount : (s : List ℕ) → all_digits s ≡ true → all_amount (46 ∷ s) ≡ true
unfolding all_amount is_amount
fraction-all_amount s h = ground (arith, all_amount-append s [], append-nil s, h)

digits-has_mark : (s : List ℕ) → all_digits s ≡ true → has_mark s ≡ false
unfolding all_digits has_mark is_digit
digits-has_mark [] h = refl
digits-has_mark (c ∷ s) h = ground (arith, digits-has_mark s)

fraction-formed :
    (major s : List ℕ)
    → is_empty major ≡ false
    → is_empty s ≡ false
    → all_digits s ≡ true
    → is_malformed major (some s) ≡ false
unfolding is_malformed
fraction-formed major s whole part h = rw (whole, part, digits-has_mark s h) refl

pub parse-cents :
    (minor : ℕ) → 0 < minor → minor < 10 ^ 15 → parse_trimmed (format_with 2 minor) 2 ≡ ok minor
unfolding format_with scaled
parse-cents minor some_amount small =
    let w = minor / 100 in
    let m = minor % 100 in
    let few : m < 100 = omega arith in
    let s = (48 + m / 10) ∷ (48 + m % 10) ∷ [] in
    let digits = all_digits-decimal w in
    let text : format_with 2 minor ≡ decimal w ++ 46 ∷ s =
      ap (λ t. decimal w ++ 46 ∷ t) (padded-two m few) in
    ap (λ t. parse_trimmed t 2) text
    ∙ (parse_trimmed-parts (decimal w ++ 46 ∷ s) (decimal w) (some s) 2 (point-ne-nil (decimal w) s)
          (starts_minus-digits (decimal w) (46 ∷ s) (decimal-ne-nil w) digits)
          (all_amount-append (decimal w) (46 ∷ s) digits (fraction-all_amount s (two_digits m few)))
          (cut_point-append (decimal w) s digits)
        ∙ (parse_parts-decimal w 2 (some s)
              (fraction-formed (decimal w) s (decimal-ne-nil w) refl (two_digits m few))
              (unfold has_too_many in refl)
            ∙ (count_minor-decimal w m 2 (some s) (omega (arith, small)) (parse_cents-two m few)
                ∙ (ap positive (omega (arith, small))
                    ∙ positive-ok minor some_amount (omega (arith, small))))))

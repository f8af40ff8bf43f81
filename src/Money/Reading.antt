-- ===== src/Money/Reading.antt =====
-- Texts of digits, as internal/extensions/finance/money.go takes them apart.
use mathlib.Core.List.{reverse, reverse_aux, reverse-reverse}
use eggy.Prelude.{
  ℕ, ◌^◌, ◌<◌, ◌≡◌, refl, Bool, true, false, ◌&&◌, none, some, List, [], ◌∷◌, ◌++◌, ◌==◌, lt→ltb,
  arith,
}
use eggy.Prelude.Result.{ok}
use eggy.Text.{trim_space, trim_left, is_space, is_empty}
use eggy.Money.{
  is_digit, all_digits, plain_digits, is_amount, drop_amount, trim_amount, starts_minus, cut_point,
  without_commas, value_from, parse_int,
}

unfoldable pub all_amount : List ℕ → Bool
unfolding is_amount
all_amount [] = true
all_amount (c ∷ s) = is_amount c && all_amount s

all_amount-reverse_aux :
    (s t : List ℕ) → all_amount (reverse_aux s t) ≡ (all_amount s && all_amount t)
unfolding all_amount
all_amount-reverse_aux [] t = refl
all_amount-reverse_aux (c ∷ s) t = ground (arith, all_amount-reverse_aux s (c ∷ t))

all_amount-reverse : (s : List ℕ) → all_amount s ≡ true → all_amount (reverse s) ≡ true
all_amount-reverse s h = unfold all_amount in ground (arith, all_amount-reverse_aux s [], h)

trim_left-all_amount : (s : List ℕ) → all_amount s ≡ true → trim_left s ≡ s
unfolding all_amount trim_left is_space is_amount is_digit
trim_left-all_amount [] h = refl
trim_left-all_amount (c ∷ s) h = ground arith

pub trim_space-all_amount : (s : List ℕ) → all_amount s ≡ true → trim_space s ≡ s
unfolding trim_space
trim_space-all_amount s h =
    rw (trim_left-all_amount s h, trim_left-all_amount (reverse s) (all_amount-reverse s h))
      (reverse-reverse s)

drop_amount-all_amount : (s : List ℕ) → all_amount s ≡ true → drop_amount s ≡ []
unfolding all_amount drop_amount
drop_amount-all_amount [] h = refl
drop_amount-all_amount (c ∷ s) h = ground (arith, drop_amount-all_amount s)

pub trim_amount-all_amount : (s : List ℕ) → all_amount s ≡ true → trim_amount s ≡ []
unfolding trim_amount drop_amount
trim_amount-all_amount s h = rw (drop_amount-all_amount s h) refl

pub all_amount-append :
    (s t : List ℕ) → all_digits s ≡ true → all_amount t ≡ true → all_amount (s ++ t) ≡ true
unfolding all_amount all_digits is_amount
all_amount-append [] t h k = k
all_amount-append (c ∷ s) t h k = ground (arith, all_amount-append s t)

point_is_no_digit : (c : ℕ) (s : List ℕ) → all_digits (c ∷ s) ≡ true → (c == 46) ≡ false
unfolding all_digits is_digit
point_is_no_digit c s h = ground arith

rest_is_digits : (c : ℕ) (s : List ℕ) → all_digits (c ∷ s) ≡ true → all_digits s ≡ true
unfolding all_digits
rest_is_digits c s h = ground arith

pub cut_point-digits : (s : List ℕ) → all_digits s ≡ true → cut_point s ≡ (s, none)
unfolding all_digits cut_point is_digit
cut_point-digits [] h = refl
cut_point-digits (c ∷ s) h =
    rw (point_is_no_digit c s h, cut_point-digits s (rest_is_digits c s h)) refl

pub cut_point-append : (s t : List ℕ) → all_digits s ≡ true → cut_point (s ++ 46 ∷ t) ≡ (s, some t)
unfolding all_digits cut_point is_digit
cut_point-append [] t h = refl
cut_point-append (c ∷ s) t h =
    rw (point_is_no_digit c s h, cut_point-append s t (rest_is_digits c s h)) refl

pub without_commas-digits : (s : List ℕ) → all_digits s ≡ true → without_commas s ≡ s
unfolding all_digits without_commas is_digit
without_commas-digits [] h = refl
without_commas-digits (c ∷ s) h = ground (arith, without_commas-digits s)

pub starts_minus-digits :
    (s t : List ℕ) → is_empty s ≡ false → all_digits s ≡ true → starts_minus (s ++ t) ≡ false
unfolding starts_minus all_digits is_digit
starts_minus-digits [] t some_digit h = absurd (ground arith)
starts_minus-digits (c ∷ s) t some_digit h = ground arith

pub parse_int-digits :
    (s : List ℕ)
    → is_empty s ≡ false
    → all_digits s ≡ true
    → value_from 0 s < 2 ^ 63
    → parse_int s ≡ ok (value_from 0 s)
unfolding parse_int plain_digits
parse_int-digits s some_digit h small =
    rw (some_digit, h, lt→ltb (value_from 0 s) (2 ^ 63) small) refl

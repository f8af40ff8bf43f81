-- ===== src/Money/Digits.antt =====
-- The digits that internal/extensions/finance/money.go reads and prints.
use eggy.Prelude.{
  ℕ, zero, suc, ◌+◌, ◌-◌, ◌*◌, ◌/◌, ◌%◌, ◌^◌, ◌≤◌, ◌<◌, ◌≡◌, refl, true, false, ◌&&◌, List, [], ◌∷◌,
  ◌++◌, ltb, length, lt→ltb, arith, Bool-cases, inl, inr, length-append,
}
use eggy.Text.{is_empty, decimal, digits_of}
use eggy.Money.{is_digit, all_digits, value_from, trim_zeros}

unfoldable pub power : ℕ → ℕ
power zero = 1
power (suc k) = 10 * power k

all_digits-append : (s t : List ℕ) → all_digits (s ++ t) ≡ (all_digits s && all_digits t)
unfolding all_digits
all_digits-append [] t = refl
all_digits-append (c ∷ s) t = ground (arith, all_digits-append s t)

value_from-append : (n : ℕ) (s t : List ℕ) → value_from n (s ++ t) ≡ value_from (value_from n s) t
unfolding value_from
value_from-append n [] t = refl
value_from-append n (c ∷ s) t = value_from-append (n * 10 + (c - 48)) s t

digits_of-value : (fuel n : ℕ) → n < power fuel → value_from 0 (digits_of fuel n) ≡ n
unfolding digits_of value_from power
digits_of-value zero n h = omega (arith, h)
digits_of-value (suc fuel) n h = elim (Bool-cases (ltb n 10)) [
  | inl small ↦ rw small (omega arith)
  | inr large ↦
      rw
        (
          large,
          value_from-append 0 (digits_of fuel (n / 10)) ((48 + n % 10) ∷ []),
          digits_of-value fuel (n / 10) (omega (arith, h)),
        )
        (omega arith)
]

digits_of-all_digits : (fuel n : ℕ) → all_digits (digits_of fuel n) ≡ true
unfolding digits_of all_digits is_digit
digits_of-all_digits zero n = refl
digits_of-all_digits (suc fuel) n = elim (Bool-cases (ltb n 10)) [
  | inl small ↦ rw small (ground (arith, small))
  | inr large ↦
      rw
        (
          large,
          all_digits-append (digits_of fuel (n / 10)) ((48 + n % 10) ∷ []),
          digits_of-all_digits fuel (n / 10),
        )
        (ground arith)
]

length-digits_of : (fuel k n : ℕ) → n < power (suc k) → length (digits_of fuel n) ≤ suc k
unfolding digits_of power
length-digits_of zero k n h = omega arith
length-digits_of (suc fuel) zero n h = rw (lt→ltb n 10 h) (omega arith)
length-digits_of (suc fuel) (suc k) n h = elim (Bool-cases (ltb n 10)) [
  | inl small ↦ rw small (omega arith)
  | inr large ↦ rw large (
      omega (
        arith,
        length-append (digits_of fuel (n / 10)) ((48 + n % 10) ∷ []),
        length-digits_of fuel k (n / 10) (omega (arith, h)),
      ))
]

pub length-trim_zeros : (s : List ℕ) → length (trim_zeros s) ≤ length s
unfolding trim_zeros
length-trim_zeros [] = omega arith
length-trim_zeros (c ∷ s) = ground (arith, length-trim_zeros s)

append-ne-nil : (s : List ℕ) (c : ℕ) → is_empty (s ++ c ∷ []) ≡ false
append-ne-nil [] c = refl
append-ne-nil (d ∷ s) c = refl

-- Printing a number gives its digits, of which there are no more than it has.
pub value_from-decimal : (n : ℕ) → n < 10 ^ 20 → value_from 0 (decimal n) ≡ n
unfolding decimal power
value_from-decimal n h = digits_of-value 20 n h

pub all_digits-decimal : (n : ℕ) → all_digits (decimal n) ≡ true
unfolding decimal
all_digits-decimal n = digits_of-all_digits 20 n

pub decimal-ne-nil : (n : ℕ) → is_empty (decimal n) ≡ false
unfolding decimal digits_of
decimal-ne-nil n = elim (Bool-cases (ltb n 10)) [
  | inl small ↦ rw small refl
  | inr large ↦ rw large (append-ne-nil (digits_of 19 (n / 10)) (48 + n % 10))
]

pub length-decimal : (n : ℕ) → n < 10 ^ 13 → length (decimal n) ≤ 13
unfolding decimal power
length-decimal n h = length-digits_of 20 12 n h

-- ===== src/Finance/Valid.antt =====
-- What holds of every entry that internal/extensions/finance/service.go hands to the store.
use mathlib.Core.Path.{subst}
use eggy.Prelude.{
  ℕ, suc, ◌≤◌, ◌≡◌, ◌⊎◌, inl, inr, refl, ap, ◌∙◌, String, Bool, true, false, ◌&&◌, none, some, List,
  [], ◌∷◌, map, arith, ltb, length, str_eq, eq_iff, Bool-cases, Option-cases,
}
use eggy.Prelude.Result.{ok, bind-ok, ok-injective}
use eggy.Text.{codes, trim_space, is_empty}
use eggy.Loop.{same_text}
use eggy.Money.{parse_amount}
use eggy.Finance.Dates.{is_date, parse_date}
use eggy.Finance.Entries.{
  FinanceEntry, Options, max_category, max_merchant, max_note, find_code, supports, accepts,
  clean_text, currency_of, clean_category, date_or,
}

abbrev pub IsIn : String → List String → Type 0
IsIn code [] = ⊥
IsIn code (c ∷ currencies) = (c ≡ code) ⊎ IsIn code currencies

-- An amount read in the entry's own supported currency, a date, and texts within their limits.
pub record IsValid (o : Options) (e : FinanceEntry) : Type 0 where
  pub supported : IsIn e.currency o.currencies
  pub read : (text : List ℕ) × (parse_amount text e.currency ≡ ok e.amount_minor)
  pub dated : is_date e.occurred_on ≡ true
  pub named : is_empty e.category ≡ false
  pub category : length e.category ≤ max_category
  pub merchant : length e.merchant ≤ max_merchant
  pub note : length e.note ≤ max_note

find_code-IsIn :
    (currencies : List String) (text : List ℕ) (code : String)
    → find_code currencies text ≡ some code
    → IsIn code currencies
unfolding find_code
find_code-IsIn [] text code h = absurd (ground (arith, h))
find_code-IsIn (c ∷ currencies) text code h = elim (Bool-cases (same_text (codes c) text)) [
  | inl same ↦ inl (ap (λ x. elim x [ none ↦ c | some y ↦ y ]) (rw same at h))
  | inr apart ↦ inr (find_code-IsIn currencies text code (rw apart at h))
]

supports-IsIn :
    (currencies : List String) (code : String)
    → supports currencies code ≡ true
    → IsIn code currencies
unfolding supports
supports-IsIn [] code h = absurd (ground (arith, h))
supports-IsIn (c ∷ currencies) code h = elim (Bool-cases (str_eq c code)) [
  | inl same ↦ inl ((eq_iff c code).0 same)
  | inr apart ↦ inr (supports-IsIn currencies code (ground (arith, h, apart)))
]

pub default-IsIn : (o : Options) → accepts o ≡ true → IsIn o.default_currency o.currencies
unfolding accepts
default-IsIn o h = supports-IsIn o.currencies o.default_currency (ground (arith, h))

pub clean_text-ok :
    (value : List ℕ) (limit : ℕ) (required : Bool) (s : List ℕ)
    → clean_text value limit required ≡ ok s
    → (length s ≤ limit) × ((required && is_empty s) ≡ false)
unfolding clean_text
clean_text-ok value limit required s h =
    elim (Bool-cases (required && is_empty (trim_space value))) [
      | inl missing ↦ absurd (ground (arith, missing, h))
      | inr there ↦ elim (Bool-cases (ltb limit (length (trim_space value)))) [
        | inl long ↦ absurd (ground (arith, there, long, h))
        | inr short ↦
            let same = ok-injective (trim_space value) s (rw (clean_text, there, short) at h) in
            subst (λ x. (length x ≤ limit) × ((required && is_empty x) ≡ false)) same
              (ground (arith, short), there)
      ]
    ]

pub parse_date-is_date : (text s : List ℕ) → parse_date text ≡ ok s → is_date s ≡ true
unfolding parse_date
parse_date-is_date text s h = elim (Bool-cases (is_date (trim_space text))) [
  | inr other ↦ absurd (ground (arith, other, h))
  | inl date ↦
      subst (λ x. is_date x ≡ true) (ok-injective (trim_space text) s (rw (parse_date, date) at h))
        date
]

length-map : (f : ℕ → ℕ) (s : List ℕ) → length (map f s) ≡ length s
length-map f [] = refl
length-map f (c ∷ s) = ap suc (length-map f s)

is_empty-map : (f : ℕ → ℕ) (s : List ℕ) → is_empty (map f s) ≡ is_empty s
is_empty-map f [] = refl
is_empty-map f (c ∷ s) = refl

module _ (o : Options) where
  pub clean_category-ok :
      (value s : List ℕ)
      → clean_category o value ≡ ok s
      → (length s ≤ max_category) × (is_empty s ≡ false)
  unfolding clean_category
  clean_category-ok value s h =
      let (text, (cleaned, same)) = bind-ok (clean_text value max_category true) _ s h in
      let fine = clean_text-ok value max_category true text cleaned in
      subst (λ x. (length x ≤ max_category) × (is_empty x ≡ false))
        (ok-injective (map o.lower text) s same)
        (omega (arith, length-map o.lower text, fine.0), is_empty-map o.lower text ∙ fine.1)

  pub currency_of-IsIn :
      (text : List ℕ) (code : String)
      → IsIn o.default_currency o.currencies
      → currency_of o text ≡ ok code
      → IsIn code o.currencies
  unfolding currency_of
  currency_of-IsIn text code default h =
      elim (Bool-cases (is_empty (map o.upper (trim_space text)))) [
        | inl blank ↦
            subst (λ c. IsIn c o.currencies)
              (ok-injective o.default_currency code (rw (currency_of, blank) at h)) default
        | inr written ↦
            elim (Option-cases (find_code o.currencies (map o.upper (trim_space text)))) [
              | inl unknown ↦ absurd (ground (arith, unknown, written, h))
              | inr (found, known) ↦
                  subst (λ c. IsIn c o.currencies)
                    (ok-injective found code (rw (currency_of, written, known) at h))
                    (find_code-IsIn o.currencies _ found known)
            ]
      ]

  pub date_or-is_date :
      (today date s : List ℕ)
      → is_date today ≡ true
      → date_or o today date ≡ ok s
      → is_date s ≡ true
  unfolding date_or
  date_or-is_date today date s now h = elim (Bool-cases (is_empty (trim_space date))) [
    | inl blank ↦
        subst (λ x. is_date x ≡ true) (ok-injective today s (rw (date_or, blank) at h)) now
    | inr written ↦ parse_date-is_date date s (rw (date_or, written) at h)
  ]

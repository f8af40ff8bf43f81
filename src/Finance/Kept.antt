-- ===== src/Finance/Kept.antt =====
-- `Log` and `Update` of internal/extensions/finance/service.go keep the entries valid.
use mathlib.Core.Path.{subst}
use eggy.Prelude.{
  ℕ, ◌≤◌, ◌≡◌, inl, inr, refl, sym, ap, ◌∙◌, String, true, false, Option, none, some, List, arith,
  str_eq, eq_iff, length, Bool-cases,
}
use eggy.Prelude.Result.{Result, ok, bind-ok, ok-injective}
use eggy.Text.{is_empty}
use eggy.Money.{parse_amount}
use eggy.Finance.Dates.{is_date, parse_date}
use eggy.Finance.Entries.{
  FinanceEntry, FinanceInput, FinancePatch, Options, max_category, max_merchant, max_note, accepts,
  clean_text, currency_of, clean_kind, clean_category, clean_source, date_or, logged, patched,
  patched_currency, updated,
}
use eggy.Finance.Valid.{
  IsIn, IsValid, default-IsIn, clean_text-ok, parse_date-is_date, clean_category-ok,
  currency_of-IsIn, date_or-is_date,
}

-- Every entry that `Log` records is valid, when the currencies passed the checks of `New` and today is a
-- date.
pub logged-IsValid :
    (o : Options) (id : String) (asked now : ℕ) (input : FinanceInput) (e : FinanceEntry)
    → accepts o ≡ true
    → is_date (o.today asked) ≡ true
    → logged o id asked now input ≡ ok e
    → IsValid o e
unfolding logged
logged-IsValid o id asked now input e good date h =
    let (kind, (_, h1)) = bind-ok (clean_kind o input.kind) _ e h in
    let (currency, (coded, h2)) = bind-ok (currency_of o input.currency) _ e h1 in
    let (minor, (counted, h3)) = bind-ok (parse_amount input.amount currency) _ e h2 in
    let (day, (parsed, h4)) = bind-ok (date_or o (o.today asked) input.date) _ e h3 in
    let (category, (filed, h5)) = bind-ok (clean_category o input.category) _ e h4 in
    let (merchant, (paid, h6)) = bind-ok (clean_text input.merchant max_merchant false) _ e h5 in
    let (note, (noted, h7)) = bind-ok (clean_text input.note max_note false) _ e h6 in
    let (source, (_, h8)) = bind-ok (clean_source o input.source) _ e h7 in
    subst (IsValid o) (ok-injective _ e h8) (record {
      supported = currency_of-IsIn o input.currency currency (default-IsIn o good) coded;
      read = (input.amount, counted);
      dated = date_or-is_date o (o.today asked) input.date day date parsed;
      named = (clean_category-ok o input.category category filed).1;
      category = (clean_category-ok o input.category category filed).0;
      merchant = (clean_text-ok input.merchant max_merchant false merchant paid).0;
      note = (clean_text-ok input.note max_note false note noted).0;
    })

-- A field keeps what held of it and holds of what is cleaned.
patched-ok :
    {A : Type 0} (P : A → Type 0) (p : Option (List ℕ)) (clean : List ℕ → Result A) (old new : A)
    → P old
    → ((text : List ℕ) (a : A) → clean text ≡ ok a → P a)
    → patched p clean old ≡ ok new
    → P new
patched-ok P none clean old new held cleaned h = subst P (ok-injective old new h) held
patched-ok P (some text) clean old new held cleaned h = cleaned text new h

-- The currency of a patched entry, and the one it had when the amount is not restated.
patched_currency-ok :
    (o : Options) (old code : String) (p amount : Option (List ℕ))
    → accepts o ≡ true
    → IsIn old o.currencies
    → patched_currency o old p amount ≡ ok code
    → IsIn code o.currencies × ((amount ≡ none) → old ≡ code)
unfolding patched_currency
patched_currency-ok o old code none amount good held h =
    let same = ok-injective old code h in (subst (λ c. IsIn c o.currencies) same held, λ _. same)
patched_currency-ok o old code (some text) (some a) good held h = (
  currency_of-IsIn o text code (default-IsIn o good) h,
  λ missing. absurd (ground (arith, missing)),
)
patched_currency-ok o old code (some text) none good held h =
    let (found, (coded, rest)) = bind-ok (currency_of o text) _ code h in
    elim (Bool-cases (str_eq found old)) [
      | inr apart ↦ absurd (ground (arith, apart, rest))
      | inl same ↦
          let equal : old ≡ code =
            sym ((eq_iff found old).0 same) ∙ ok-injective found code (rw same at rest) in
          (subst (λ c. IsIn c o.currencies) equal held, λ _. equal)
    ]

-- The amount of a patched entry is read in its currency.
patched-read :
    (old code : String) (minor new : ℕ) (amount : Option (List ℕ))
    → (text : List ℕ) × (parse_amount text old ≡ ok minor)
    → ((amount ≡ none) → old ≡ code)
    → patched amount (λ text. parse_amount text code) minor ≡ ok new
    → (text : List ℕ) × (parse_amount text code ≡ ok new)
patched-read old code minor new (some text) read kept h = (text, h)
patched-read old code minor new none (text, read) kept h = (
  text,
  subst (λ c. parse_amount text c ≡ ok new) (kept refl) (read ∙ ap ok (ok-injective minor new h)),
)

-- `Update` turns a valid entry into a valid one, or refuses the patch, when the currencies passed the checks
-- of `New`; so an amount is never carried over to another currency.
pub updated-IsValid :
    (o : Options) (now : ℕ) (patch : FinancePatch) (entry e : FinanceEntry)
    → accepts o ≡ true
    → IsValid o entry
    → updated o now patch entry ≡ ok e
    → IsValid o e
unfolding updated
updated-IsValid o now patch entry e good valid h =
    let (currency, (coded, h1)) =
      bind-ok (patched_currency o entry.currency patch.currency patch.amount) _ e h in
    let (minor, (counted, h2)) =
      bind-ok (patched patch.amount (λ text. parse_amount text currency) entry.amount_minor) _ e
        h1 in
    let (kind, (_, h3)) = bind-ok (patched patch.kind (clean_kind o) entry.kind) _ e h2 in
    let (day, (parsed, h4)) = bind-ok (patched patch.date parse_date entry.occurred_on) _ e h3 in
    let (category, (filed, h5)) =
      bind-ok (patched patch.category (clean_category o) entry.category) _ e h4 in
    let (merchant, (paid, h6)) =
      bind-ok (patched patch.merchant (λ text. clean_text text max_merchant false) entry.merchant) _
        e h5 in
    let (note, (noted, h7)) =
      bind-ok (patched patch.note (λ text. clean_text text max_note false) entry.note) _ e h6 in
    let known =
      patched_currency-ok o entry.currency currency patch.currency patch.amount good valid.supported
        coded in
    let fits =
      patched-ok (λ s. (length s ≤ max_category) × (is_empty s ≡ false)) patch.category
        (clean_category o) entry.category category (valid.category, valid.named)
        (clean_category-ok o) filed in
    subst (IsValid o) (ok-injective _ e h7) (record {
      supported = known.0;
      read =
          patched-read entry.currency currency entry.amount_minor minor patch.amount valid.read
            known.1 counted;
      dated =
          patched-ok (λ s. is_date s ≡ true) patch.date parse_date entry.occurred_on day valid.dated
            parse_date-is_date parsed;
      named = fits.1;
      category = fits.0;
      merchant =
          patched-ok (λ s. length s ≤ max_merchant) patch.merchant _ entry.merchant merchant
            valid.merchant (λ text s c. (clean_text-ok text max_merchant false s c).0) paid;
      note =
          patched-ok (λ s. length s ≤ max_note) patch.note _ entry.note note valid.note
            (λ text s c. (clean_text-ok text max_note false s c).0) noted;
    })

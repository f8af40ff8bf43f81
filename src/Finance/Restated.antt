-- ===== src/Finance/Restated.antt =====
-- Where the amounts in the rows of internal/storage/sqlite/ext_finance.go come from: `Log` and `Update` of
-- internal/extensions/finance/service.go.
use mathlib.Core.Path.{subst}
use eggy.Prelude.{
  ℕ, ◌≡◌, ◌⊎◌, inl, inr, refl, sym, ◌∙◌, String, false, Option, none, some, List, [], ◌∷◌, arith,
  All, str_eq, eq_iff, Bool-cases,
}
use eggy.Prelude.Result.{ok, bind-ok, ok-injective}
use eggy.Money.{parse_amount}
use eggy.Finance.Dates.{parse_date}
use eggy.Finance.Entries.{
  FinanceEntry, FinanceInput, FinancePatch, Options, max_merchant, max_note, clean_text,
  currency_of, clean_kind, clean_category, clean_source, date_or, logged, patched, patched_currency,
  updated,
}
use eggy.Finance.Ledger.{Row, Ledger, acting}
use eggy.Finance.Service.{FinanceCall, logs, patches, step}

-- The entry of an account with the same amount in the same currency.
pub record SameMoney (r r' : Row) : Type 0 where
  pub account : r'.account ≡ r.account
  pub id : r'.entry.id ≡ r.entry.id
  pub amount : r'.entry.amount_minor ≡ r.entry.amount_minor
  pub currency : r'.entry.currency ≡ r.entry.currency

-- A row's money stands in a list of rows.
abbrev pub Held : Row → List Row → Type 0
Held r' [] = ⊥
Held r' (r ∷ rows) = SameMoney r r' ⊎ Held r' rows

-- A row's money was given to a call: to a `Log` with the currency, or to an `Update` that has an amount.
abbrev pub Given : Options → FinanceCall → Row → Type 0
Given o (logs a id asked now input) r =
    (acting a ≡ ok r.account)
    × ((r.entry.id ≡ id)
        × ((currency_of o input.currency ≡ ok r.entry.currency)
            × (parse_amount input.amount r.entry.currency ≡ ok r.entry.amount_minor)))
Given o (patches a id now patch) r =
    (acting a ≡ ok r.account)
    × ((r.entry.id ≡ o.trim_id id)
        × ((text : List ℕ) × ((patch.amount ≡ some text)
              × (parse_amount text r.entry.currency ≡ ok r.entry.amount_minor))))
Given o _ r = ⊥

-- At every step of a run each row has the money of a row before the step, or was given it by the step.
abbrev pub Accounts : Options → Ledger → List FinanceCall → Type 0
Accounts o l [] = Unit
Accounts o l (op ∷ ops) =
    All (λ (r : Row). Held r l.rows ⊎ Given o op r) (step o l op).rows
    × Accounts o (step o l op) ops

-- The amount and the currency of an entry that `Update` changes.
patched_currency-kept :
    (o : Options) (old code : String) (p amount : Option (List ℕ))
    → patched_currency o old p amount ≡ ok code
    → amount ≡ none
    → code ≡ old
unfolding patched_currency
patched_currency-kept o old code none amount h missing = sym (ok-injective old code h)
patched_currency-kept o old code (some text) (some a) h missing = absurd (ground (arith, missing))
patched_currency-kept o old code (some text) none h missing =
    let (found, (coded, rest)) = bind-ok (currency_of o text) _ code h in
    elim (Bool-cases (str_eq found old)) [
      | inr apart ↦ absurd (ground (arith, apart, rest))
      | inl same ↦ sym (ok-injective found code (rw same at rest)) ∙ (eq_iff found old).0 same
    ]

-- The money that a patch leaves, or gives.
abbrev pub Restates : Option (List ℕ) → String → ℕ → String → ℕ → Type 0
Restates amount old minor code new =
    ((new ≡ minor) × (code ≡ old))
    ⊎ ((text : List ℕ) × ((amount ≡ some text) × (parse_amount text code ≡ ok new)))

patched-Restates :
    (amount : Option (List ℕ)) (old code : String) (minor new : ℕ)
    → (amount ≡ none → code ≡ old)
    → patched amount (λ text. parse_amount text code) minor ≡ ok new
    → Restates amount old minor code new
patched-Restates none old code minor new kept h = inl (sym (ok-injective minor new h), kept refl)
patched-Restates (some text) old code minor new kept h = inr (text, (refl, h))

pub updated-Restates :
    (o : Options) (now : ℕ) (patch : FinancePatch) (entry e : FinanceEntry)
    → updated o now patch entry ≡ ok e
    → Restates patch.amount entry.currency entry.amount_minor e.currency e.amount_minor
unfolding updated
updated-Restates o now patch entry e h =
    let (currency, (coded, h1)) =
      bind-ok (patched_currency o entry.currency patch.currency patch.amount) _ e h in
    let (minor, (counted, h2)) =
      bind-ok (patched patch.amount (λ text. parse_amount text currency) entry.amount_minor) _ e
        h1 in
    let (kind, (_, h3)) = bind-ok (patched patch.kind (clean_kind o) entry.kind) _ e h2 in
    let (day, (_, h4)) = bind-ok (patched patch.date parse_date entry.occurred_on) _ e h3 in
    let (category, (_, h5)) =
      bind-ok (patched patch.category (clean_category o) entry.category) _ e h4 in
    let (merchant, (_, h6)) =
      bind-ok (patched patch.merchant (λ text. clean_text text max_merchant false) entry.merchant) _
        e h5 in
    let (note, (_, h7)) =
      bind-ok (patched patch.note (λ text. clean_text text max_note false) entry.note) _ e h6 in
    subst
      (λ (x : FinanceEntry).
        Restates patch.amount entry.currency entry.amount_minor x.currency x.amount_minor)
      (ok-injective _ e h7)
      (patched-Restates patch.amount entry.currency currency entry.amount_minor minor
        (patched_currency-kept o entry.currency currency patch.currency patch.amount coded) counted)

pub logged-money :
    (o : Options) (id : String) (asked now : ℕ) (input : FinanceInput) (e : FinanceEntry)
    → logged o id asked now input ≡ ok e
    → (e.id ≡ id)
      × ((currency_of o input.currency ≡ ok e.currency)
          × (parse_amount input.amount e.currency ≡ ok e.amount_minor))
unfolding logged
logged-money o id asked now input e h =
    let (kind, (_, h1)) = bind-ok (clean_kind o input.kind) _ e h in
    let (currency, (coded, h2)) = bind-ok (currency_of o input.currency) _ e h1 in
    let (minor, (counted, h3)) = bind-ok (parse_amount input.amount currency) _ e h2 in
    let (day, (_, h4)) = bind-ok (date_or o (o.today asked) input.date) _ e h3 in
    let (category, (_, h5)) = bind-ok (clean_category o input.category) _ e h4 in
    let (merchant, (_, h6)) = bind-ok (clean_text input.merchant max_merchant false) _ e h5 in
    let (note, (_, h7)) = bind-ok (clean_text input.note max_note false) _ e h6 in
    let (source, (_, h8)) = bind-ok (clean_source o input.source) _ e h7 in
    subst
      (λ (x : FinanceEntry).
        (x.id ≡ id)
        × ((currency_of o input.currency ≡ ok x.currency)
            × (parse_amount input.amount x.currency ≡ ok x.amount_minor)))
      (ok-injective _ e h8) (refl, (coded, counted))

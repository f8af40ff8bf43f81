-- ===== src/Finance/Entries.antt =====
-- The entries of internal/extensions/finance/service.go: what `Log` and `Update` make of what they are given. The cases
-- of letters are `unicode.ToLower` and `unicode.ToUpper`, on code points.
use eggy.Prelude.{
  ℕ, String, Bool, true, false, ◌&&◌, ◌||◌, Option, none, some, List, [], ◌∷◌, map, ltb, length,
  str_eq, if◌then◌else◌,
}
use eggy.Prelude.Result.{Result, ok, ◌>>=◌}
use eggy.Prelude.Dict.{get}
use eggy.Text.{codes, trim_space, is_empty}
use eggy.Loop.{same_text}
use eggy.Money.{invalid, parse_amount, exponents}
use eggy.Finance.{FinanceKind, expense, income, invest, divest}
use eggy.Finance.Dates.{parse_date}

pub data Source : Type 0 where
  chat photo panel : Source

pub record FinanceEntry : Type 0 where
  pub id : String
  pub kind : FinanceKind
  pub occurred_on : List ℕ
  pub amount_minor : ℕ
  pub currency : String
  pub category : List ℕ
  pub merchant : List ℕ
  pub note : List ℕ
  pub source : Source
  pub created_at : ℕ
  pub updated_at : ℕ

pub record FinanceInput : Type 0 where
  pub kind : List ℕ
  pub date : List ℕ
  pub amount : List ℕ
  pub currency : List ℕ
  pub category : List ℕ
  pub merchant : List ℕ
  pub note : List ℕ
  pub source : List ℕ

pub record FinancePatch : Type 0 where
  pub kind : Option (List ℕ)
  pub date : Option (List ℕ)
  pub amount : Option (List ℕ)
  pub currency : Option (List ℕ)
  pub category : Option (List ℕ)
  pub merchant : Option (List ℕ)
  pub note : Option (List ℕ)

-- `Options`; `today` is the date in the owner's zone at a moment, and `trim_id` is `strings.TrimSpace` of an
-- identifier.
pub record Options : Type 0 where
  pub currencies : List String
  pub default_currency : String
  pub today : ℕ → List ℕ
  pub trim_id : String → String
  pub lower : ℕ → ℕ
  pub upper : ℕ → ℕ

abbrev pub max_category : ℕ
max_category = 40

abbrev pub max_merchant : ℕ
max_merchant = 80

abbrev pub max_note : ℕ
max_note = 280

unfoldable pub find_code : List String → List ℕ → Option String
unfolding same_text
find_code [] text = none
find_code (code ∷ currencies) text =
    let rest = find_code currencies text in if same_text (codes code) text then some code else rest

-- The checks of `New` on the currencies.
unfoldable pub all_counted : List String → Bool
all_counted [] = true
all_counted (code ∷ currencies) = elim (get exponents code) [
  | none ↦ false
  | some _ ↦ all_counted currencies
]

unfoldable pub supports : List String → String → Bool
supports [] code = false
supports (c ∷ currencies) code = str_eq c code || supports currencies code

unfoldable pub accepts : Options → Bool
unfolding all_counted supports
accepts o = all_counted o.currencies && supports o.currencies o.default_currency

-- `cleanText`.
unfoldable pub clean_text : List ℕ → ℕ → Bool → Result (List ℕ)
unfolding trim_space
clean_text value limit required =
    let trimmed = trim_space value in
    if required && is_empty trimmed
    then invalid
    else if ltb limit (length trimmed)
    then invalid
    else ok trimmed

-- A field of a patch, or what the entry has.
abbrev pub patched : {A : Type 0} → Option (List ℕ) → (List ℕ → Result A) → A → Result A
patched none clean old = ok old
patched (some text) clean old = clean text

module _ (o : Options) where
  -- `currency`.
  unfoldable pub currency_of : List ℕ → Result String
  unfolding find_code trim_space
  currency_of text =
      let code = map o.upper (trim_space text) in
      if is_empty code
      then ok o.default_currency
      else elim (find_code o.currencies code) [ none ↦ invalid | some found ↦ ok found ]

  -- `cleanKind`.
  unfoldable pub clean_kind : List ℕ → Result FinanceKind
  unfolding same_text trim_space
  clean_kind value =
      let kind = map o.lower (trim_space value) in
      if is_empty kind || same_text kind (codes "expense")
      then ok expense
      else if same_text kind (codes "income")
      then ok income
      else if same_text kind (codes "invest")
      then ok invest
      else if same_text kind (codes "divest")
      then ok divest
      else invalid

  -- `cleanCategory`.
  unfoldable pub clean_category : List ℕ → Result (List ℕ)
  unfolding clean_text
  clean_category value = do category ← clean_text value max_category true; ok (map o.lower category)

  unfoldable pub clean_source : List ℕ → Result Source
  unfolding same_text trim_space
  clean_source value =
      let source = map o.lower (trim_space value) in
      if is_empty source || same_text source (codes "chat")
      then ok chat
      else if same_text source (codes "photo")
      then ok photo
      else if same_text source (codes "panel")
      then ok panel
      else invalid

  unfoldable pub date_or : List ℕ → List ℕ → Result (List ℕ)
  unfolding parse_date trim_space
  date_or today date = if is_empty (trim_space date) then ok today else parse_date date

  -- The entry that `Log` records, if it accepts the input. It reads the clock for today, and again for the
  -- times of the entry.
  unfoldable pub logged : String → ℕ → ℕ → FinanceInput → Result FinanceEntry
  unfolding currency_of clean_kind clean_category clean_text clean_source date_or
  logged id asked now input = do
    kind ← clean_kind input.kind
    currency ← currency_of input.currency
    minor ← parse_amount input.amount currency
    date ← date_or (o.today asked) input.date
    category ← clean_category input.category
    merchant ← clean_text input.merchant max_merchant false
    note ← clean_text input.note max_note false
    source ← clean_source input.source
    ok (record {
      id = id;
      kind = kind;
      occurred_on = date;
      amount_minor = minor;
      currency = currency;
      category = category;
      merchant = merchant;
      note = note;
      source = source;
      created_at = now;
      updated_at = now;
    })

  -- The currency of a patched entry: another one needs the amount restated.
  unfoldable pub patched_currency : String → Option (List ℕ) → Option (List ℕ) → Result String
  unfolding currency_of
  patched_currency old none amount = ok old
  patched_currency old (some text) (some amount) = currency_of text
  patched_currency old (some text) none = do
    code ← currency_of text
    (if str_eq code old then ok code else invalid)

  -- The change that `Update` makes to an entry.
  unfoldable pub updated : ℕ → FinancePatch → FinanceEntry → Result FinanceEntry
  unfolding patched_currency clean_kind clean_category clean_text parse_date
  updated now patch entry = do
    currency ← patched_currency entry.currency patch.currency patch.amount
    minor ← patched patch.amount (λ text. parse_amount text currency) entry.amount_minor
    kind ← patched patch.kind clean_kind entry.kind
    date ← patched patch.date parse_date entry.occurred_on
    category ← patched patch.category clean_category entry.category
    merchant ← patched patch.merchant (λ text. clean_text text max_merchant false) entry.merchant
    note ← patched patch.note (λ text. clean_text text max_note false) entry.note
    ok (record entry {
      kind = kind;
      occurred_on = date;
      amount_minor = minor;
      currency = currency;
      category = category;
      merchant = merchant;
      note = note;
      updated_at = now;
    })

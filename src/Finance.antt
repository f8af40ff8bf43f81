-- ===== src/Finance.antt =====
-- The flows of a report, of internal/extensions/finance/report.go: flowsOf, orderedCurrencies and findFlow,
-- with their types of internal/ports/ext_finance.go. An `int64` is its 64 bits.
pub mod Figures
pub mod Sums
pub mod Flows
pub mod Dates
pub mod Entries
pub mod Valid
pub mod Kept
pub mod Ledger
pub mod Service
pub mod Books
pub mod Restated
pub mod Accounted
pub mod Private
pub mod Isolated
use eggy.Prelude.{
  ℕ, ◌+◌, String, Bool, true, false, not, ◌||◌, Option, none, some, List, [], ◌∷◌, str_eq,
  if◌then◌else◌,
}
use eggy.Prelude.Dict.{Dict, get, put}
use eggy.Store.{u64}

-- The four kinds of an entry, and every other text.
pub data FinanceKind : Type 0 where
  expense income invest divest unknown_kind : FinanceKind

pub record FinanceCategoryTotal : Type 0 where
  pub currency : String
  pub kind : FinanceKind
  pub amount_minor : ℕ
  pub count : ℕ

pub record FinanceFlow : Type 0 where
  pub currency : String
  pub inflow : ℕ
  pub outflow : ℕ
  pub invested : ℕ
  pub divested : ℕ
  pub count : ℕ

-- What a missing key of `byCode` reads as.
abbrev pub flow_or_zero : Option FinanceFlow → FinanceFlow
flow_or_zero (some flow) = flow
flow_or_zero none = record {
  currency = "";
  inflow = 0;
  outflow = 0;
  invested = 0;
  divested = 0;
  count = 0;
}

-- The `switch` of `flowsOf`.
unfoldable pub add_amount : FinanceFlow → FinanceKind → ℕ → FinanceFlow
add_amount flow income amount = record flow { inflow = u64 (flow.inflow + amount) }
add_amount flow divest amount = record flow {
  inflow = u64 (flow.inflow + amount);
  divested = u64 (flow.divested + amount);
}
add_amount flow expense amount = record flow { outflow = u64 (flow.outflow + amount) }
add_amount flow invest amount = record flow { invested = u64 (flow.invested + amount) }
add_amount flow unknown_kind amount = flow

-- One row of the loop of `flowsOf`.
unfoldable pub add_row : FinanceFlow → FinanceCategoryTotal → FinanceFlow
unfolding add_amount
add_row flow row =
    add_amount (record flow { currency = row.currency; count = u64 (flow.count + row.count) })
      row.kind row.amount_minor

unfoldable pub by_code : Dict FinanceFlow → List FinanceCategoryTotal → Dict FinanceFlow
unfolding add_row
by_code flows [] = flows
by_code flows (row ∷ rows) =
    by_code (put flows row.currency (add_row (flow_or_zero (get flows row.currency)) row)) rows

-- The configured currencies after the default one.
unfoldable pub other_currencies : String → List String → List String
other_currencies default [] = []
other_currencies default (code ∷ currencies) =
    let rest = other_currencies default currencies in
    if str_eq code default then rest else code ∷ rest

-- `orderedCurrencies`.
unfoldable pub ordered_currencies : String → List String → List String
unfolding other_currencies
ordered_currencies default currencies = default ∷ other_currencies default currencies

unfoldable pub present : Dict FinanceFlow → List String → List FinanceFlow
present flows [] = []
present flows (code ∷ codes) = elim (get flows code) [
  | none ↦ present flows codes
  | some flow ↦ flow ∷ present flows codes
]

-- `flowsOf`.
unfoldable pub flows_of : String → List String → List FinanceCategoryTotal → List FinanceFlow
unfolding by_code ordered_currencies present
flows_of default currencies rows = present (by_code [] rows) (ordered_currencies default currencies)

-- `findFlow`.
unfoldable pub find_flow : List FinanceFlow → String → Option FinanceFlow
find_flow [] code = none
find_flow (flow ∷ flows) code =
    let rest = find_flow flows code in if str_eq flow.currency code then some flow else rest

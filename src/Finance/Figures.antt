-- ===== src/Finance/Figures.antt =====
-- The figures of a flow of internal/extensions/finance/report.go, as sums over rows.
use eggy.Prelude.{
  ℕ, ◌+◌, ◌≡◌, refl, String, Bool, true, false, ◌||◌, List, [], ◌∷◌, str_eq, if◌then◌else◌, arith,
}
use eggy.Store.{u64}
use eggy.Finance.{
  FinanceKind, income, divest, expense, invest, unknown_kind, FinanceCategoryTotal, FinanceFlow,
  add_amount, add_row,
}

-- The sum of a figure over the rows of a currency.
abbrev pub sum_of : (FinanceCategoryTotal → ℕ) → String → List FinanceCategoryTotal → ℕ
sum_of figure code [] = 0
sum_of figure code (row ∷ rows) =
    (if str_eq row.currency code then figure row else 0) + sum_of figure code rows

-- What a kind of entry counts for.
abbrev pub comes_in : FinanceKind → Bool
comes_in income = true
comes_in divest = true
comes_in _ = false

abbrev pub goes_out : FinanceKind → Bool
goes_out expense = true
goes_out _ = false

abbrev pub is_invested : FinanceKind → Bool
is_invested invest = true
is_invested _ = false

abbrev pub is_divested : FinanceKind → Bool
is_divested divest = true
is_divested _ = false

abbrev pub amount_when : (FinanceKind → Bool) → FinanceCategoryTotal → ℕ
amount_when counts row = if counts row.kind then row.amount_minor else 0

-- The rows have one of the currency.
abbrev pub has_row : String → List FinanceCategoryTotal → Bool
has_row code [] = false
has_row code (row ∷ rows) = str_eq row.currency code || has_row code rows

-- The flow is the sums of the rows of its currency, of 64 bits.
pub record Summed (start flow : FinanceFlow) (code : String) (rows : List FinanceCategoryTotal)
    : Type 0 where
  pub currency : flow.currency ≡ code
  pub inflow : u64 flow.inflow ≡ u64 (start.inflow + sum_of (amount_when comes_in) code rows)
  pub outflow : u64 flow.outflow ≡ u64 (start.outflow + sum_of (amount_when goes_out) code rows)
  pub invested :
      u64 flow.invested ≡ u64 (start.invested + sum_of (amount_when is_invested) code rows)
  pub divested :
      u64 flow.divested ≡ u64 (start.divested + sum_of (amount_when is_divested) code rows)
  pub count : u64 flow.count ≡ u64 (start.count + sum_of (λ row. row.count) code rows)

-- The flow is a flow with the figures of one row more.
pub record Added (start flow : FinanceFlow) (row : FinanceCategoryTotal) : Type 0 where
  pub currency : flow.currency ≡ row.currency
  pub inflow : u64 flow.inflow ≡ u64 (start.inflow + amount_when comes_in row)
  pub outflow : u64 flow.outflow ≡ u64 (start.outflow + amount_when goes_out row)
  pub invested : u64 flow.invested ≡ u64 (start.invested + amount_when is_invested row)
  pub divested : u64 flow.divested ≡ u64 (start.divested + amount_when is_divested row)
  pub count : u64 flow.count ≡ u64 (start.count + row.count)

add_amount-Added :
    (flow : FinanceFlow) (row : FinanceCategoryTotal) (kind : FinanceKind)
    → row.kind ≡ kind
    → Added flow
        (add_amount
          (record flow { currency = row.currency; count = u64 (flow.count + row.count) })
          kind
          row.amount_minor)
        row
unfolding add_amount
add_amount-Added flow row income k = rw k (record {
  currency = refl;
  inflow = omega arith;
  outflow = omega arith;
  invested = omega arith;
  divested = omega arith;
  count = omega arith;
})
add_amount-Added flow row divest k = rw k (record {
  currency = refl;
  inflow = omega arith;
  outflow = omega arith;
  invested = omega arith;
  divested = omega arith;
  count = omega arith;
})
add_amount-Added flow row expense k = rw k (record {
  currency = refl;
  inflow = omega arith;
  outflow = omega arith;
  invested = omega arith;
  divested = omega arith;
  count = omega arith;
})
add_amount-Added flow row invest k = rw k (record {
  currency = refl;
  inflow = omega arith;
  outflow = omega arith;
  invested = omega arith;
  divested = omega arith;
  count = omega arith;
})
add_amount-Added flow row unknown_kind k = rw k (record {
  currency = refl;
  inflow = omega arith;
  outflow = omega arith;
  invested = omega arith;
  divested = omega arith;
  count = omega arith;
})

pub add_row-Added :
    (flow : FinanceFlow) (row : FinanceCategoryTotal) → Added flow (add_row flow row) row
unfolding add_row
add_row-Added flow row = add_amount-Added flow row row.kind refl

-- A row of another currency counts for nothing; one of the currency counts for its figures.
pub Summed-skip :
    (start flow : FinanceFlow) (code : String) (row : FinanceCategoryTotal)
    (rows : List FinanceCategoryTotal)
    → str_eq row.currency code ≡ false
    → Summed start flow code rows
    → Summed start flow code (row ∷ rows)
Summed-skip start flow code row rows other h = record {
  currency = h.currency;
  inflow = rw other (omega (arith, h.inflow));
  outflow = rw other (omega (arith, h.outflow));
  invested = rw other (omega (arith, h.invested));
  divested = rw other (omega (arith, h.divested));
  count = rw other (omega (arith, h.count));
}

pub Summed-more :
    (start next flow : FinanceFlow) (code : String) (row : FinanceCategoryTotal)
    (rows : List FinanceCategoryTotal)
    → str_eq row.currency code ≡ true
    → Added start next row
    → Summed next flow code rows
    → Summed start flow code (row ∷ rows)
Summed-more start next flow code row rows same a h = record {
  currency = h.currency;
  inflow = rw same (omega (arith, h.inflow, a.inflow));
  outflow = rw same (omega (arith, h.outflow, a.outflow));
  invested = rw same (omega (arith, h.invested, a.invested));
  divested = rw same (omega (arith, h.divested, a.divested));
  count = rw same (omega (arith, h.count, a.count));
}

pub Summed-none :
    (flow : FinanceFlow) (code : String) → flow.currency ≡ code → Summed flow flow code []
Summed-none flow code c = record {
  currency = c;
  inflow = omega arith;
  outflow = omega arith;
  invested = omega arith;
  divested = omega arith;
  count = omega arith;
}

-- ===== src/Examples/Finance.antt =====
-- The theorem on a report's flows, on two currencies.
use eggy.Prelude.{ℕ, String, ◌≡◌, ◌⊎◌, ◌&&◌, Bool, true, false, refl, some, none, List, [], ◌∷◌}
use eggy.Finance.{
  FinanceCategoryTotal, FinanceFlow, FinanceKind, income, divest, expense, flows_of, find_flow,
}
use eggy.Finance.Figures.{Summed, has_row}
use eggy.Finance.Sums.{zero_flow}
use eggy.Finance.Flows.{is_listed, flows_of-Summed}

abbrev row_of : String → FinanceKind → ℕ → FinanceCategoryTotal
row_of currency kind amount = record {
  currency = currency;
  kind = kind;
  amount_minor = amount;
  count = 1;
}

abbrev month_rows : List FinanceCategoryTotal
month_rows =
    row_of "SGD" income 500000
    ∷ row_of "USD" expense 999
    ∷ row_of "SGD" expense 1450
    ∷ row_of "SGD" divest 20000
    ∷ []

inflow_of_month :
    find_flow (flows_of "SGD" [] month_rows) "SGD"
    ≡ some (record {
      currency = "SGD";
      inflow = 520000;
      outflow = 1450;
      invested = 0;
      divested = 20000;
      count = 3;
    })
unfolding find_flow flows_of eggy.Prelude.Dict.get eggy.Prelude.Dict.put
inflow_of_month = refl

flows_of-Summed_example :
    (((is_listed ("SGD" ∷ []) "SGD" && has_row "SGD" month_rows) ≡ false)
      × (find_flow (flows_of "SGD" [] month_rows) "SGD" ≡ none))
    ⊎ (((is_listed ("SGD" ∷ []) "SGD" && has_row "SGD" month_rows) ≡ true)
        × ((flow : FinanceFlow) × ((find_flow (flows_of "SGD" [] month_rows) "SGD" ≡ some flow)
              × Summed zero_flow flow "SGD" month_rows)))
flows_of-Summed_example = flows_of-Summed "SGD" [] month_rows "SGD"

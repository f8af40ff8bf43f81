-- ===== src/Finance/Sums.antt =====
-- The flows of internal/extensions/finance/report.go are the sums of the rows of their currency.
use eggy.Prelude.{
  ◌≡◌, ◌⊎◌, inl, inr, refl, ap, ◌∙◌, String, true, false, Option, none, some, List, [], ◌∷◌, str_eq,
  eq_iff, Bool-cases,
}
use eggy.Prelude.Dict.{Dict, get, put, get-put}
use eggy.Finance.{FinanceCategoryTotal, FinanceFlow, flow_or_zero, add_row, by_code}
use eggy.Finance.Figures.{has_row, Summed, add_row-Added, Summed-skip, Summed-more, Summed-none}

abbrev flows_after : Dict FinanceFlow → FinanceCategoryTotal → Dict FinanceFlow
flows_after flows row = put flows row.currency (add_row (flow_or_zero (get flows row.currency)) row)

get-same :
    (flows : Dict FinanceFlow) (row : FinanceCategoryTotal) (code : String) (o : Option FinanceFlow)
    → str_eq row.currency code ≡ true
    → get flows code ≡ o
    → get (flows_after flows row) code ≡ some (add_row (flow_or_zero o) row)
get-same flows row code o same known =
    get-put flows row.currency (add_row (flow_or_zero (get flows row.currency)) row) code
    ∙ rw same (
        ap (λ x. some (add_row (flow_or_zero x) row))
          (ap (λ k. get flows k) ((eq_iff row.currency code).0 same) ∙ known))

get-other :
    (flows : Dict FinanceFlow) (row : FinanceCategoryTotal) (code : String)
    → str_eq row.currency code ≡ false
    → get (flows_after flows row) code ≡ get flows code
get-other flows row code other =
    get-put flows row.currency (add_row (flow_or_zero (get flows row.currency)) row) code
    ∙ rw other refl

-- What the loop makes of a currency that already has a flow, and of one that has none.
known-Summed :
    (flows : Dict FinanceFlow) (rows : List FinanceCategoryTotal) (code : String)
    (start : FinanceFlow)
    → get flows code ≡ some start
    → start.currency ≡ code
    → (flow : FinanceFlow) × ((get (by_code flows rows) code ≡ some flow)
        × Summed start flow code rows)
unfolding by_code
known-Summed flows [] code start known c = (start, (known, Summed-none start code c))
known-Summed flows (row ∷ rows) code start known c = elim (Bool-cases (str_eq row.currency code)) [
  | inl same ↦
      let a = add_row-Added start row in
      let (flow, (found, sums)) =
        known-Summed (flows_after flows row) rows code (add_row start row)
          (get-same flows row code (some start) same known)
          (a.currency ∙ (eq_iff row.currency code).0 same) in
      (flow, (found, Summed-more start (add_row start row) flow code row rows same a sums))
  | inr other ↦
      let (flow, (found, sums)) =
        known-Summed (flows_after flows row) rows code start
          (get-other flows row code other ∙ known) c in
      (flow, (found, Summed-skip start flow code row rows other sums))
]

abbrev pub zero_flow : FinanceFlow
zero_flow = flow_or_zero none

-- The flow of a currency after the rows: none without a row of it, or else the sums of its rows.
abbrev pub FlowOf : Option FinanceFlow → String → List FinanceCategoryTotal → Type 0
FlowOf o code rows =
    ((has_row code rows ≡ false) × (o ≡ none))
    ⊎ ((has_row code rows ≡ true)
        × ((flow : FinanceFlow) × ((o ≡ some flow) × Summed zero_flow flow code rows)))

pub unknown-Summed :
    (flows : Dict FinanceFlow) (rows : List FinanceCategoryTotal) (code : String)
    → get flows code ≡ none
    → FlowOf (get (by_code flows rows) code) code rows
unfolding by_code
unknown-Summed flows [] code unknown = inl (refl, unknown)
unknown-Summed flows (row ∷ rows) code unknown = elim (Bool-cases (str_eq row.currency code)) [
  | inl same ↦
      let a = add_row-Added zero_flow row in
      let (flow, (found, sums)) =
        known-Summed (flows_after flows row) rows code (add_row zero_flow row)
          (get-same flows row code none same unknown)
          (a.currency ∙ (eq_iff row.currency code).0 same) in
      inr (
        rw same refl,
        (
          flow,
          (found, Summed-more zero_flow (add_row zero_flow row) flow code row rows same a sums),
        ),
      )
  | inr other ↦
      elim (unknown-Summed (flows_after flows row) rows code
        (get-other flows row code other ∙ unknown)) [
          | inl (no_row, missing) ↦ inl (rw other no_row, missing)
          | inr (a_row, (flow, (found, sums))) ↦
              inr (
                rw other a_row,
                (flow, (found, Summed-skip zero_flow flow code row rows other sums)),
              )
        ]
]

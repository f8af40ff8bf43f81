-- ===== src/Finance/Flows.antt =====
-- What internal/extensions/finance/report.go reports for a currency.
use mathlib.Core.Path.{subst}
use eggy.Prelude.{
  ◌≡◌, ◌⊎◌, inl, inr, refl, sym, ap, ◌∙◌, String, Bool, true, false, ◌&&◌, ◌||◌, Option, none, some,
  List, [], ◌∷◌, str_eq, eq_iff, if◌then◌else◌, arith, Bool-cases, Option-cases,
}
use eggy.Prelude.Dict.{Dict, get}
use eggy.Finance.{
  FinanceCategoryTotal, FinanceFlow, by_code, other_currencies, ordered_currencies, present,
  flows_of, find_flow,
}
use eggy.Finance.Figures.{has_row, Summed}
use eggy.Finance.Sums.{zero_flow, unknown-Summed}

-- The currency is one of those that a report orders.
abbrev pub is_listed : List String → String → Bool
is_listed [] code = false
is_listed (c ∷ currencies) code = str_eq c code || is_listed currencies code

other_currencies-is_listed :
    (default : String) (currencies : List String) (code : String)
    → (str_eq default code || is_listed (other_currencies default currencies) code)
      ≡ (str_eq default code || is_listed currencies code)
unfolding other_currencies
other_currencies-is_listed default [] code = refl
other_currencies-is_listed default (c ∷ currencies) code = ground (
  arith,
  eq_iff c default,
  eq_iff default code,
  eq_iff c code,
  other_currencies-is_listed default currencies code,
)

-- Every flow of the map has its key for a currency.
abbrev Keyed : Dict FinanceFlow → Type 0
Keyed flows =
    (code : String) (flow : FinanceFlow) → get flows code ≡ some flow → flow.currency ≡ code

present-missing :
    (flows : Dict FinanceFlow) (c : String) (currencies : List String)
    → get flows c ≡ none
    → present flows (c ∷ currencies) ≡ present flows currencies
unfolding present
present-missing flows c currencies missing = rw (present, missing) refl

-- A currency that has a flow is looked for there first.
find_flow-found :
    (flows : Dict FinanceFlow) (c : String) (currencies : List String) (code : String)
    (flow : FinanceFlow)
    → Keyed flows
    → get flows c ≡ some flow
    → find_flow (present flows (c ∷ currencies)) code
      ≡ (if str_eq c code then some flow else find_flow (present flows currencies) code)
unfolding present find_flow
find_flow-found flows c currencies code flow keyed found =
    rw (find_flow, present, found)
      (ap (λ k. if str_eq k code then some flow else find_flow (present flows currencies) code)
        (keyed c flow found))

none_either_way : (b : Bool) (o : Option FinanceFlow) → o ≡ none → (if b then o else none) ≡ none
none_either_way true o h = h
none_either_way false o h = refl

find_flow-present :
    (flows : Dict FinanceFlow) (currencies : List String) (code : String)
    → Keyed flows
    → find_flow (present flows currencies) code
      ≡ (if is_listed currencies code then get flows code else none)
find_flow-present flows [] code keyed = unfold find_flow present in refl
find_flow-present flows (c ∷ currencies) code keyed =
    let rest = find_flow-present flows currencies code keyed in
    elim (Option-cases (get flows c)) [
      | inr (flow, found) ↦
          find_flow-found flows c currencies code flow keyed found
          ∙ (elim (Bool-cases (str_eq c code)) [
            | inl here ↦
                rw here (sym (sym (ap (λ k. get flows k) ((eq_iff c code).0 here)) ∙ found))
            | inr elsewhere ↦ rw elsewhere rest
          ])
      | inl missing ↦
          ap (λ l. find_flow l code) (present-missing flows c currencies missing)
          ∙ (elim (Bool-cases (str_eq c code)) [
            | inl here ↦
                let gone = sym (ap (λ k. get flows k) ((eq_iff c code).0 here)) ∙ missing in
                rest
                ∙ (none_either_way (is_listed currencies code) (get flows code) gone
                    ∙ rw here (sym gone))
            | inr elsewhere ↦ rw elsewhere rest
          ])
    ]

some-injective : (f g : FinanceFlow) → some f ≡ some g → f ≡ g
some-injective f g h = ap (λ o. elim o [ none ↦ f | some x ↦ x ]) h

by_code-Keyed : (rows : List FinanceCategoryTotal) → Keyed (by_code [] rows)
by_code-Keyed rows code flow found = elim (unknown-Summed [] rows code (unfold get in refl)) [
  | inl (no_row, missing) ↦ absurd (ground (arith, found, missing))
  | inr (a_row, (other, (there, sums))) ↦
      subst (λ f. f.currency ≡ code) (some-injective other flow (sym there ∙ found)) sums.currency
]

-- What a report says of a currency: nothing if it is not configured or no row is of it, and otherwise the
-- flow whose figures are, of 64 bits, the sums over the rows of the currency: income and what was taken
-- out of investments came in, expenses went out, and the rest was invested.
pub flows_of-Summed :
    (default : String) (currencies : List String) (rows : List FinanceCategoryTotal) (code : String)
    → (((is_listed (default ∷ currencies) code && has_row code rows) ≡ false)
        × (find_flow (flows_of default currencies rows) code ≡ none))
      ⊎ (((is_listed (default ∷ currencies) code && has_row code rows) ≡ true)
          × ((flow : FinanceFlow) × ((find_flow (flows_of default currencies rows) code ≡ some flow)
                × Summed zero_flow flow code rows)))
unfolding flows_of ordered_currencies
flows_of-Summed default currencies rows code =
    let listed = other_currencies-is_listed default currencies code in
    let found =
      find_flow-present (by_code [] rows) (ordered_currencies default currencies) code
        (by_code-Keyed rows)
      ∙ ap (λ b. if b then get (by_code [] rows) code else none) listed in
    elim (Bool-cases (is_listed (default ∷ currencies) code)) [
      | inr unlisted ↦ inl (rw unlisted refl, found ∙ rw unlisted refl)
      | inl configured ↦ elim (unknown-Summed [] rows code (unfold get in refl)) [
        | inl (no_row, missing) ↦ inl (rw (configured, no_row) refl, found ∙ rw configured missing)
        | inr (a_row, (flow, (there, sums))) ↦
            inr (rw (configured, a_row) refl, (flow, (found ∙ rw configured there, sums)))
      ]
    ]

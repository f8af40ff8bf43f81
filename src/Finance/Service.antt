-- ===== src/Finance/Service.antt =====
-- The writes of `Service` in internal/extensions/finance/service.go and categories.go, on the rows of the store.
use eggy.Prelude.{
  ℕ, String, Bool, true, false, ◌&&◌, ◌||◌, Option, none, some, List, [], ◌∷◌, map, if◌then◌else◌,
}
use eggy.Prelude.Result.{Result, ok, err}
use eggy.Text.{codes, trim_space}
use eggy.Loop.{same_text}
use eggy.Money.{invalid}
use eggy.Finance.Entries.{
  FinanceEntry, FinanceInput, FinancePatch, Options, clean_category, logged, updated,
}
use eggy.Finance.Ledger.{
  Ledger, Access, acting, create_entry, update_entry, delete_entry, set_category_color,
  rename_category, has_category,
}

abbrev is_missing : Option (List ℕ) → Bool
is_missing none = true
is_missing (some _) = false

-- `patch == (ports.FinancePatch{})`.
unfoldable pub is_empty_patch : FinancePatch → Bool
is_empty_patch p =
    is_missing p.kind
    && is_missing p.date
    && is_missing p.amount
    && is_missing p.currency
    && is_missing p.category
    && is_missing p.merchant
    && is_missing p.note

abbrev pub palette : List (List ℕ)
palette =
    codes "sky"
    ∷ codes "emerald"
    ∷ codes "amber"
    ∷ codes "rose"
    ∷ codes "violet"
    ∷ codes "orange"
    ∷ codes "teal"
    ∷ codes "indigo"
    ∷ codes "lime"
    ∷ codes "slate"
    ∷ []

unfoldable pub has_text : List (List ℕ) → List ℕ → Bool
unfolding same_text
has_text [] text = false
has_text (t ∷ l) text = same_text t text || has_text l text

module _ (o : Options) where
  -- `Log`, with the identifier that `NewID` gives.
  unfoldable pub log_entry :
      Ledger → Access → String → ℕ → ℕ → FinanceInput → Result FinanceEntry × Ledger
  unfolding logged create_entry
  log_entry l a id asked now input = elim (logged o id asked now input) [
    | err e ↦ (err e, l)
    | ok entry ↦
        let (r, l') = create_entry l a entry in (elim r [ err e ↦ err e | ok _ ↦ ok entry ], l')
  ]

  -- `Update`.
  unfoldable pub patch_entry :
      Ledger → Access → String → ℕ → FinancePatch → Result FinanceEntry × Ledger
  unfolding is_empty_patch updated update_entry
  patch_entry l a id now patch =
      if is_empty_patch patch
      then (invalid, l)
      else update_entry l a (o.trim_id id) (updated o now patch)

  -- `Delete`.
  unfoldable pub remove_entry : Ledger → Access → String → Result FinanceEntry × Ledger
  unfolding delete_entry
  remove_entry l a id = delete_entry l a (o.trim_id id)

  -- `SetCategoryColor`.
  unfoldable pub choose_color : Ledger → Access → List ℕ → List ℕ → Result (Unit {0}) × Ledger
  unfolding clean_category has_text set_category_color trim_space
  choose_color l a name color = elim (clean_category o name) [
    | err e ↦ (err e, l)
    | ok cleaned ↦
        let chosen = map o.lower (trim_space color) in
        if has_text palette chosen then set_category_color l a cleaned chosen else (invalid, l)
  ]

  -- `RenameCategory` once the names are clean; its two calls of the store are `a` and `b`.
  unfoldable pub rename_cleaned :
      Ledger → Access → Access → List ℕ → List ℕ → Result (Unit {0}) × Ledger
  unfolding same_text acting has_category rename_category
  rename_cleaned l a b from to = if same_text from to then (invalid, l) else elim (acting a) [
    | err e ↦ (err e, l)
    | ok account ↦
        if has_category l.rows account from then rename_category l b from to else (invalid, l)
  ]

  -- `RenameCategory`.
  unfoldable pub rename_service :
      Ledger → Access → Access → List ℕ → List ℕ → Result (Unit {0}) × Ledger
  unfolding clean_category rename_cleaned
  rename_service l a b from to = elim (clean_category o from) [
    | err e ↦ (err e, l)
    | ok source ↦ elim (clean_category o to) [
      | err e ↦ (err e, l)
      | ok target ↦ rename_cleaned l a b source target
    ]
  ]

-- A call of the service.
pub data FinanceCall : Type 0 where
  logs : Access → String → ℕ → ℕ → FinanceInput → FinanceCall
  patches : Access → String → ℕ → FinancePatch → FinanceCall
  removes : Access → String → FinanceCall
  recolors : Access → List ℕ → List ℕ → FinanceCall
  renames : Access → Access → List ℕ → List ℕ → FinanceCall

unfoldable pub step : Options → Ledger → FinanceCall → Ledger
unfolding log_entry patch_entry remove_entry choose_color rename_service
step o l (logs a id asked now input) = (log_entry o l a id asked now input).1
step o l (patches a id now patch) = (patch_entry o l a id now patch).1
step o l (removes a id) = (remove_entry o l a id).1
step o l (recolors a name color) = (choose_color o l a name color).1
step o l (renames a b from to) = (rename_service o l a b from to).1

unfoldable pub run : Options → Ledger → List FinanceCall → Ledger
unfolding step
run o l [] = l
run o l (op ∷ ops) = run o (step o l op) ops

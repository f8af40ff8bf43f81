-- ===== src/Finance/Books.antt =====
-- The rows of internal/storage/sqlite/ext_finance.go stay valid under the calls of internal/extensions/finance.
use mathlib.Core.Path.{subst}
use eggy.Prelude.{
  ℕ, ◌≤◌, ◌≡◌, inl, inr, refl, sym, ap, String, true, false, ◌&&◌, none, some, List, [], ◌∷◌, arith,
  All, map, length, str_eq, Bool-cases, Option-cases,
}
use eggy.Prelude.Result.{Result-cases}
use eggy.Text.{is_empty, trim_space}
use eggy.Loop.{same_text}
use eggy.Finance.Dates.{is_date}
use eggy.Finance.Entries.{
  FinanceEntry, FinanceInput, FinancePatch, Options, max_category, accepts, clean_category, logged,
  updated,
}
use eggy.Finance.Ledger.{
  Row, Ledger, Access, acting, is_row, has_id, find_row, set_row, drop_row, create_entry,
  write_entry, update_entry, delete_entry, refiled, set_category_color, rename_category,
  has_category,
}
use eggy.Finance.Service.{
  is_empty_patch, palette, has_text, log_entry, patch_entry, remove_entry, choose_color,
  rename_cleaned, rename_service, FinanceCall, logs, patches, removes, recolors, renames, step, run,
}
use eggy.Finance.Valid.{IsValid, clean_category-ok}
use eggy.Finance.Kept.{logged-IsValid, updated-IsValid}

pub choose_color-rows :
    (o : Options) (l : Ledger) (a : Access) (name color : List ℕ)
    → (choose_color o l a name color).1.rows ≡ l.rows
unfolding choose_color set_category_color
choose_color-rows o l a name color = elim (Result-cases (clean_category o name)) [
  | inr (e, refused) ↦ rw (choose_color, refused) refl
  | inl (cleaned, fine) ↦ elim (Bool-cases (has_text palette (map o.lower (trim_space color)))) [
    | inr strange ↦ rw (choose_color, fine, strange) refl
    | inl known ↦ elim (Result-cases (acting a)) [
      | inr (e, refused) ↦ rw (choose_color, fine, known, set_category_color, refused) refl
      | inl (account, by) ↦ rw (choose_color, fine, known, set_category_color, by) refl
    ]
  ]
]

module _ (o : Options) (good : accepts o ≡ true)
    (dated : (now : ℕ) → is_date (o.today now) ≡ true) where
  abbrev pub AllValid : List Row → Type 0
  AllValid rows = All (λ row. IsValid o row.entry) rows

  find_row-IsValid :
      (rows : List Row) (account id : String) (e : FinanceEntry)
      → AllValid rows
      → find_row rows account id ≡ some e
      → IsValid o e
  unfolding find_row
  find_row-IsValid [] account id e h found = absurd (ground (arith, found))
  find_row-IsValid (row ∷ rows) account id e h found = elim (Bool-cases (is_row account id row)) [
    | inl here ↦
        subst (IsValid o) (ap (λ x. elim x [ none ↦ row.entry | some y ↦ y ]) (rw here at found))
          h.0
    | inr other ↦ find_row-IsValid rows account id e h.1 (rw other at found)
  ]

  set_row-AllValid :
      (rows : List Row) (account id : String) (e : FinanceEntry)
      → IsValid o e
      → AllValid rows
      → AllValid (set_row rows account id e)
  unfolding set_row
  set_row-AllValid [] account id e valid h = tt
  set_row-AllValid (row ∷ rows) account id e valid h = elim (Bool-cases (is_row account id row)) [
    | inl here ↦ rw (set_row, here) (valid, set_row-AllValid rows account id e valid h.1)
    | inr other ↦ rw (set_row, other) (h.0, set_row-AllValid rows account id e valid h.1)
  ]

  drop_row-AllValid :
      (rows : List Row) (account id : String) → AllValid rows → AllValid (drop_row rows account id)
  unfolding drop_row
  drop_row-AllValid [] account id h = tt
  drop_row-AllValid (row ∷ rows) account id h = elim (Bool-cases (is_row account id row)) [
    | inl here ↦ rw (drop_row, here) (drop_row-AllValid rows account id h.1)
    | inr other ↦ rw (drop_row, other) (h.0, drop_row-AllValid rows account id h.1)
  ]

  refiled-IsValid :
      (e : FinanceEntry) (to : List ℕ)
      → IsValid o e
      → (length to ≤ max_category) × (is_empty to ≡ false)
      → IsValid o (record e { category = to })
  refiled-IsValid e to h fine = record {
    supported = h.supported;
    read = h.read;
    dated = h.dated;
    named = fine.1;
    category = fine.0;
    merchant = h.merchant;
    note = h.note;
  }

  refiled-AllValid :
      (rows : List Row) (account : String) (from to : List ℕ)
      → (length to ≤ max_category) × (is_empty to ≡ false)
      → AllValid rows
      → AllValid (refiled rows account from to)
  unfolding refiled
  refiled-AllValid [] account from to fine h = tt
  refiled-AllValid (row ∷ rows) account from to fine h =
      let rest = refiled-AllValid rows account from to fine h.1 in
      elim (Bool-cases (str_eq row.account account && same_text row.entry.category from)) [
        | inl moved ↦ rw (refiled, moved) (refiled-IsValid row.entry to h.0 fine, rest)
        | inr kept ↦ rw (refiled, kept) (h.0, rest)
      ]

  create_entry-AllValid :
      (l : Ledger) (a : Access) (e : FinanceEntry)
      → IsValid o e
      → AllValid l.rows
      → AllValid (create_entry l a e).1.rows
  unfolding create_entry
  create_entry-AllValid l a e valid h = elim (Result-cases (acting a)) [
    | inr (bad, refused) ↦ rw (create_entry, refused) h
    | inl (account, by) ↦ elim (Bool-cases (has_id l.rows e.id)) [
      | inl taken ↦ rw (create_entry, by, taken) h
      | inr free ↦ rw (create_entry, by, free) (valid, h)
    ]
  ]

  log_entry-AllValid :
      (l : Ledger) (a : Access) (id : String) (asked now : ℕ) (input : FinanceInput)
      → AllValid l.rows
      → AllValid (log_entry o l a id asked now input).1.rows
  unfolding log_entry
  log_entry-AllValid l a id asked now input h = elim (Result-cases (logged o id asked now input)) [
    | inr (e, refused) ↦ rw (log_entry, refused) h
    | inl (e, made) ↦
        rw (log_entry, made)
          (create_entry-AllValid l a e
            (logged-IsValid o id asked now input e good (dated asked) made) h)
  ]

  restored-IsValid :
      (e : FinanceEntry) (id : String) (created : ℕ)
      → IsValid o e
      → IsValid o (record e { id = id; created_at = created })
  restored-IsValid e id created h = record {
    supported = h.supported;
    read = h.read;
    dated = h.dated;
    named = h.named;
    category = h.category;
    merchant = h.merchant;
    note = h.note;
  }

  patch_entry-AllValid :
      (l : Ledger) (a : Access) (id : String) (now : ℕ) (patch : FinancePatch)
      → AllValid l.rows
      → AllValid (patch_entry o l a id now patch).1.rows
  unfolding patch_entry update_entry write_entry
  patch_entry-AllValid l a id now patch h = elim (Bool-cases (is_empty_patch patch)) [
    | inl empty ↦ rw (patch_entry, empty) h
    | inr some_field ↦ elim (Result-cases (acting a)) [
      | inr (e, refused) ↦ rw (patch_entry, some_field, update_entry, refused) h
      | inl (account, by) ↦ elim (Option-cases (find_row l.rows account (o.trim_id id))) [
        | inl missing ↦ rw (patch_entry, some_field, update_entry, by, missing) h
        | inr (old, found) ↦ elim (Result-cases (updated o now patch old)) [
          | inr (e, refused) ↦ rw (patch_entry, some_field, update_entry, by, found, refused) h
          | inl (changed, made) ↦
              rw (patch_entry, some_field, update_entry, by, found, made)
                (set_row-AllValid l.rows account (o.trim_id id) _
                  (restored-IsValid changed (o.trim_id id) old.created_at (
                    updated-IsValid o now patch old changed good
                      (find_row-IsValid l.rows account (o.trim_id id) old h found) made))
                  h)
        ]
      ]
    ]
  ]

  remove_entry-AllValid :
      (l : Ledger) (a : Access) (id : String)
      → AllValid l.rows
      → AllValid (remove_entry o l a id).1.rows
  unfolding remove_entry delete_entry
  remove_entry-AllValid l a id h = elim (Result-cases (acting a)) [
    | inr (e, refused) ↦ rw (remove_entry, delete_entry, refused) h
    | inl (account, by) ↦ elim (Option-cases (find_row l.rows account (o.trim_id id))) [
      | inl missing ↦ rw (remove_entry, delete_entry, by, missing) h
      | inr (old, found) ↦
          rw (remove_entry, delete_entry, by, found)
            (drop_row-AllValid l.rows account (o.trim_id id) h)
    ]
  ]

  rename_category-AllValid :
      (l : Ledger) (a : Access) (from to : List ℕ)
      → (length to ≤ max_category) × (is_empty to ≡ false)
      → AllValid l.rows
      → AllValid (rename_category l a from to).1.rows
  unfolding rename_category
  rename_category-AllValid l a from to fine h = elim (Result-cases (acting a)) [
    | inr (e, refused) ↦ rw (rename_category, refused) h
    | inl (account, by) ↦ rw (rename_category, by) (refiled-AllValid l.rows account from to fine h)
  ]

  rename_service-AllValid :
      (l : Ledger) (a b : Access) (from to : List ℕ)
      → AllValid l.rows
      → AllValid (rename_service o l a b from to).1.rows
  unfolding rename_service rename_cleaned
  rename_service-AllValid l a b from to h = elim (Result-cases (clean_category o from)) [
    | inr (e, refused) ↦ rw (rename_service, refused) h
    | inl (source, first) ↦ elim (Result-cases (clean_category o to)) [
      | inr (e, refused) ↦ rw (rename_service, first, refused) h
      | inl (target, second) ↦ elim (Bool-cases (same_text source target)) [
        | inl same ↦ rw (rename_service, first, second, rename_cleaned, same) h
        | inr apart ↦ elim (Result-cases (acting a)) [
          | inr (e, refused) ↦ rw (rename_service, first, second, rename_cleaned, apart, refused) h
          | inl (account, by) ↦ elim (Bool-cases (has_category l.rows account source)) [
            | inr unused ↦ rw (rename_service, first, second, rename_cleaned, apart, by, unused) h
            | inl used ↦
                rw (rename_service, first, second, rename_cleaned, apart, by, used)
                  (rename_category-AllValid l b source target (clean_category-ok o to target second)
                    h)
          ]
        ]
      ]
    ]
  ]

  step-AllValid : (l : Ledger) (op : FinanceCall) → AllValid l.rows → AllValid (step o l op).rows
  unfolding step
  step-AllValid l (logs a id asked now input) h = log_entry-AllValid l a id asked now input h
  step-AllValid l (patches a id now patch) h = patch_entry-AllValid l a id now patch h
  step-AllValid l (removes a id) h = remove_entry-AllValid l a id h
  step-AllValid l (recolors a name color) h =
      subst AllValid (sym (choose_color-rows o l a name color)) h
  step-AllValid l (renames a b from to) h = rename_service-AllValid l a b from to h

  -- Whatever is logged, patched, removed, recoloured and renamed, by whatever accounts and in whatever order,
  -- with refused calls and calls that the database fails among them, every entry stored stays valid, when
  -- the currencies passed the checks of `New` and today is a date: its currency is supported, its amount
  -- is one that a text reads as in that currency, its date is one, and its texts keep their limits.
  pub run-AllValid :
      (l : Ledger) (ops : List FinanceCall) → AllValid l.rows → AllValid (run o l ops).rows
  unfolding run
  run-AllValid l [] h = h
  run-AllValid l (op ∷ ops) h = run-AllValid (step o l op) ops (step-AllValid l op h)

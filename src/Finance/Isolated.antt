-- ===== src/Finance/Isolated.antt =====
-- A call of internal/extensions/finance touches nothing of another account.
use eggy.Prelude.{
  ℕ, ◌≡◌, ◌≢◌, inl, inr, refl, ap, ◌∙◌, String, false, List, map, str_eq, eq_iff, Bool-cases,
  Option-cases,
}
use eggy.Prelude.Result.{Result, ok, Result-cases}
use eggy.Text.{trim_space}
use eggy.Loop.{same_text}
use eggy.Finance.Entries.{
  FinanceEntry, FinanceInput, FinancePatch, Options, clean_category, logged, updated,
}
use eggy.Finance.Ledger.{
  Ledger, Access, acting, has_id, find_row, create_entry, write_entry, update_entry, delete_entry,
  without_color, color_of, set_category_color, rename_category, has_category,
}
use eggy.Finance.Service.{
  is_empty_patch, palette, has_text, log_entry, patch_entry, remove_entry, choose_color,
  rename_cleaned, rename_service, FinanceCall, logs, patches, removes, recolors, renames, step,
}
use eggy.Finance.Private.{
  entries_of, colors_of, Same, set_row-other, drop_row-other, refiled-other, without_color-other,
  inherit_color-other,
}

-- The access that a call writes with.
abbrev pub writer : FinanceCall → Access
writer (logs a id asked now input) = a
writer (patches a id now patch) = a
writer (removes a id) = a
writer (recolors a name color) = a
writer (renames a b from to) = b

Same-refl : (account : String) (l : Ledger) → Same account l l
Same-refl account l = record { entries = refl; colors = refl }

module _ (other : String) (l : Ledger) (a : Access) (stranger : acting a ≢ ok other) where
  apart : (account : String) → acting a ≡ ok account → str_eq account other ≡ false
  apart account by = elim (Bool-cases (str_eq account other)) [
    | inr differ ↦ differ
    | inl same ↦ absurd (stranger (by ∙ ap ok ((eq_iff account other).0 same)))
  ]

  create_entry-Same : (e : FinanceEntry) → Same other l (create_entry l a e).1
  unfolding create_entry entries_of
  create_entry-Same e = elim (Result-cases (acting a)) [
    | inr (bad, refused) ↦ rw (create_entry, refused) (Same-refl other l)
    | inl (account, by) ↦ elim (Bool-cases (has_id l.rows e.id)) [
      | inl taken ↦ rw (create_entry, by, taken) (Same-refl other l)
      | inr free ↦
          rw (create_entry, by, free)
            (record { entries = rw (apart account by) refl; colors = refl })
    ]
  ]

  update_entry-Same :
      (id : String) (mutate : FinanceEntry → Result FinanceEntry)
      → Same other l (update_entry l a id mutate).1
  unfolding update_entry write_entry
  update_entry-Same id mutate = elim (Result-cases (acting a)) [
    | inr (bad, refused) ↦ rw (update_entry, refused) (Same-refl other l)
    | inl (account, by) ↦ elim (Option-cases (find_row l.rows account id)) [
      | inl missing ↦ rw (update_entry, by, missing) (Same-refl other l)
      | inr (old, found) ↦ elim (Result-cases (mutate old)) [
        | inr (e, refused) ↦ rw (update_entry, by, found, refused) (Same-refl other l)
        | inl (changed, made) ↦
            rw (update_entry, by, found, made)
              (record {
                entries = set_row-other account other (apart account by) l.rows id _;
                colors = refl;
              })
      ]
    ]
  ]

  delete_entry-Same : (id : String) → Same other l (delete_entry l a id).1
  unfolding delete_entry
  delete_entry-Same id = elim (Result-cases (acting a)) [
    | inr (bad, refused) ↦ rw (delete_entry, refused) (Same-refl other l)
    | inl (account, by) ↦ elim (Option-cases (find_row l.rows account id)) [
      | inl missing ↦ rw (delete_entry, by, missing) (Same-refl other l)
      | inr (old, found) ↦
          rw (delete_entry, by, found)
            (record {
              entries = drop_row-other account other (apart account by) l.rows id;
              colors = refl;
            })
    ]
  ]

  set_category_color-Same :
      (name color : List ℕ) → Same other l (set_category_color l a name color).1
  unfolding set_category_color colors_of
  set_category_color-Same name color = elim (Result-cases (acting a)) [
    | inr (bad, refused) ↦ rw (set_category_color, refused) (Same-refl other l)
    | inl (account, by) ↦
        rw (set_category_color, by)
          (record {
            entries = refl;
            colors =
                rw (apart account by)
                  (without_color-other account other (apart account by) l.colors name);
          })
  ]

  rename_category-Same : (from to : List ℕ) → Same other l (rename_category l a from to).1
  unfolding rename_category
  rename_category-Same from to = elim (Result-cases (acting a)) [
    | inr (bad, refused) ↦ rw (rename_category, refused) (Same-refl other l)
    | inl (account, by) ↦
        let differ = apart account by in
        rw (rename_category, by)
          (record {
            entries = refiled-other account other differ l.rows from to;
            colors =
                inherit_color-other account other differ (without_color l.colors account from) to
                  (color_of l.colors account from)
                ∙ without_color-other account other differ l.colors from;
          })
  ]

module _ (o : Options) (other : String) (l : Ledger) where
  log_entry-Same :
      (a : Access) (id : String) (asked now : ℕ) (input : FinanceInput)
      → acting a ≢ ok other
      → Same other l (log_entry o l a id asked now input).1
  unfolding log_entry
  log_entry-Same a id asked now input stranger = elim (Result-cases (logged o id asked now input)) [
    | inr (e, refused) ↦ rw (log_entry, refused) (Same-refl other l)
    | inl (e, made) ↦ rw (log_entry, made) (create_entry-Same other l a stranger e)
  ]

  patch_entry-Same :
      (a : Access) (id : String) (now : ℕ) (patch : FinancePatch)
      → acting a ≢ ok other
      → Same other l (patch_entry o l a id now patch).1
  unfolding patch_entry
  patch_entry-Same a id now patch stranger = elim (Bool-cases (is_empty_patch patch)) [
    | inl empty ↦ rw (patch_entry, empty) (Same-refl other l)
    | inr some_field ↦
        rw (patch_entry, some_field)
          (update_entry-Same other l a stranger (o.trim_id id) (updated o now patch))
  ]

  choose_color-Same :
      (a : Access) (name color : List ℕ)
      → acting a ≢ ok other
      → Same other l (choose_color o l a name color).1
  unfolding choose_color
  choose_color-Same a name color stranger = elim (Result-cases (clean_category o name)) [
    | inr (e, refused) ↦ rw (choose_color, refused) (Same-refl other l)
    | inl (cleaned, fine) ↦ elim (Bool-cases (has_text palette (map o.lower (trim_space color)))) [
      | inr strange ↦ rw (choose_color, fine, strange) (Same-refl other l)
      | inl known ↦
          rw (choose_color, fine, known) (set_category_color-Same other l a stranger cleaned _)
    ]
  ]

  rename_cleaned-Same :
      (a b : Access) (from to : List ℕ)
      → acting b ≢ ok other
      → Same other l (rename_cleaned o l a b from to).1
  unfolding rename_cleaned
  rename_cleaned-Same a b from to stranger = elim (Bool-cases (same_text from to)) [
    | inl same ↦ rw (rename_cleaned, same) (Same-refl other l)
    | inr differ ↦ elim (Result-cases (acting a)) [
      | inr (e, refused) ↦ rw (rename_cleaned, differ, refused) (Same-refl other l)
      | inl (account, by) ↦ elim (Bool-cases (has_category l.rows account from)) [
        | inr unused ↦ rw (rename_cleaned, differ, by, unused) (Same-refl other l)
        | inl used ↦
            rw (rename_cleaned, differ, by, used) (rename_category-Same other l b stranger from to)
      ]
    ]
  ]

  rename_service-Same :
      (a b : Access) (from to : List ℕ)
      → acting b ≢ ok other
      → Same other l (rename_service o l a b from to).1
  unfolding rename_service
  rename_service-Same a b from to stranger = elim (Result-cases (clean_category o from)) [
    | inr (e, refused) ↦ rw (rename_service, refused) (Same-refl other l)
    | inl (source, first) ↦ elim (Result-cases (clean_category o to)) [
      | inr (e, refused) ↦ rw (rename_service, first, refused) (Same-refl other l)
      | inl (target, second) ↦
          rw (rename_service, first, second) (rename_cleaned-Same a b source target stranger)
    ]
  ]

  -- A call that does not act for an account changes neither its entries nor its colours, nor their order.
  pub step-Same : (op : FinanceCall) → acting (writer op) ≢ ok other → Same other l (step o l op)
  unfolding step remove_entry
  step-Same (logs a id asked now input) stranger = log_entry-Same a id asked now input stranger
  step-Same (patches a id now patch) stranger = patch_entry-Same a id now patch stranger
  step-Same (removes a id) stranger = delete_entry-Same other l a stranger (o.trim_id id)
  step-Same (recolors a name color) stranger = choose_color-Same a name color stranger
  step-Same (renames a b from to) stranger = rename_service-Same a b from to stranger

-- ===== src/Finance/Accounted.antt =====
-- Every amount in the rows of internal/storage/sqlite/ext_finance.go was given to a call, with its currency in force.
use mathlib.Core.Path.{subst}
use eggy.Prelude.{
  ℕ, ◌≡◌, ◌⊎◌, inl, inr, refl, sym, ap, ◌∙◌, String, true, ◌&&◌, none, some, List, [], ◌∷◌, arith,
  All, str_eq, eq_iff, Bool-cases, Option-cases,
}
use eggy.Prelude.Result.{ok, Result-cases}
use eggy.Loop.{same_text}
use eggy.Finance.Dates.{is_date}
use eggy.Finance.Entries.{
  FinanceEntry, FinanceInput, FinancePatch, Options, accepts, clean_category, logged, updated,
}
use eggy.Finance.Ledger.{
  Row, Ledger, Access, acting, is_row, has_id, find_row, set_row, drop_row, create_entry,
  write_entry, update_entry, delete_entry, refiled, rename_category, has_category,
}
use eggy.Finance.Service.{
  is_empty_patch, log_entry, patch_entry, remove_entry, rename_cleaned, rename_service, FinanceCall,
  logs, patches, removes, recolors, renames, step, run,
}
use eggy.Finance.Books.{AllValid, run-AllValid, choose_color-rows}
use eggy.Finance.Restated.{SameMoney, Held, Given, Accounts, updated-Restates, logged-money}

All-Held :
    (l rows : List Row) (x : Row)
    → All (λ (r : Row). Held r rows) l
    → All (λ (r : Row). Held r (x ∷ rows)) l
All-Held [] rows x h = tt
All-Held (r ∷ l) rows x h = (inr h.0, All-Held l rows x h.1)

same_row : (r : Row) → SameMoney r r
same_row r = record { account = refl; id = refl; amount = refl; currency = refl }

rows-Held : (rows : List Row) → All (λ (r : Row). Held r rows) rows
rows-Held [] = tt
rows-Held (r ∷ rows) = (inl (same_row r), All-Held rows rows r (rows-Held rows))

-- Money that stands still when the entry is changed otherwise.
Held-same : (rows : List Row) (r r' : Row) → SameMoney r r' → Held r rows → Held r' rows
Held-same [] r r' same h = h
Held-same (x ∷ rows) r r' same (inl here) = inl (record {
  account = same.account ∙ here.account;
  id = same.id ∙ here.id;
  amount = same.amount ∙ here.amount;
  currency = same.currency ∙ here.currency;
})
Held-same (x ∷ rows) r r' same (inr there) = inr (Held-same rows r r' same there)

is_row-eq :
    (account id : String) (row : Row)
    → is_row account id row ≡ true
    → (row.entry.id ≡ id) × (row.account ≡ account)
unfolding is_row
is_row-eq account id row h = (
  (eq_iff row.entry.id id).0 (ground (arith, h)),
  (eq_iff row.account account).0 (ground (arith, h)),
)

find_row-Held :
    (rows : List Row) (account id : String) (old : FinanceEntry)
    → find_row rows account id ≡ some old
    → (r : Row) × (Held r rows × ((r.account ≡ account) × ((r.entry.id ≡ id) × (r.entry ≡ old))))
unfolding find_row
find_row-Held [] account id old h = absurd (ground (arith, h))
find_row-Held (row ∷ rows) account id old h = elim (Bool-cases (is_row account id row)) [
  | inl here ↦
      let (same_id, same_account) = is_row-eq account id row here in
      let same : row.entry ≡ old =
        ap (λ x. elim x [ none ↦ row.entry | some y ↦ y ]) (rw here at h) in
      (row, (inl (same_row row), (same_account, (same_id, same))))
  | inr other ↦
      let (r, (held, facts)) = find_row-Held rows account id old (rw other at h) in
      (r, (inr held, facts))
]

module _ (P : Row → Type 0) where
  set_row-All :
      (rows : List Row) (account id : String) (e : FinanceEntry)
      → ((row : Row) → row.account ≡ account → P (record row { entry = e }))
      → All P rows
      → All P (set_row rows account id e)
  unfolding set_row
  set_row-All [] account id e new h = tt
  set_row-All (row ∷ rows) account id e new h = elim (Bool-cases (is_row account id row)) [
    | inl here ↦
        rw (set_row, here)
          (new row (is_row-eq account id row here).1, set_row-All rows account id e new h.1)
    | inr other ↦ rw (set_row, other) (h.0, set_row-All rows account id e new h.1)
  ]

  drop_row-All :
      (rows : List Row) (account id : String) → All P rows → All P (drop_row rows account id)
  unfolding drop_row
  drop_row-All [] account id h = tt
  drop_row-All (row ∷ rows) account id h = elim (Bool-cases (is_row account id row)) [
    | inl here ↦ rw (drop_row, here) (drop_row-All rows account id h.1)
    | inr other ↦ rw (drop_row, other) (h.0, drop_row-All rows account id h.1)
  ]

  refiled-All :
      (rows : List Row) (account : String) (from to : List ℕ)
      → ((row : Row) → P row → P (record row { entry = record (row.entry) { category = to } }))
      → All P rows
      → All P (refiled rows account from to)
  unfolding refiled
  refiled-All [] account from to new h = tt
  refiled-All (row ∷ rows) account from to new h =
      let rest = refiled-All rows account from to new h.1 in
      elim (Bool-cases (str_eq row.account account && same_text row.entry.category from)) [
        | inl moved ↦ rw (refiled, moved) (new row h.0, rest)
        | inr kept ↦ rw (refiled, kept) (h.0, rest)
      ]

module _ (o : Options) (l : Ledger) where
  -- The row has its money from before the call, or was given it by the call.
  abbrev Accounted : FinanceCall → Row → Type 0
  Accounted op r = Held r l.rows ⊎ Given o op r

  from_before :
      (op : FinanceCall) (rows : List Row)
      → All (λ (r : Row). Held r l.rows) rows
      → All (Accounted op) rows
  from_before op [] h = tt
  from_before op (r ∷ rows) h = (inl h.0, from_before op rows h.1)

  unchanged : (op : FinanceCall) → All (Accounted op) l.rows
  unchanged op = from_before op l.rows (rows-Held l.rows)

  log_entry-Accounted :
      (a : Access) (id : String) (asked now : ℕ) (input : FinanceInput)
      → All (Accounted (logs a id asked now input)) (log_entry o l a id asked now input).1.rows
  unfolding log_entry create_entry
  log_entry-Accounted a id asked now input =
      let op = logs a id asked now input in
      elim (Result-cases (logged o id asked now input)) [
        | inr (e, refused) ↦ rw (log_entry, refused) (unchanged op)
        | inl (e, made) ↦ elim (Result-cases (acting a)) [
          | inr (bad, refused) ↦ rw (log_entry, made, create_entry, refused) (unchanged op)
          | inl (account, by) ↦ elim (Bool-cases (has_id l.rows e.id)) [
            | inl taken ↦ rw (log_entry, made, create_entry, by, taken) (unchanged op)
            | inr free ↦
                rw (log_entry, made, create_entry, by, free)
                  (inr (by, logged-money o id asked now input e made), unchanged op)
          ]
        ]
      ]

  -- The row that `Update` writes.
  written-Accounted :
      (a : Access) (id account : String) (now : ℕ) (patch : FinancePatch) (old e : FinanceEntry)
      → acting a ≡ ok account
      → find_row l.rows account (o.trim_id id) ≡ some old
      → updated o now patch old ≡ ok e
      → (row : Row) → row.account ≡ account
      → Accounted
          (patches a id now patch)
          (record row { entry = record e { id = o.trim_id id; created_at = old.created_at } })
  written-Accounted a id account now patch old e by found made row own =
      elim (updated-Restates o now patch old e made) [
        | inr (text, (amount, read)) ↦ inr (by ∙ ap ok (sym own), (refl, (text, (amount, read))))
        | inl (minor, currency) ↦
            let (r, (held, (same_account, (same_id, same)))) =
              find_row-Held l.rows account (o.trim_id id) old found in
            inl (
              Held-same l.rows r _
                (record {
                  account = own ∙ sym same_account;
                  id = sym same_id;
                  amount = minor ∙ sym (ap (λ x. x.amount_minor) same);
                  currency = currency ∙ sym (ap (λ x. x.currency) same);
                })
                held)
      ]

  patch_entry-Accounted :
      (a : Access) (id : String) (now : ℕ) (patch : FinancePatch)
      → All (Accounted (patches a id now patch)) (patch_entry o l a id now patch).1.rows
  unfolding patch_entry update_entry write_entry
  patch_entry-Accounted a id now patch =
      let op = patches a id now patch in
      elim (Bool-cases (is_empty_patch patch)) [
        | inl empty ↦ rw (patch_entry, empty) (unchanged op)
        | inr some_field ↦ elim (Result-cases (acting a)) [
          | inr (e, refused) ↦ rw (patch_entry, some_field, update_entry, refused) (unchanged op)
          | inl (account, by) ↦ elim (Option-cases (find_row l.rows account (o.trim_id id))) [
            | inl missing ↦ rw (patch_entry, some_field, update_entry, by, missing) (unchanged op)
            | inr (old, found) ↦ elim (Result-cases (updated o now patch old)) [
              | inr (e, refused) ↦
                  rw (patch_entry, some_field, update_entry, by, found, refused) (unchanged op)
              | inl (changed, made) ↦
                  rw (patch_entry, some_field, update_entry, by, found, made)
                    (set_row-All (Accounted op) l.rows account (o.trim_id id) _
                      (written-Accounted a id account now patch old changed by found made)
                      (unchanged op))
            ]
          ]
        ]
      ]

  remove_entry-Accounted :
      (a : Access) (id : String) → All (Accounted (removes a id)) (remove_entry o l a id).1.rows
  unfolding remove_entry delete_entry
  remove_entry-Accounted a id =
      let op = removes a id in
      elim (Result-cases (acting a)) [
        | inr (e, refused) ↦ rw (remove_entry, delete_entry, refused) (unchanged op)
        | inl (account, by) ↦ elim (Option-cases (find_row l.rows account (o.trim_id id))) [
          | inl missing ↦ rw (remove_entry, delete_entry, by, missing) (unchanged op)
          | inr (old, found) ↦
              rw (remove_entry, delete_entry, by, found)
                (drop_row-All (Accounted op) l.rows account (o.trim_id id) (unchanged op))
        ]
      ]

  refiled-Accounted :
      (a b : Access) (from to : List ℕ) (row : Row) (target : List ℕ)
      → Accounted (renames a b from to) row
      → Accounted
          (renames a b from to)
          (record row { entry = record (row.entry) { category = target } })
  refiled-Accounted a b from to row target (inl held) = inl (
      Held-same l.rows row _ (record { account = refl; id = refl; amount = refl; currency = refl })
        held)
  refiled-Accounted a b from to row target (inr never) = absurd never

  rename_service-Accounted :
      (a b : Access) (from to : List ℕ)
      → All (Accounted (renames a b from to)) (rename_service o l a b from to).1.rows
  unfolding rename_service rename_cleaned rename_category
  rename_service-Accounted a b from to =
      let op = renames a b from to in
      elim (Result-cases (clean_category o from)) [
        | inr (e, refused) ↦ rw (rename_service, refused) (unchanged op)
        | inl (source, first) ↦ elim (Result-cases (clean_category o to)) [
          | inr (e, refused) ↦ rw (rename_service, first, refused) (unchanged op)
          | inl (target, second) ↦ rw (rename_service, first, second) (cleaned source target)
        ]
      ]
    where
      moved :
          (source target : List ℕ)
          → All (Accounted (renames a b from to)) (rename_category l b source target).1.rows
      moved source target = elim (Result-cases (acting b)) [
        | inr (e, refused) ↦ rw (rename_category, refused) (unchanged (renames a b from to))
        | inl (account, by) ↦
            rw (rename_category, by)
              (refiled-All (Accounted (renames a b from to)) l.rows account source target
                (λ row. refiled-Accounted a b from to row target) (unchanged (renames a b from to)))
      ]

      cleaned :
          (source target : List ℕ)
          → All (Accounted (renames a b from to)) (rename_cleaned o l a b source target).1.rows
      cleaned source target = elim (Bool-cases (same_text source target)) [
        | inl same ↦ rw (rename_cleaned, same) (unchanged (renames a b from to))
        | inr apart ↦ elim (Result-cases (acting a)) [
          | inr (e, refused) ↦ rw (rename_cleaned, apart, refused) (unchanged (renames a b from to))
          | inl (account, by) ↦ elim (Bool-cases (has_category l.rows account source)) [
            | inr unused ↦ rw (rename_cleaned, apart, by, unused) (unchanged (renames a b from to))
            | inl used ↦ rw (rename_cleaned, apart, by, used) (moved source target)
          ]
        ]
      ]

  step-Accounted : (op : FinanceCall) → All (Accounted op) (step o l op).rows
  unfolding step
  step-Accounted (logs a id asked now input) = log_entry-Accounted a id asked now input
  step-Accounted (patches a id now patch) = patch_entry-Accounted a id now patch
  step-Accounted (removes a id) = remove_entry-Accounted a id
  step-Accounted (recolors a name color) =
      subst (All (Accounted (recolors a name color))) (sym (choose_color-rows o l a name color))
        (unchanged (recolors a name color))
  step-Accounted (renames a b from to) = rename_service-Accounted a b from to

run-Accounts : (o : Options) (l : Ledger) (ops : List FinanceCall) → Accounts o l ops
run-Accounts o l [] = tt
run-Accounts o l (op ∷ ops) = (step-Accounted o l op, run-Accounts o (step o l op) ops)

-- Whatever is logged, patched, removed, recoloured and renamed, by whatever accounts and in whatever order, with
-- refused calls and calls that the database fails among them: every entry stored stays valid, when the
-- currencies passed the checks of `New` and today is a date, in that its currency is supported, its
-- amount is one that some text reads as in that currency, its date is one, and its texts keep their
-- limits. And at every step each entry has the amount and the currency that it had before the step, or
-- the step was the account's own `Log` of it with that currency and an amount that reads so, or its own
-- `Update` of it with the amount restated; so no amount is carried over to another currency.
pub run-Accounted :
    (o : Options) (good : accepts o ≡ true) (dated : (now : ℕ) → is_date (o.today now) ≡ true)
    (l : Ledger) (ops : List FinanceCall)
    → AllValid o good dated l.rows
    → AllValid o good dated (run o l ops).rows × Accounts o l ops
run-Accounted o good dated l ops valid =
    (run-AllValid o good dated l ops valid, run-Accounts o l ops)

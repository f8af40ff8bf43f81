-- ===== src/Finance/Ledger.antt =====
-- The rows of internal/storage/sqlite/ext_finance.go: what each call does to them. A call that the database fails changes
-- nothing, since every write is one statement or one transaction. Kinds are those of `FinanceKind`, so none
-- is empty.
use eggy.Prelude.{
  ℕ, String, Bool, false, ◌&&◌, ◌||◌, Option, none, some, List, [], ◌∷◌, str_eq, if◌then◌else◌,
}
use eggy.Prelude.Result.{Error, Result, ok, err, ◌>>=◌, other}
use eggy.Text.{is_empty}
use eggy.Context.{Ctx, account_of}
use eggy.Loop.{same_text}
use eggy.Finance.Entries.{FinanceEntry}

pub record Row : Type 0 where
  pub account : String
  pub entry : FinanceEntry

pub record ColorRow : Type 0 where
  pub account : String
  pub name : List ℕ
  pub color : List ℕ

pub record Ledger : Type 0 where
  pub rows : List Row
  pub colors : List ColorRow

-- What a call meets: its context, and the database's error, if it has one.
pub record Access : Type 0 where
  pub ctx : Ctx
  pub fault : Option Error

unfoldable pub acting : Access → Result String
acting a = do account ← account_of a.ctx; elim a.fault [ none ↦ ok account | some e ↦ err e ]

-- `WHERE id = ? AND account_id = ?`.
unfoldable pub is_row : String → String → Row → Bool
is_row account id row = str_eq row.entry.id id && str_eq row.account account

unfoldable pub has_id : List Row → String → Bool
has_id [] id = false
has_id (row ∷ rows) id = str_eq row.entry.id id || has_id rows id

unfoldable pub find_row : List Row → String → String → Option FinanceEntry
unfolding is_row
find_row [] account id = none
find_row (row ∷ rows) account id =
    let rest = find_row rows account id in if is_row account id row then some row.entry else rest

unfoldable pub set_row : List Row → String → String → FinanceEntry → List Row
unfolding is_row
set_row [] account id entry = []
set_row (row ∷ rows) account id entry =
    let rest = set_row rows account id entry in
    if is_row account id row then record row { entry = entry } ∷ rest else row ∷ rest

unfoldable pub drop_row : List Row → String → String → List Row
unfolding is_row
drop_row [] account id = []
drop_row (row ∷ rows) account id =
    let rest = drop_row rows account id in if is_row account id row then rest else row ∷ rest

abbrev pub entry_not_found : Error
entry_not_found = other "finance entry not found"

-- `CreateFinanceEntry`; the identifier is the primary key.
unfoldable pub create_entry : Ledger → Access → FinanceEntry → Result (Unit {0}) × Ledger
unfolding acting has_id
create_entry l a entry = elim (acting a) [
  | err e ↦ (err e, l)
  | ok account ↦
      if has_id l.rows entry.id
      then (err (other "create finance entry"), l)
      else (ok tt, record l { rows = record { account = account; entry = entry } ∷ l.rows })
]

-- The write of `UpdateFinanceEntry`: the identifier and the time of creation are put back.
unfoldable pub write_entry :
    Ledger → String → String → FinanceEntry → Result FinanceEntry → Result FinanceEntry × Ledger
unfolding set_row
write_entry l account id old (err e) = (err e, l)
write_entry l account id old (ok changed) =
    let entry = record changed { id = id; created_at = old.created_at } in
    (ok entry, record l { rows = set_row l.rows account id entry })

-- `UpdateFinanceEntry`.
unfoldable pub update_entry :
    Ledger → Access → String → (FinanceEntry → Result FinanceEntry) → Result FinanceEntry × Ledger
unfolding acting find_row write_entry
update_entry l a id mutate = elim (acting a) [
  | err e ↦ (err e, l)
  | ok account ↦ elim (find_row l.rows account id) [
    | none ↦ (err entry_not_found, l)
    | some old ↦ write_entry l account id old (mutate old)
  ]
]

-- `DeleteFinanceEntry`.
unfoldable pub delete_entry : Ledger → Access → String → Result FinanceEntry × Ledger
unfolding acting find_row drop_row
delete_entry l a id = elim (acting a) [
  | err e ↦ (err e, l)
  | ok account ↦ elim (find_row l.rows account id) [
    | none ↦ (err entry_not_found, l)
    | some old ↦ (ok old, record l { rows = drop_row l.rows account id })
  ]
]

unfoldable pub is_color : String → List ℕ → ColorRow → Bool
unfolding same_text
is_color account name row = str_eq row.account account && same_text row.name name

unfoldable pub color_of : List ColorRow → String → List ℕ → Option (List ℕ)
unfolding is_color
color_of [] account name = none
color_of (row ∷ rows) account name =
    let rest = color_of rows account name in
    if is_color account name row then some row.color else rest

unfoldable pub without_color : List ColorRow → String → List ℕ → List ColorRow
unfolding is_color
without_color [] account name = []
without_color (row ∷ rows) account name =
    let rest = without_color rows account name in
    if is_color account name row then rest else row ∷ rest

-- `SetFinanceCategoryColor`.
unfoldable pub set_category_color : Ledger → Access → List ℕ → List ℕ → Result (Unit {0}) × Ledger
unfolding acting without_color
set_category_color l a name color = elim (acting a) [
  | err e ↦ (err e, l)
  | ok account ↦ (
    ok tt,
    record l {
      colors =
          record { account = account; name = name; color = color }
          ∷ without_color l.colors account name;
    },
  )
]

unfoldable pub refiled : List Row → String → List ℕ → List ℕ → List Row
unfolding same_text
refiled [] account from to = []
refiled (row ∷ rows) account from to =
    let rest = refiled rows account from to in
    if str_eq row.account account && same_text row.entry.category from
    then record row { entry = record (row.entry) { category = to } } ∷ rest
    else row ∷ rest

-- `INSERT OR IGNORE` of the source's colour.
unfoldable pub inherit_color : List ColorRow → String → List ℕ → Option (List ℕ) → List ColorRow
unfolding color_of
inherit_color colors account to none = colors
inherit_color colors account to (some color) =
    if is_empty color then colors else elim (color_of colors account to) [
      | some _ ↦ colors
      | none ↦ record { account = account; name = to; color = color } ∷ colors
    ]

-- `RenameFinanceCategory`.
unfoldable pub rename_category : Ledger → Access → List ℕ → List ℕ → Result (Unit {0}) × Ledger
unfolding acting refiled without_color color_of inherit_color
rename_category l a from to = elim (acting a) [
  | err e ↦ (err e, l)
  | ok account ↦ (
    ok tt,
    record {
      rows = refiled l.rows account from to;
      colors =
          inherit_color (without_color l.colors account from) account to
            (color_of l.colors account from);
    },
  )
]

-- The names of `FinanceCategories`: whether the account has an entry in the category.
unfoldable pub has_category : List Row → String → List ℕ → Bool
unfolding same_text
has_category [] account name = false
has_category (row ∷ rows) account name =
    (str_eq row.account account && same_text row.entry.category name)
    || has_category rows account name

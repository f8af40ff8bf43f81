-- ===== src/Finance/Private.antt =====
-- The accounts of internal/storage/sqlite/ext_finance.go are apart from one another.
use eggy.Prelude.{
  ℕ, ◌≡◌, inl, inr, refl, ap, String, true, false, ◌&&◌, Option, none, some, List, [], ◌∷◌, arith,
  str_eq, eq_iff, if◌then◌else◌, Bool-cases, Option-cases,
}
use eggy.Text.{is_empty}
use eggy.Loop.{same_text}
use eggy.Finance.Entries.{FinanceEntry}
use eggy.Finance.Ledger.{
  Row, ColorRow, Ledger, is_row, set_row, drop_row, is_color, color_of, without_color, refiled,
  inherit_color,
}

-- What an account has: its entries and its colours, in the order of the rows.
unfoldable pub entries_of : String → List Row → List FinanceEntry
entries_of account [] = []
entries_of account (row ∷ rows) =
    let rest = entries_of account rows in
    if str_eq row.account account then row.entry ∷ rest else rest

unfoldable pub colors_of : String → List ColorRow → List ColorRow
colors_of account [] = []
colors_of account (row ∷ rows) =
    let rest = colors_of account rows in if str_eq row.account account then row ∷ rest else rest

pub record Same (account : String) (l m : Ledger) : Type 0 where
  pub entries : entries_of account m.rows ≡ entries_of account l.rows
  pub colors : colors_of account m.colors ≡ colors_of account l.colors

module _ (account other : String) (apart : str_eq account other ≡ false) where
  not_other : (name : String) → str_eq name account ≡ true → str_eq name other ≡ false
  not_other name mine =
      ground (arith, apart, mine, eq_iff name account, eq_iff name other, eq_iff account other)

  pub set_row-other :
      (rows : List Row) (id : String) (e : FinanceEntry)
      → entries_of other (set_row rows account id e) ≡ entries_of other rows
  unfolding set_row entries_of is_row
  set_row-other [] id e = refl
  set_row-other (row ∷ rows) id e = elim (Bool-cases (is_row account id row)) [
    | inr kept ↦
        rw (set_row, kept)
          (ap (λ l. if str_eq row.account other then row.entry ∷ l else l)
            (set_row-other rows id e))
    | inl here ↦
        let strange = not_other row.account (ground (arith, here)) in
        rw (set_row, here, strange) (set_row-other rows id e)
  ]

  pub drop_row-other :
      (rows : List Row) (id : String)
      → entries_of other (drop_row rows account id) ≡ entries_of other rows
  unfolding drop_row entries_of is_row
  drop_row-other [] id = refl
  drop_row-other (row ∷ rows) id = elim (Bool-cases (is_row account id row)) [
    | inr kept ↦
        rw (drop_row, kept)
          (ap (λ l. if str_eq row.account other then row.entry ∷ l else l) (drop_row-other rows id))
    | inl here ↦
        let strange = not_other row.account (ground (arith, here)) in
        rw (drop_row, here, strange) (drop_row-other rows id)
  ]

  pub refiled-other :
      (rows : List Row) (from to : List ℕ)
      → entries_of other (refiled rows account from to) ≡ entries_of other rows
  unfolding refiled entries_of
  refiled-other [] from to = refl
  refiled-other (row ∷ rows) from to =
      elim (Bool-cases (str_eq row.account account && same_text row.entry.category from)) [
        | inr kept ↦
            rw (refiled, kept)
              (ap (λ l. if str_eq row.account other then row.entry ∷ l else l)
                (refiled-other rows from to))
        | inl here ↦
            let strange = not_other row.account (ground (arith, here)) in
            rw (refiled, here, strange) (refiled-other rows from to)
      ]

  pub without_color-other :
      (rows : List ColorRow) (name : List ℕ)
      → colors_of other (without_color rows account name) ≡ colors_of other rows
  unfolding without_color colors_of is_color
  without_color-other [] name = refl
  without_color-other (row ∷ rows) name = elim (Bool-cases (is_color account name row)) [
    | inr kept ↦
        rw (without_color, kept)
          (ap (λ l. if str_eq row.account other then row ∷ l else l)
            (without_color-other rows name))
    | inl here ↦
        let strange = not_other row.account (ground (arith, here)) in
        rw (without_color, here, strange) (without_color-other rows name)
  ]

  pub inherit_color-other :
      (rows : List ColorRow) (to : List ℕ) (color : Option (List ℕ))
      → colors_of other (inherit_color rows account to color) ≡ colors_of other rows
  unfolding inherit_color colors_of
  inherit_color-other rows to none = refl
  inherit_color-other rows to (some color) = elim (Bool-cases (is_empty color)) [
    | inl plain ↦ rw (inherit_color, plain) refl
    | inr chosen ↦ elim (Option-cases (color_of rows account to)) [
      | inr (old, there) ↦ rw (inherit_color, chosen, there) refl
      | inl missing ↦ rw (inherit_color, chosen, missing, apart) refl
    ]
  ]

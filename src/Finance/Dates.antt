-- ===== src/Finance/Dates.antt =====
-- The calendar dates of internal/extensions/finance/service.go: `time.Parse` of the layout `2006-01-02`, and the bounds
-- of a month. Texts are lists of code points.
use eggy.Prelude.{
  ℕ, ◌+◌, ◌-◌, ◌*◌, ◌/◌, ◌%◌, Bool, false, not, ◌&&◌, ◌||◌, List, [], ◌∷◌, ◌++◌, leb, ◌==◌, take,
  if◌then◌else◌,
}
use eggy.Prelude.Result.{Result, ok, ◌>>=◌}
use eggy.Text.{trim_space, is_empty}
use eggy.Loop.{before_text}
use eggy.Money.{invalid, is_digit}

unfoldable pub is_leap : ℕ → Bool
is_leap year = year % 4 == 0 && (not (year % 100 == 0) || year % 400 == 0)

unfoldable pub days_in : ℕ → ℕ → ℕ
unfolding is_leap
days_in year month =
    if month == 2
    then if is_leap year then 29 else 28
    else if month == 4 || month == 6 || month == 9 || month == 11
    then 30
    else 31

abbrev pub two : ℕ → ℕ → ℕ
two a b = (a - 48) * 10 + (b - 48)

-- A year of four digits and a month of two, between 1 and 12.
unfoldable pub is_month_text : List ℕ → Bool
unfolding is_digit
is_month_text (a ∷ b ∷ c ∷ d ∷ dash ∷ m ∷ n ∷ []) =
    is_digit a
    && is_digit b
    && is_digit c
    && is_digit d
    && dash == 45
    && is_digit m
    && is_digit n
    && leb 1 (two m n)
    && leb (two m n) 12
is_month_text _ = false

unfoldable pub last_day : List ℕ → ℕ
unfolding days_in
last_day (a ∷ b ∷ c ∷ d ∷ dash ∷ m ∷ n ∷ []) = days_in (two a b * 100 + two c d) (two m n)
last_day _ = 0

-- `time.Parse` has no error.
unfoldable pub is_date : List ℕ → Bool
unfolding is_digit is_month_text last_day
is_date (a ∷ b ∷ c ∷ d ∷ dash ∷ m ∷ n ∷ hyphen ∷ x ∷ y ∷ []) =
    let month = a ∷ b ∷ c ∷ d ∷ dash ∷ m ∷ n ∷ [] in
    is_month_text month
    && hyphen == 45
    && is_digit x
    && is_digit y
    && leb 1 (two x y)
    && leb (two x y) (last_day month)
is_date _ = false

-- `parseDate`.
unfoldable pub parse_date : List ℕ → Result (List ℕ)
unfolding is_date trim_space
parse_date text = if is_date (trim_space text) then ok (trim_space text) else invalid

abbrev pub day_text : ℕ → List ℕ
day_text day = 45 ∷ (48 + day / 10) ∷ (48 + day % 10) ∷ []

-- `MonthBounds`.
unfoldable pub month_bounds : List ℕ → Result (List ℕ × List ℕ)
unfolding is_month_text last_day trim_space
month_bounds text =
    let month = trim_space text in
    if is_month_text month
    then ok (month ++ day_text 1, month ++ day_text (last_day month))
    else invalid

-- One end of a range: blank leaves it open.
unfoldable pub parse_end : List ℕ → Result (List ℕ)
unfolding parse_date
parse_end text = if is_empty text then ok [] else parse_date text

-- `Range`, where `today` is a date.
unfoldable pub range : List ℕ → List ℕ → List ℕ → Result (List ℕ × List ℕ)
unfolding month_bounds parse_end before_text trim_space
range today from to =
    let from = trim_space from in
    let to = trim_space to in
    if is_empty from && is_empty to then month_bounds (take 7 today) else do
      first ← parse_end from
      last ← parse_end to
      (if not (is_empty first) && not (is_empty last) && not (before_text first last)
          then invalid
          else ok (first, last))

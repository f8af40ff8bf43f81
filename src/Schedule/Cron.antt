-- ===== src/Schedule/Cron.antt =====
-- internal/schedule/local/cron.go. Expressions are lists of code points, and times are seconds. The
-- calendar of the deployment's zone (Go's `time`) is an argument.
use eggy.Prelude.{
  ℕ, zero, suc, ◌+◌, ◌-◌, ◌*◌, ◌/◌, ◌^◌, Bool, true, false, not, ◌&&◌, ◌||◌, List, [], ◌∷◌, ◌++◌,
  Option, none, some, leb, ltb, ◌==◌, if◌then◌else◌,
}
use eggy.Prelude.Result.{Result, ok, err, other, ◌>>=◌}
use eggy.Text.{fields, is_empty}

pub record CronField : Type 0 where
  pub allowed : List ℕ
  pub wildcard : Bool

pub record Cron : Type 0 where
  pub minute : CronField
  pub hour : CronField
  pub day : CronField
  pub month : CronField
  pub weekday : CronField

-- `strings.Split` at one code point.
first_grown : ℕ → List (List ℕ) → List (List ℕ)
first_grown c [] = (c ∷ []) ∷ []
first_grown c (word ∷ words) = (c ∷ word) ∷ words

unfoldable pub split : ℕ → List ℕ → List (List ℕ)
unfolding first_grown
split separator [] = [] ∷ []
split separator (c ∷ s) =
    let rest = split separator s in if c == separator then [] ∷ rest else first_grown c rest

-- `strconv.Atoi`. Where the code calls it a negative number is refused as an unreadable one is.
digits_value : ℕ → List ℕ → Option ℕ
digits_value n [] = some n
digits_value n (c ∷ s) =
    let rest = digits_value (n * 10 + (c - 48)) s in if leb 48 c && leb c 57 then rest else none

unsigned : List ℕ → List ℕ
unsigned [] = []
unsigned (c ∷ s) = if c == 43 then s else c ∷ s

unfoldable pub atoi : List ℕ → Option ℕ
unfolding digits_value unsigned
atoi s = elim (digits_value 0 (unsigned s)) [
  | none ↦ none
  | some n ↦ if is_empty (unsigned s) || leb (2 ^ 63) n then none else some n
]

-- The step of a segment, after its base.
unfoldable pub step_of : List (List ℕ) → Result (List ℕ × ℕ)
unfolding atoi
step_of (base ∷ []) = ok (base, 1)
step_of (base ∷ step ∷ []) = elim (atoi step) [
  | none ↦ err (other "invalid step")
  | some n ↦ if n == 0 then err (other "invalid step") else ok (base, n)
]
step_of _ = err (other "invalid step")

is_star : List ℕ → Bool
is_star (c ∷ []) = c == 42
is_star _ = false

unfoldable pub range_of : ℕ → ℕ → List ℕ → List (List ℕ) → Result (ℕ × ℕ)
unfolding atoi is_star
range_of minimum maximum base (v ∷ []) =
    if is_star base
    then ok (minimum, maximum)
    else elim (atoi v) [ none ↦ err (other "invalid value") | some n ↦ ok (n, n) ]
range_of minimum maximum base (a ∷ b ∷ []) = elim (atoi a) [
  | none ↦ err (other "invalid range")
  | some start ↦ elim (atoi b) [ none ↦ err (other "invalid range") | some end ↦ ok (start, end) ]
]
range_of _ _ _ _ = err (other "invalid range")

-- The loop over the candidates of a segment; each round adds one at least.
unfoldable pub selected : ℕ → Bool → ℕ → ℕ → ℕ → List ℕ
selected zero weekday end step candidate = []
selected (suc fuel) weekday end step candidate =
    let rest = selected fuel weekday end step (candidate + step) in
    if ltb end candidate then [] else if weekday && candidate == 7 then 0 ∷ [] else candidate ∷ rest

unfoldable pub parse_segment : ℕ → ℕ → Bool → List ℕ → Result (List ℕ)
unfolding split step_of range_of selected
parse_segment minimum maximum weekday segment = do
  (base, step) ← step_of (split 47 segment)
  (start, end) ← range_of minimum maximum base (split 45 base)
  if ltb start minimum || ltb maximum end || ltb end start
      then err (other "value outside allowed range")
      else ok (selected (suc end - start) weekday end step start)

unfoldable pub parse_segments : ℕ → ℕ → Bool → List (List ℕ) → Result (List ℕ)
unfolding parse_segment
parse_segments minimum maximum weekday [] = ok []
parse_segments minimum maximum weekday (s ∷ segments) = do
  chosen ← parse_segment minimum maximum weekday s
  rest ← parse_segments minimum maximum weekday segments
  ok (chosen ++ rest)

-- `parseCronField`.
unfoldable pub parse_cron_field : List ℕ → ℕ → ℕ → Bool → Result CronField
unfolding parse_segments split is_star
parse_cron_field value minimum maximum weekday = do
  allowed ← parse_segments minimum maximum weekday (split 44 value)
  if is_empty allowed
      then err (other "field selects no values")
      else ok (record { allowed = allowed; wildcard = is_star value })

-- `ParseCron`.
unfoldable pub parse_words : List (List ℕ) → Result Cron
unfolding parse_cron_field
parse_words (m ∷ h ∷ d ∷ mo ∷ w ∷ []) = do
  minute ← parse_cron_field m 0 59 false
  hour ← parse_cron_field h 0 23 false
  day ← parse_cron_field d 1 31 false
  month ← parse_cron_field mo 1 12 false
  weekday ← parse_cron_field w 0 7 true
  ok (record { minute = minute; hour = hour; day = day; month = month; weekday = weekday })
parse_words _ = err (other "cron expression must contain five fields")

unfoldable pub parse_cron : List ℕ → Result Cron
unfolding parse_words fields
parse_cron expression = parse_words (fields expression)

-- Go's `time` in the deployment's zone: the parts of a time, and the time five years later.
pub record Calendar : Type 0 where
  pub minute : ℕ → ℕ
  pub hour : ℕ → ℕ
  pub day : ℕ → ℕ
  pub month : ℕ → ℕ
  pub weekday : ℕ → ℕ
  pub five_years : ℕ → ℕ

unfoldable pub allows : List ℕ → ℕ → Bool
allows [] n = false
allows (m ∷ ms) n = m == n || allows ms n

unfoldable pub matches : Cron → Calendar → ℕ → Bool
unfolding allows
matches cron c value =
    let day = allows cron.day.allowed (c.day value) in
    let weekday = allows cron.weekday.allowed (c.weekday value) in
    if not (allows cron.minute.allowed (c.minute value))
      || not (allows cron.hour.allowed (c.hour value))
      || not (allows cron.month.allowed (c.month value))
    then false
    else if cron.day.wildcard && cron.weekday.wildcard
    then true
    else if cron.day.wildcard
    then weekday
    else if cron.weekday.wildcard
    then day
    else day || weekday

-- The search of `Next`, a minute at a time up to the limit.
unfoldable pub next_from : Cron → Calendar → ℕ → ℕ → ℕ → Result ℕ
next_from cron c limit zero candidate = err (other "no cron occurrence found within five years")
next_from cron c limit (suc fuel) candidate =
    let rest = next_from cron c limit fuel (candidate + 60) in
    if leb limit candidate
    then err (other "no cron occurrence found within five years")
    else if matches cron c candidate
    then ok candidate
    else rest

abbrev pub next_minute : ℕ → ℕ
next_minute after = (after / 60 + 1) * 60

-- `Cron.Next`: the number of minutes to the limit is fuel enough.
unfoldable pub next : Cron → Calendar → ℕ → Result ℕ
unfolding next_from
next cron c after =
    let candidate = next_minute after in
    let limit = c.five_years candidate in
    next_from cron c limit ((limit - candidate) / 60 + 1) candidate

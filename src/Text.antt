-- ===== src/Text.antt =====
-- The functions of Go's `strings` package that the code calls, over lists of code points.
pub mod Trimmed
use Prim.Native.Char.{code}
use mathlib.Core.List.{reverse}
use eggy.Prelude.{
  ℕ, zero, suc, ◌+◌, ◌/◌, ◌%◌, String, Bool, true, false, ◌&&◌, ◌||◌, List, [], ◌∷◌, ◌++◌, Option,
  none, some, leb, ltb, ◌==◌, if◌then◌else◌,
}

-- `unicode.IsSpace`.
unfoldable pub is_space : ℕ → Bool
is_space c =
    (leb 9 c && leb c 13)
    || c == 32
    || c == 0x85
    || c == 0xa0
    || c == 0x1680
    || (leb 0x2000 c && leb c 0x200a)
    || c == 0x2028
    || c == 0x2029
    || c == 0x202f
    || c == 0x205f
    || c == 0x3000

-- `strings.TrimSpace(s) == ""`, of a native text.
unfoldable pub is_blank : String → Bool
unfolding is_space
is_blank String.[] = true
is_blank (String.◌∷◌ c s) = is_space (code c) && is_blank s

unfoldable pub trim_left : List ℕ → List ℕ
unfolding is_space
trim_left [] = []
trim_left (c ∷ s) = let rest = trim_left s in if is_space c then rest else c ∷ s

-- `strings.TrimSpace`.
unfoldable pub trim_space : List ℕ → List ℕ
unfolding trim_left
trim_space s = reverse (trim_left (reverse (trim_left s)))

abbrev pub is_empty {ℓ} : {A : Type ℓ} → List A → Bool
is_empty [] = true
is_empty (_ ∷ _) = false

-- The code points of a literal.
abbrev pub codes : String → List ℕ
codes String.[] = []
codes (String.◌∷◌ c s) = code c ∷ codes s

-- `strings.Fields` with the word that is being read, and `strings.Fields` itself.
fields_from : List ℕ → List ℕ → List (List ℕ)
unfolding is_space
fields_from [] [] = []
fields_from (c ∷ word) [] = (c ∷ word) ∷ []
fields_from [] (c ∷ s) = fields_from (if is_space c then [] else c ∷ []) s
fields_from (d ∷ word) (c ∷ s) =
    let rest = fields_from (if is_space c then [] else (d ∷ word) ++ c ∷ []) s in
    if is_space c then (d ∷ word) ∷ rest else rest

unfoldable pub fields : List ℕ → List (List ℕ)
unfolding fields_from
fields s = fields_from [] s

-- `strings.Join`.
unfoldable pub join : List ℕ → List (List ℕ) → List ℕ
join separator [] = []
join separator (s ∷ []) = s
join separator (s ∷ t ∷ rest) = s ++ (separator ++ join separator (t ∷ rest))

-- `strings.Cut` at a newline: what follows it, if there is one.
unfoldable pub after_line : List ℕ → Option (List ℕ)
after_line [] = none
after_line (c ∷ s) = let rest = after_line s in if c == 10 then some s else rest

-- `strconv.Itoa` of a number that is not negative; a number below `2 ^ 64` has at most 20 digits.
unfoldable pub digits_of : ℕ → ℕ → List ℕ
digits_of zero n = []
digits_of (suc fuel) n =
    let rest = digits_of fuel (n / 10) in
    if ltb n 10 then (48 + n) ∷ [] else rest ++ (48 + n % 10) ∷ []

unfoldable pub decimal : ℕ → List ℕ
unfolding digits_of
decimal n = digits_of 20 n

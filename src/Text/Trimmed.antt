-- ===== src/Text/Trimmed.antt =====
-- What `strings.TrimSpace` leaves of a text.
use mathlib.Core.List.{reverse, reverse-cons}
use eggy.Prelude.{ℕ, ◌≡◌, refl, sym, ap, ◌∙◌, Bool, false, not, ◌||◌, List, [], ◌∷◌, ◌++◌, arith}
use eggy.Text.{is_space, trim_left, trim_space, is_empty}

-- Whether a text has a character that is not a space.
unfoldable pub is_written : List ℕ → Bool
is_written [] = false
is_written (c ∷ s) = not (is_space c) || is_written s

trim_left-is_written : (s : List ℕ) → is_written (trim_left s) ≡ is_written s
unfolding trim_left is_written
trim_left-is_written [] = refl
trim_left-is_written (c ∷ s) = ground (arith, trim_left-is_written s)

trim_left-is_empty : (s : List ℕ) → is_empty (trim_left s) ≡ not (is_written s)
unfolding trim_left is_written
trim_left-is_empty [] = refl
trim_left-is_empty (c ∷ s) = ground (arith, trim_left-is_empty s)

append-is_written : (s t : List ℕ) → is_written (s ++ t) ≡ (is_written s || is_written t)
unfolding is_written
append-is_written [] t = refl
append-is_written (c ∷ s) t = ground (arith, append-is_written s t)

reverse-is_written : (s : List ℕ) → is_written (reverse s) ≡ is_written s
unfolding is_written
reverse-is_written [] = refl
reverse-is_written (c ∷ s) =
    ap is_written (reverse-cons c s)
    ∙ (append-is_written (reverse s) (c ∷ []) ∙ ground (arith, reverse-is_written s))

reverse-is_empty : (s : List ℕ) → is_empty (reverse s) ≡ is_empty s
reverse-is_empty [] = refl
reverse-is_empty (c ∷ s) = ap is_empty (reverse-cons c s) ∙ snoc-is_empty (reverse s) c
  where
    snoc-is_empty : (l : List ℕ) (d : ℕ) → is_empty (l ++ d ∷ []) ≡ false
    snoc-is_empty [] d = refl
    snoc-is_empty (b ∷ l) d = refl

trim_space-is_empty : (s : List ℕ) → is_empty (trim_space s) ≡ not (is_written s)
unfolding trim_space
trim_space-is_empty s =
    reverse-is_empty (trim_left (reverse (trim_left s)))
    ∙ (trim_left-is_empty (reverse (trim_left s))
        ∙ ap not (reverse-is_written (trim_left s) ∙ trim_left-is_written s))

trim_space-is_written : (s : List ℕ) → is_written (trim_space s) ≡ is_written s
unfolding trim_space
trim_space-is_written s =
    reverse-is_written (trim_left (reverse (trim_left s)))
    ∙ (trim_left-is_written (reverse (trim_left s))
        ∙ (reverse-is_written (trim_left s) ∙ trim_left-is_written s))

-- What is left of a text after trimming is blank only if the text is.
pub trim_space-is_blank :
    (s : List ℕ) → is_empty (trim_space (trim_space s)) ≡ is_empty (trim_space s)
trim_space-is_blank s =
    trim_space-is_empty (trim_space s)
    ∙ (ap not (trim_space-is_written s) ∙ sym (trim_space-is_empty s))

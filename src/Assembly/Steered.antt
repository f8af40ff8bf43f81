-- ===== src/Assembly/Steered.antt =====
-- `mergeSteered` of internal/core/turns/run.go drops nothing of what the owner said.
use mathlib.Core.List.{reverse, reverse-append, reverse-reverse, append_assoc, append-nil}
use eggy.Prelude.{
  ℕ, ◌≡◌, inl, inr, refl, sym, ap, ◌∙◌, true, false, List, [], ◌∷◌, ◌++◌, arith, Bool-cases,
}
use eggy.Text.{is_space, trim_left, trim_space, is_empty, join}
use eggy.Message.{Message}
use eggy.Assembly.Parts.{steered_texts, steered_parts, merge_steered}

-- A part of a list in the place where it stands.
pub record Within {A : Type 0} (part whole : List A) : Type 0 where
  pub before : List A
  pub after : List A
  pub split : whole ≡ before ++ (part ++ after)

Within-first : {A : Type 0} (s t : List A) → Within s (s ++ t)
Within-first s t = record { before = []; after = t; split = refl }

Within-after : {A : Type 0} (s t u : List A) → Within s t → Within s (u ++ t)
Within-after s t u w = record {
  before = u ++ w.before;
  after = w.after;
  split = ap (λ l. u ++ l) w.split ∙ sym (append_assoc u w.before (s ++ w.after));
}

Within-nil : {A : Type 0} (t : List A) → Within [] t
Within-nil t = record { before = []; after = t; split = refl }

trim_left-end : (s : List ℕ) → (front : List ℕ) × (s ≡ front ++ trim_left s)
unfolding trim_left
trim_left-end [] = ([], refl)
trim_left-end (c ∷ s) = elim (Bool-cases (is_space c)) [
  | inr other ↦ ([], rw other refl)
  | inl space ↦ let (front, same) = trim_left-end s in (c ∷ front, rw space (ap (λ l. c ∷ l) same))
]

-- What `strings.TrimSpace` leaves stands in the text.
trim_space-Within : (s : List ℕ) → Within (trim_space s) s
unfolding trim_space
trim_space-Within s =
    let (front, first) = trim_left-end s in
    let (back, last) = trim_left-end (reverse (trim_left s)) in
    record {
      before = front;
      after = reverse back;
      split =
          first
          ∙ ap (λ l. front ++ l)
              (sym (reverse-reverse (trim_left s))
                ∙ (ap reverse last ∙ reverse-append back (trim_left (reverse (trim_left s)))));
    }

join-Within : (separator s : List ℕ) (l m : List (List ℕ)) → Within s (join separator (l ++ s ∷ m))
unfolding join
join-Within separator s [] [] = record { before = []; after = []; split = sym (append-nil s) }
join-Within separator s [] (t ∷ m) = Within-first s (separator ++ join separator (t ∷ m))
join-Within separator s (t ∷ []) m =
    Within-after s (separator ++ join separator (s ∷ m)) t
      (Within-after s (join separator (s ∷ m)) separator (join-Within separator s [] m))
join-Within separator s (t ∷ u ∷ l) m =
    Within-after s (separator ++ join separator (u ∷ (l ++ s ∷ m))) t (
      Within-after s (join separator (u ∷ (l ++ s ∷ m))) separator
        (join-Within separator s (u ∷ l) m))

steered_texts-append :
    (l m : List Message) → steered_texts (l ++ m) ≡ steered_texts l ++ steered_texts m
unfolding steered_texts
steered_texts-append [] m = refl
steered_texts-append (x ∷ l) m = elim (Bool-cases (is_empty (trim_space x.content))) [
  | inl blank ↦ rw (steered_texts, blank) (steered_texts-append l m)
  | inr written ↦
      rw (steered_texts, written) (ap (λ t. trim_space x.content ∷ t) (steered_texts-append l m))
]

steered_texts-cons :
    (x : Message) (m : List Message)
    → is_empty (trim_space x.content) ≡ false
    → steered_texts (x ∷ m) ≡ trim_space x.content ∷ steered_texts m
unfolding steered_texts
steered_texts-cons x m written = rw written refl

empty-eq : (s : List ℕ) → is_empty s ≡ true → s ≡ []
empty-eq [] h = refl
empty-eq (c ∷ s) h = absurd (ground (arith, h))

texts-Within :
    (l m : List Message) (x : Message)
    → Within (trim_space x.content) (join (10 ∷ []) (steered_texts (l ++ x ∷ m)))
texts-Within l m x = elim (Bool-cases (is_empty (trim_space x.content))) [
  | inl blank ↦ rw (empty-eq (trim_space x.content) blank) (Within-nil _)
  | inr written ↦
      rw (steered_texts-append l (x ∷ m), steered_texts-cons x m written)
        (join-Within (10 ∷ []) (trim_space x.content) (steered_texts l) (steered_texts m))
]

parts-Within : (l m : List Message) (x : Message) → Within x.parts (steered_parts (l ++ x ∷ m))
unfolding steered_parts
parts-Within [] m x = Within-first x.parts (steered_parts m)
parts-Within (y ∷ l) m x =
    Within-after x.parts (steered_parts (l ++ x ∷ m)) y.parts (parts-Within l m x)

-- In the message that `mergeSteered` makes of a list of messages, every one of them is there: its
-- content without the spaces around it stands in the content, and its parts in the parts.
pub merge_steered-Within :
    (l m : List Message) (x : Message)
    → Within (trim_space x.content) (merge_steered (l ++ x ∷ m)).content
      × Within x.parts (merge_steered (l ++ x ∷ m)).parts
unfolding merge_steered
merge_steered-Within [] [] x = (
  trim_space-Within x.content,
  record { before = []; after = []; split = sym (append-nil x.parts) },
)
merge_steered-Within [] (y ∷ m) x = (texts-Within [] (y ∷ m) x, parts-Within [] (y ∷ m) x)
merge_steered-Within (y ∷ []) m x = (texts-Within (y ∷ []) m x, parts-Within (y ∷ []) m x)
merge_steered-Within (y ∷ z ∷ l) m x = (texts-Within (y ∷ z ∷ l) m x, parts-Within (y ∷ z ∷ l) m x)

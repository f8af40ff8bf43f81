-- ===== src/Window/Keeps.antt =====
-- What folding keeps of the window of internal/core/agent/compaction.go: the system prompt and the policy, a
-- suffix of the live tail that begins where a step does, and the owner's last messages.
use mathlib.Core.List.{append_assoc, append-nil}
use mathlib.Core.Path.{subst}
use eggy.Prelude.{
  ℕ, ◌<◌, ◌≡◌, refl, sym, ap, ◌∙◌, false, List, [], ◌∷◌, ◌++◌, if◌then◌else◌, length, arith,
  Bool-cases, inl, inr, drop, drop-length_append, length-append, ◌⊎◌, Option, String,
}
use eggy.Message.{Message, is_user}
use eggy.Window.Steps.{TurnStep, split_steps, messages_of}
use eggy.Window.Split.{NonNil, Begins, Begins-append, WellSplit, split_steps-WellSplit}
use eggy.Window.State.{ContextWindow}
use eggy.Window.Fit.{fold_message, fold_messages, fold_oldest, is_single}

-- The owner's messages, in order.
unfoldable pub owned : List Message → List Message
owned [] = []
owned (m ∷ ms) = if is_user m.role then m ∷ owned ms else owned ms

pub owned-append : (xs ys : List Message) → owned (xs ++ ys) ≡ owned xs ++ owned ys
unfolding owned
owned-append [] ys = refl
owned-append (m ∷ xs) ys = elim (Bool-cases (is_user m.role)) [
  | inl mine ↦ rw (mine, owned-append xs ys) refl
  | inr other ↦ rw (other, owned-append xs ys) refl
]

abbrev pub Suffix : List Message → List Message → Type 0
Suffix whole rest = (cut : List Message) × (whole ≡ cut ++ rest)

pub Suffix-refl : (l : List Message) → Suffix l l
Suffix-refl l = ([], refl)

Suffix-trans : (a b c : List Message) → Suffix a b → Suffix b c → Suffix a c
Suffix-trans a b c (p, ab) (q, bc) = (p ++ q, ab ∙ (ap (λ l. p ++ l) bc ∙ sym (append_assoc p q c)))

-- What a window may become by folding.
pub record Folded (w w' : ContextWindow) : Type 0 where
  pub same_policy : w'.policy ≡ w.policy
  pub same_preserved : w'.preserved ≡ w.preserved
  pub same_chars : w'.preserved_chars ≡ w.preserved_chars
  -- the live tail is a suffix of what it was
  pub suffix : Suffix w.tail w'.tail
  -- and when it was cut it begins with an assistant's message, so no tool result is orphaned
  pub seam : Begins w'.tail ⊎ (w'.tail ≡ w.tail)
  -- the owner's messages that are still shown are the last ones, in order
  pub instructions : Suffix (w.steering ++ owned w.tail) (w'.steering ++ owned w'.tail)

pub Folded-refl : (w : ContextWindow) → Folded w w
Folded-refl w = record {
  same_policy = refl;
  same_preserved = refl;
  same_chars = refl;
  suffix = Suffix-refl w.tail;
  seam = inr refl;
  instructions = Suffix-refl (w.steering ++ owned w.tail);
}

pub Folded-trans : (a b c : ContextWindow) → Folded a b → Folded b c → Folded a c
Folded-trans a b c ab bc = record {
  same_policy = bc.same_policy ∙ ab.same_policy;
  same_preserved = bc.same_preserved ∙ ab.same_preserved;
  same_chars = bc.same_chars ∙ ab.same_chars;
  suffix = Suffix-trans a.tail b.tail c.tail ab.suffix bc.suffix;
  seam = elim bc.seam [
    | inl begins ↦ inl begins
    | inr same ↦ elim ab.seam [
      | inl begins ↦ inl (subst Begins (sym same) begins)
      | inr before ↦ inr (same ∙ before)
    ]
  ];
  instructions =
      Suffix-trans (a.steering ++ owned a.tail) (b.steering ++ owned b.tail)
        (c.steering ++ owned c.tail) ab.instructions bc.instructions;
}

module _ (pdf_pages : List ℕ → ℕ) (path_of : List ℕ → Option String) where
  record Moved (w w' : ContextWindow) (ms : List Message) : Type 0 where
    same_policy : w'.policy ≡ w.policy
    same_preserved : w'.preserved ≡ w.preserved
    same_chars : w'.preserved_chars ≡ w.preserved_chars
    grown : w'.steering ≡ w.steering ++ owned ms

  fold_message-Moved :
      (w : ContextWindow) (m : Message) → Moved w (fold_message pdf_pages path_of w m) (m ∷ [])
  unfolding fold_message owned
  fold_message-Moved w m = elim (Bool-cases (is_user m.role)) [
    | inl mine ↦ rw mine (record {
      same_policy = refl;
      same_preserved = refl;
      same_chars = refl;
      grown = rw mine refl;
    })
    | inr other ↦ rw other (record {
      same_policy = refl;
      same_preserved = refl;
      same_chars = refl;
      grown = rw (other, append-nil) refl;
    })
  ]

  fold_messages-Moved :
      (w : ContextWindow) (ms : List Message) → Moved w (fold_messages pdf_pages path_of w ms) ms
  unfolding fold_messages
  fold_messages-Moved w [] =
      unfold owned in
      record {
        same_policy = refl;
        same_preserved = refl;
        same_chars = refl;
        grown = rw append-nil refl;
      }
  fold_messages-Moved w (m ∷ ms) =
      let w' = fold_message pdf_pages path_of w m in
      let one = fold_message-Moved w m in
      let more = fold_messages-Moved w' ms in
      record {
        same_policy = more.same_policy ∙ one.same_policy;
        same_preserved = more.same_preserved ∙ one.same_preserved;
        same_chars = more.same_chars ∙ one.same_chars;
        grown =
            more.grown
            ∙ (ap (λ l. l ++ owned ms) one.grown
                ∙ (append_assoc w.steering (owned (m ∷ [])) (owned ms)
                    ∙ ap (λ l. w.steering ++ l) (sym (owned-append (m ∷ []) ms))));
      }

  folded : ContextWindow → List Message → ContextWindow
  folded w ms = record (fold_messages pdf_pages path_of w ms) { tail = drop (length ms) w.tail }

  folded-Folded :
      (w : ContextWindow) (ms rest : List Message)
      → ms ++ rest ≡ w.tail
      → Begins rest
      → Folded w (folded w ms) × ((folded w ms).tail ≡ rest)
  unfolding folded
  folded-Folded w ms rest cut begins =
      let moved = fold_messages-Moved w ms in
      let left : drop (length ms) w.tail ≡ rest =
        sym (ap (λ l. drop (length ms) l) cut) ∙ drop-length_append ms rest in
      (
        record {
          same_policy = moved.same_policy;
          same_preserved = moved.same_preserved;
          same_chars = moved.same_chars;
          suffix = (ms, sym cut ∙ ap (λ l. ms ++ l) (sym left));
          seam = inl (subst Begins (sym left) begins);
          instructions = (
            [],
            ap (λ l. w.steering ++ owned l) (sym cut)
                ∙ (ap (λ l. w.steering ++ l) (owned-append ms rest)
                    ∙ (sym (append_assoc w.steering (owned ms) (owned rest))
                        ∙ sym (
                            ap (λ l. l ++ owned (drop (length ms) w.tail)) moved.grown
                            ∙ ap (λ r. (w.steering ++ owned ms) ++ owned r) left))),
          );
        },
        left,
      )

  shorter_after :
      (ms rest whole : List Message) → ms ++ rest ≡ whole → NonNil ms → length rest < length whole
  shorter_after [] rest whole cut some_message = elim some_message [ ]
  shorter_after (m ∷ ms) rest whole cut some_message =
      omega (arith, length-append ms rest, ap (λ l. length l) cut)

  -- Folding the oldest of several steps leaves a shorter tail.
  pub fold_oldest-Folded :
      (w : ContextWindow)
      → is_single (split_steps pdf_pages w.tail) ≡ false
      → Folded w (fold_oldest pdf_pages path_of w)
        × (length (fold_oldest pdf_pages path_of w).tail < length w.tail)
  unfolding fold_oldest messages_of
  fold_oldest-Folded w several =
      let (good, same) = split_steps-WellSplit pdf_pages w.tail in
      go (split_steps pdf_pages w.tail) refl good same several
    where
      go :
          (steps : List TurnStep)
          → split_steps pdf_pages w.tail ≡ steps
          → WellSplit pdf_pages steps
          → messages_of steps ≡ w.tail
          → is_single steps ≡ false
          → Folded w (fold_oldest pdf_pages path_of w)
            × (length (fold_oldest pdf_pages path_of w).tail < length w.tail)
      go [] split good same several = absurd (ground arith)
      go (s ∷ []) split good same several = absurd (ground arith)
      go (s ∷ t ∷ steps) split good same several =
          let rest = t.messages ++ messages_of steps in
          let begins = Begins-append t.messages (messages_of steps) good.1.0.1 in
          let (kept, left) = folded-Folded w s.messages rest same begins in
          let shorter = shorter_after s.messages rest w.tail same good.0.1 in
          rw (split, fold_oldest) (unfold folded in (kept, rw left shorter))

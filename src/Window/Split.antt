-- ===== src/Window/Split.antt =====
-- What `splitSteps` makes of a tail: its messages, in order, cut before each assistant's message.
use mathlib.Core.List.{append_assoc, append-nil}
use eggy.Prelude.{
  ℕ, ◌+◌, ◌≡◌, refl, sym, ap, ◌∙◌, true, List, [], ◌∷◌, ◌++◌, arith, Bool-cases, inl, inr, All,
}
use eggy.Message.{Message, is_assistant}
use eggy.Window.{message_chars}
use eggy.Window.Steps.{TurnStep, extend_last, add_message, split_from, split_steps, messages_of}

module _ (pdf_pages : List ℕ → ℕ) where
  pub message_chars-append :
      (xs ys : List Message)
      → message_chars pdf_pages (xs ++ ys) ≡ message_chars pdf_pages xs + message_chars pdf_pages ys
  unfolding message_chars
  message_chars-append [] ys = omega arith
  message_chars-append (m ∷ xs) ys = omega (arith, message_chars-append xs ys)

  pub messages_of-append :
      (xs ys : List TurnStep) → messages_of (xs ++ ys) ≡ messages_of xs ++ messages_of ys
  unfolding messages_of
  messages_of-append [] ys = refl
  messages_of-append (s ∷ xs) ys = simp (messages_of-append xs ys, append_assoc)

abbrev pub NonNil : List Message → Type 0
NonNil [] = ⊥
NonNil (_ ∷ _) = Unit

abbrev pub Begins : List Message → Type 0
Begins [] = ⊥
Begins (m ∷ _) = is_assistant m.role ≡ true

NonNil-append : (xs : List Message) (m : Message) → NonNil (xs ++ m ∷ [])
NonNil-append [] m = tt
NonNil-append (x ∷ xs) m = tt

pub Begins-append : (xs ys : List Message) → Begins xs → Begins (xs ++ ys)
Begins-append [] ys h = elim h [ ]
Begins-append (x ∷ xs) ys h = h

module _ (pdf_pages : List ℕ → ℕ) where
  -- The step has some messages, and its characters are theirs.
  abbrev pub IsCounted : TurnStep → Type 0
  IsCounted s = (s.chars ≡ message_chars pdf_pages s.messages) × NonNil s.messages

  -- Only the first step may begin with something else than an assistant's message.
  abbrev pub WellSplit : List TurnStep → Type 0
  WellSplit [] = Unit
  WellSplit (s ∷ steps) = IsCounted s × All (λ t. IsCounted t × Begins t.messages) steps

  extended : TurnStep → Message → TurnStep
  extended s m = record {
    messages = s.messages ++ m ∷ [];
    chars = s.chars + message_chars pdf_pages (m ∷ []);
  }

  extended-IsCounted : (s : TurnStep) (m : Message) → IsCounted s → IsCounted (extended s m)
  unfolding extended
  extended-IsCounted s m h = (
    omega (arith, h.0, message_chars-append pdf_pages s.messages (m ∷ [])),
    NonNil-append s.messages m,
  )

  extend_last-All :
      (steps : List TurnStep) (m : Message)
      → All (λ t. IsCounted t × Begins t.messages) steps
      → All (λ t. IsCounted t × Begins t.messages) (extend_last pdf_pages steps m)
  unfolding extend_last
  extend_last-All [] m h = tt
  extend_last-All (s ∷ []) m h = (
    (unfold extended in extended-IsCounted s m h.0.0, Begins-append s.messages (m ∷ []) h.0.1),
    tt,
  )
  extend_last-All (s ∷ t ∷ steps) m h = (h.0, extend_last-All (t ∷ steps) m h.1)

  extend_last-WellSplit :
      (steps : List TurnStep) (m : Message)
      → WellSplit steps
      → WellSplit (extend_last pdf_pages steps m)
  unfolding extend_last
  extend_last-WellSplit [] m h = tt
  extend_last-WellSplit (s ∷ []) m h = (unfold extended in extended-IsCounted s m h.0, tt)
  extend_last-WellSplit (s ∷ t ∷ steps) m h = (h.0, extend_last-All (t ∷ steps) m h.1)

  messages_of-extend_last :
      (s : TurnStep) (steps : List TurnStep) (m : Message)
      → messages_of (extend_last pdf_pages (s ∷ steps) m) ≡ messages_of (s ∷ steps) ++ m ∷ []
  unfolding extend_last messages_of
  messages_of-extend_last s [] m = simp (append-nil, append_assoc)
  messages_of-extend_last s (t ∷ steps) m =
      ap (λ l. s.messages ++ l) (messages_of-extend_last t steps m)
      ∙ sym (append_assoc s.messages (messages_of (t ∷ steps)) (m ∷ []))

  fresh_step : Message → TurnStep
  fresh_step m = record { messages = m ∷ []; chars = 0 + message_chars pdf_pages (m ∷ []) }

  extend_last-fresh :
      (steps : List TurnStep) (m : Message)
      → extend_last pdf_pages (steps ++ record { messages = []; chars = 0 } ∷ []) m
        ≡ steps ++ fresh_step m ∷ []
  unfolding extend_last fresh_step
  extend_last-fresh [] m = refl
  extend_last-fresh (s ∷ []) m = refl
  extend_last-fresh (s ∷ t ∷ steps) m = ap (λ l. s ∷ l) (extend_last-fresh (t ∷ steps) m)

  add_message-WellSplit :
      (steps : List TurnStep) (m : Message)
      → WellSplit steps
      → WellSplit (add_message pdf_pages steps m)
  unfolding add_message
  add_message-WellSplit [] m h = elim (Bool-cases (is_assistant m.role)) [
    | inl new ↦ rw new (unfold extend_last in ((omega arith, tt), tt))
    | inr old ↦ rw old (unfold extend_last in ((omega arith, tt), tt))
  ]
  add_message-WellSplit (s ∷ steps) m h = elim (Bool-cases (is_assistant m.role)) [
    | inl new ↦ rw (new, extend_last-fresh) (grown s steps m new h)
    | inr old ↦ rw old (extend_last-WellSplit (s ∷ steps) m h)
  ]
    where
      fresh_good :
          (m : Message)
          → is_assistant m.role ≡ true
          → IsCounted (fresh_step m) × Begins (fresh_step m).messages
      fresh_good m new = unfold fresh_step in ((omega arith, tt), new)

      grown_all :
          (steps : List TurnStep) (m : Message)
          → is_assistant m.role ≡ true
          → All (λ t. IsCounted t × Begins t.messages) steps
          → All (λ t. IsCounted t × Begins t.messages) (steps ++ fresh_step m ∷ [])
      grown_all [] m new h = (fresh_good m new, tt)
      grown_all (t ∷ steps) m new h = (h.0, grown_all steps m new h.1)

      grown :
          (s : TurnStep) (steps : List TurnStep) (m : Message)
          → is_assistant m.role ≡ true
          → WellSplit (s ∷ steps)
          → WellSplit (s ∷ (steps ++ fresh_step m ∷ []))
      grown s steps m new h = (h.0, grown_all steps m new h.1)

  messages_of-add_message :
      (steps : List TurnStep) (m : Message)
      → messages_of (add_message pdf_pages steps m) ≡ messages_of steps ++ m ∷ []
  unfolding add_message
  messages_of-add_message [] m = elim (Bool-cases (is_assistant m.role)) [
    | inl new ↦ rw new (unfold extend_last messages_of in refl)
    | inr old ↦ rw old (unfold extend_last messages_of in refl)
  ]
  messages_of-add_message (s ∷ steps) m = elim (Bool-cases (is_assistant m.role)) [
    | inl new ↦
        rw (new, extend_last-fresh)
          (messages_of-append pdf_pages (s ∷ steps) (fresh_step m ∷ [])
            ∙ ap (λ l. messages_of (s ∷ steps) ++ l) (unfold messages_of fresh_step in refl))
    | inr old ↦ rw old (messages_of-extend_last s steps m)
  ]

  split_from-WellSplit :
      (steps : List TurnStep) (ms : List Message)
      → WellSplit steps
      → WellSplit (split_from pdf_pages steps ms)
        × (messages_of (split_from pdf_pages steps ms) ≡ messages_of steps ++ ms)
  unfolding split_from
  split_from-WellSplit steps [] h = (h, rw append-nil)
  split_from-WellSplit steps (m ∷ ms) h =
      let (good, same) =
        split_from-WellSplit (add_message pdf_pages steps m) ms (add_message-WellSplit steps m h) in
      (good, same ∙ simp (messages_of-add_message steps m, append_assoc))

  -- `splitSteps` loses no message and keeps their order; every step is counted, and every step but
  -- the first begins with an assistant's message.
  pub split_steps-WellSplit :
      (ms : List Message)
      → WellSplit (split_steps pdf_pages ms) × (messages_of (split_steps pdf_pages ms) ≡ ms)
  unfolding split_steps
  split_steps-WellSplit ms =
      let (good, same) = split_from-WellSplit [] ms tt in (good, same ∙ unfold messages_of in refl)

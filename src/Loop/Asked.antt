-- ===== src/Loop/Asked.antt =====
-- What the requests of internal/core/agent/loop.go hold, in terms of what the caller handed in and the allowlist grants.
use mathlib.Core.List.{append-nil, append_assoc}
use mathlib.Core.Path.{subst}
use eggy.Prelude.{
  ℕ, ◌+◌, ◌≤◌, ◌≡◌, ◌⊎◌, inl, inr, refl, sym, ap, ◌∙◌, Bool, true, false, none, some, List, [], ◌∷◌,
  ◌++◌, arith, Bool-cases, Option-cases, All, if◌then◌else◌,
}
use eggy.Text.{trim_space, is_empty}
use eggy.Message.{Message, user}
use eggy.Window.{ContextPolicy, message_chars, normalized}
use eggy.Loop.{
  ToolDefinition, LoopTool, Allowlist, grants, allowed_actions, shown, shown_under,
  narrow_definition, definitions_of, definition_chars, filtered_tools, resolve,
}
use eggy.Loop.Offered.{is_shown, GrantsSome, shown-GrantsSome}
use eggy.Loop.Run.{Encoding, ModelRequest, Round, start, run_turn}
use eggy.Loop.Requests.{state_of, Sent, run_turn-Sent}

-- What a turn says for its owner: nothing for an input without a text and parts, or else the input itself.
pub data Spoken (input : Message) : List Message → Type 0 where
  silent :
      is_empty (trim_space input.content) ≡ true → is_empty input.parts ≡ true → Spoken input []
  said :
      (is_empty (trim_space input.content) ≡ false) ⊎ (is_empty input.parts ≡ false)
      → Spoken input (record input { role = user } ∷ [])

-- Whether a tool is there for a turn: without an allowlist one that is of no other kind of turn, and with
-- one a tool that it grants, whole or by an action.
abbrev pub Visible : Allowlist → LoopTool → Type 0
Visible none t = t.definition.turn_scoped ≡ false
Visible (some entries) t = GrantsSome entries t.definition.name

-- The definition that narrows a tool to the actions that are granted of it.
abbrev pub Narrowed : Allowlist → LoopTool → ToolDefinition → Type 0
Narrowed none t d = ⊥
Narrowed (some entries) t d =
    (grants entries t.definition.name ≡ false)
    × ((f : List (List ℕ) → ToolDefinition) × ((t.scoped ≡ some f)
          × (d ≡ f (allowed_actions entries t.definition.name))))

-- The tools of a catalog that are there for a turn, in their order, each as it is or narrowed.
pub data Shows (allowed : Allowlist) : List LoopTool → List ToolDefinition → Type 0 where
  all_shown : Shows allowed [] []
  hides :
      (t : LoopTool) (tools : List LoopTool) (definitions : List ToolDefinition)
      → (Visible allowed t → ⊥)
      → Shows allowed tools definitions
      → Shows allowed (t ∷ tools) definitions
  shows :
      (t : LoopTool) (d : ToolDefinition) (tools : List LoopTool)
      (definitions : List ToolDefinition)
      → Visible allowed t
      → (d ≡ t.definition) ⊎ Narrowed allowed t d
      → Shows allowed tools definitions
      → Shows allowed (t ∷ tools) (d ∷ definitions)

start-Spoken :
    (e : Encoding) (policy : ContextPolicy) (history : List Message) (input : Message)
    → (spoken : List Message) × (Spoken input spoken
        × ((start e policy history input).window.preserved ≡ history ++ spoken))
unfolding start eggy.Turns.as_user eggy.Window.Fit.new_context_window
start-Spoken e policy history input = elim (Bool-cases (is_empty (trim_space input.content))) [
  | inr text ↦ (_, (said (inl text), rw text refl))
  | inl blank ↦ elim (Bool-cases (is_empty input.parts)) [
    | inr parts ↦ (_, (said (inr parts), rw (blank, parts) refl))
    | inl bare ↦ ([], (silent blank bare, rw (blank, bare) (sym (append-nil history))))
  ]
]

none-not-shown : (d : ToolDefinition) → none ≡ some d → ⊥
none-not-shown d h = absurd (ground (arith, ap is_shown h))

-- What a tool is shown as, under an allowlist.
shown-Narrowed :
    (entries : List (List ℕ × Bool)) (t : LoopTool) (d : ToolDefinition)
    → shown (some entries) t ≡ some d
    → (d ≡ t.definition) ⊎ Narrowed (some entries) t d
unfolding shown shown_under narrow_definition
shown-Narrowed entries t d h = elim (Bool-cases (grants entries t.definition.name)) [
  | inl whole ↦ inl (sym (some-injective t.definition d (rw whole at h)))
  | inr part ↦ elim (Bool-cases (is_empty (allowed_actions entries t.definition.name))) [
    | inl empty ↦ absurd (none-not-shown d (rw (part, empty) at h))
    | inr listed ↦ elim (Option-cases t.scoped) [
      | inl unscoped ↦ inl (sym (some-injective t.definition d (rw (part, listed, unscoped) at h)))
      | inr (f, scoped) ↦ inr (
        part,
        (
          f,
          (
            scoped,
            sym (
                some-injective (f (allowed_actions entries t.definition.name)) d
                  (rw (part, listed, scoped) at h)),
          ),
        ),
      )
    ]
  ]
]
  where
    some-injective : (a b : ToolDefinition) → some a ≡ some b → a ≡ b
    some-injective a b same = ap (λ o. elim o [ none ↦ a | some x ↦ x ]) same

-- A tool is shown exactly when it is there for the turn.
hidden-Visible :
    (allowed : Allowlist) (t : LoopTool) → shown allowed t ≡ none → Visible allowed t → ⊥
unfolding shown
hidden-Visible none t h free = absurd (ground (arith, h, free))
hidden-Visible (some entries) t h granted =
    absurd (ground (arith, ap is_shown h, (shown-GrantsSome entries t).1 granted))

kept :
    (b : Bool) (x y : ToolDefinition)
    → (if b then none else some x) ≡ some y
    → (b ≡ false) × (y ≡ x)
kept true x y h = absurd (none-not-shown y h)
kept false x y h = (refl, sym (ap (λ o. elim o [ none ↦ x | some z ↦ z ]) h))

shown-Visible :
    (allowed : Allowlist) (t : LoopTool) (d : ToolDefinition)
    → shown allowed t ≡ some d
    → Visible allowed t × ((d ≡ t.definition) ⊎ Narrowed allowed t d)
unfolding shown
shown-Visible none t d h =
    let (free, same) = kept t.definition.turn_scoped t.definition d h in (free, inl same)
shown-Visible (some entries) t d h =
    ((shown-GrantsSome entries t).0 (ap is_shown h), shown-Narrowed entries t d h)

definitions_of-Shows :
    (allowed : Allowlist) (tools : List LoopTool)
    → Shows allowed tools (definitions_of allowed tools)
unfolding definitions_of
definitions_of-Shows allowed [] = all_shown
definitions_of-Shows allowed (t ∷ tools) =
    let rest = definitions_of-Shows allowed tools in
    elim (Option-cases (shown allowed t)) [
      | inl hidden ↦
          rw (definitions_of, hidden) (hides t tools _ (hidden-Visible allowed t hidden) rest)
      | inr (d, there) ↦
          let (visible, same) = shown-Visible allowed t d there in
          rw (definitions_of, there) (shows t d tools _ visible same rest)
    ]

-- A request begins with the history and with what the turn says for its owner, offers the tools of the
-- catalog that are there for the turn, and fits with them.
pub record Asked (e : Encoding) (policy : ContextPolicy) (available : List LoopTool)
    (allowed : Allowlist) (history : List Message) (input : Message) (r : ModelRequest)
    : Type 0 where
  pub spoken : List Message
  pub rest : List Message
  pub speaks : Spoken input spoken
  pub begins : r.messages ≡ history ++ (spoken ++ rest)
  pub offers : Shows allowed (resolve available) r.tools
  pub fits :
      message_chars e.pdf_pages r.messages + policy.reserve_chars + definition_chars r.tools
      ≤ policy.request_chars

Sent-Asked :
    (e : Encoding) (policy : ContextPolicy) (available : List LoopTool) (allowed : Allowlist)
    (history : List Message) (input : Message) (requests : List ModelRequest)
    → All
        (Sent e policy
          (start e policy history input).window.preserved
          (filtered_tools allowed available).1)
        requests
    → All (Asked e policy available allowed history input) requests
unfolding filtered_tools
Sent-Asked e policy available allowed history input [] h = tt
Sent-Asked e policy available allowed history input (r ∷ requests) (sent, later) =
    let (spoken, (speaks, whole)) = start-Spoken e policy history input in
    (
      record {
        spoken = spoken;
        rest = sent.rest;
        speaks = speaks;
        begins =
            sent.begins ∙ (ap (λ l. l ++ sent.rest) whole ∙ append_assoc history spoken sent.rest);
        offers =
            subst (Shows allowed (resolve available)) (sym sent.offers)
              (definitions_of-Shows allowed (resolve available));
        fits =
            subst
              (λ d.
                message_chars e.pdf_pages r.messages + policy.reserve_chars + definition_chars d
                ≤ policy.request_chars)
              (sym sent.offers) sent.fits;
      },
      Sent-Asked e policy available allowed history input requests later,
    )

-- Every request that a turn sends to the model, over all its rounds, begins with the history, in its
-- order, and with the input for the owner, unless that has neither text nor parts. It offers, in their
-- order, the tools of the turn's catalog that are there for the turn: without an allowlist those that
-- are of no other kind of turn, and with one those that it grants by their name or by some action of
-- theirs, each as it is or narrowed to the actions granted. And it fits: its characters, those of its
-- tools and the reserve are within the bound of the policy, read with its defaults.
pub run_turn-Asked :
    (e : Encoding) (configured : Bool) (policy : ContextPolicy) (available : List LoopTool)
    (allowed : Allowlist) (history : List Message) (input : Message) (rounds : List Round)
    → All
        (Asked e (normalized policy) available allowed history input)
        (state_of (run_turn e configured policy available allowed history input rounds)).requests
run_turn-Asked e configured policy available allowed history input rounds =
    Sent-Asked e (normalized policy) available allowed history input _
      (run_turn-Sent e configured policy available allowed history input rounds)

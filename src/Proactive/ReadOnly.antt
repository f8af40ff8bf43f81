-- ===== src/Proactive/ReadOnly.antt =====
-- What a turn under the read-only allowlist of internal/core/turns/policy.go runs.
use eggy.Prelude.{
  ℕ, ◌+◌, ◌≡◌, ◌⊎◌, inl, inr, refl, sym, ap, ◌∙◌, Bool, true, false, ◌&&◌, ◌==◌, some, List, [],
  ◌∷◌, ◌++◌, arith, Bool-cases, All, if◌then◌else◌,
}
use eggy.Prelude.Result.{Result}
use eggy.Text.{codes}
use eggy.Message.{Message, ToolCall}
use eggy.Window.{ContextPolicy}
use eggy.Loop.{LoopTool, same_text, grants, scope, call_action, allows_call}
use eggy.Loop.Offered.{same_text_iff}
use eggy.Loop.Run.{Encoding, Round, run_turn}
use eggy.Loop.Requests.{state_of}
use eggy.Loop.Calls.{Offered, run_turn-Offered}
use eggy.Proactive.{OneOf, read_only_names, all_allowed, read_only_tools}

grants-OneOf :
    (l : List (List ℕ)) (name : List ℕ) → grants (all_allowed l) name ≡ true → OneOf name l
unfolding grants
grants-OneOf [] name h = absurd (ground arith)
grants-OneOf (n ∷ l) name h = elim (Bool-cases (same_text n name)) [
  | inl same ↦ inl ((same_text_iff n name).0 same)
  | inr other ↦ inr (grants-OneOf l name (ground (arith, other, h)))
]

-- The number of colons, and the texts around the first.
colons : List ℕ → ℕ
colons [] = 0
colons (c ∷ s) = (if c == 58 then 1 else 0) + colons s

colons-scope :
    (name action : List ℕ) → colons (scope name ++ action) ≡ colons name + 1 + colons action
unfolding colons
colons-scope [] action = omega arith
colons-scope (c ∷ name) action = omega (arith, colons-scope name action)

split_colon : List ℕ → List ℕ × List ℕ
split_colon [] = ([], [])
split_colon (c ∷ s) = let (a, b) = split_colon s in if c == 58 then ([], s) else (c ∷ a, b)

split_colon-scope :
    (name action : List ℕ) → colons name ≡ 0 → split_colon (scope name ++ action) ≡ (name, action)
unfolding split_colon colons
split_colon-scope [] action h = refl
split_colon-scope (c ∷ name) action h =
    let plain : (c == 58) ≡ false = ground (arith, h) in
    rw (plain, split_colon-scope name action (ground (arith, h))) refl

-- All entries without a colon but the last, so an entry with one is the last.
plain_but_last : List (List ℕ) → Bool
plain_but_last [] = true
plain_but_last (n ∷ []) = true
plain_but_last (n ∷ m ∷ l) = colons n == 0 && plain_but_last (m ∷ l)

last_of : List (List ℕ) → List ℕ
last_of [] = []
last_of (n ∷ []) = n
last_of (n ∷ m ∷ l) = last_of (m ∷ l)

OneOf-scoped :
    (l : List (List ℕ)) (name action : List ℕ)
    → plain_but_last l ≡ true
    → OneOf (scope name ++ action) l
    → last_of l ≡ scope name ++ action
unfolding plain_but_last last_of
OneOf-scoped [] name action plain h = absurd h
OneOf-scoped (n ∷ []) name action plain (inl same) = same
OneOf-scoped (n ∷ []) name action plain (inr h) = absurd h
OneOf-scoped (n ∷ m ∷ l) name action plain (inl same) =
    let none_in : colons n ≡ 0 = ground (arith, plain) in
    absurd (omega (arith, ap colons same, colons-scope name action, none_in))
OneOf-scoped (n ∷ m ∷ l) name action plain (inr h) =
    OneOf-scoped (m ∷ l) name action (ground (arith, plain)) h

-- A scoped entry of the read-only allowlist can only be the one on the schedule's list.
scoped-schedule :
    (name action : List ℕ)
    → OneOf (scope name ++ action) read_only_names
    → (name ≡ codes "schedule") × (action ≡ codes "list")
unfolding colons split_colon plain_but_last last_of
scoped-schedule name action h =
    let whole : codes "schedule:list" ≡ scope name ++ action =
      OneOf-scoped read_only_names name action refl h in
    let none_before : colons name ≡ 0 = omega (arith, colons-scope name action, ap colons whole) in
    let split = ap split_colon whole ∙ split_colon-scope name action none_before in
    (sym (ap (λ p. p.0) split), sym (ap (λ p. p.1) split))

-- A call that a read-only turn may run.
abbrev pub ReadOnlyCall : (List ℕ → Result (List ℕ)) → ToolCall → Type 0
ReadOnlyCall action_of call =
    OneOf (codes call.name) read_only_names
    ⊎ ((codes call.name ≡ codes "schedule") × (call_action action_of call.arguments ≡ codes "list"))

allows_call-grants :
    (action_of : List ℕ → Result (List ℕ)) (entries : List (List ℕ × Bool))
    (name arguments : List ℕ)
    → allows_call action_of (some entries) name arguments ≡ true
    → (grants entries name ≡ true)
      ⊎ (grants entries (scope name ++ call_action action_of arguments) ≡ true)
unfolding allows_call
allows_call-grants action_of entries name arguments h = elim (Bool-cases (grants entries name)) [
  | inl named ↦ inl named
  | inr scoped ↦ inr (ground (arith, scoped, h))
]

allows_call-ReadOnly :
    (action_of : List ℕ → Result (List ℕ)) (call : ToolCall)
    → allows_call action_of (some read_only_tools) (codes call.name) call.arguments ≡ true
    → ReadOnlyCall action_of call
allows_call-ReadOnly action_of call h =
    elim (allows_call-grants action_of read_only_tools (codes call.name) call.arguments h) [
      | inl named ↦ inl (grants-OneOf read_only_names (codes call.name) named)
      | inr scoped ↦ inr (
          scoped-schedule (codes call.name) (call_action action_of call.arguments)
            (grants-OneOf read_only_names _ scoped))
    ]

All-ReadOnly :
    (e : Encoding) (available : List LoopTool) (calls : List ToolCall)
    → All (Offered e (some read_only_tools) available) calls
    → All (ReadOnlyCall e.action_of) calls
All-ReadOnly e available [] h = tt
All-ReadOnly e available (c ∷ l) h =
    (allows_call-ReadOnly e.action_of c h.0.allows, All-ReadOnly e available l h.1)

-- Whatever tools there are and whatever the model answers, a turn under the read-only allowlist runs no
-- call but those of the tools that the list names, and the action `list` of the tool `schedule`.
pub run_turn-ReadOnly :
    (e : Encoding) (configured : Bool) (policy : ContextPolicy) (available : List LoopTool)
    (history : List Message) (input : Message) (rounds : List Round)
    → All
        (ReadOnlyCall e.action_of)
        (state_of
          (run_turn e configured policy available (some read_only_tools) history input rounds)).ran
run_turn-ReadOnly e configured policy available history input rounds =
    All-ReadOnly e available _
      (run_turn-Offered e configured policy available (some read_only_tools) history input rounds)

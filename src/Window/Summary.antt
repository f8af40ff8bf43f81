-- ===== src/Window/Summary.antt =====
-- The checkpoint summary of internal/core/agent/compaction.go: what a folded message leaves behind.
use mathlib.Core.List.{reverse}
use eggy.Prelude.{
  false, ℕ, zero, suc, ◌/◌, ◌≤◌, ◌<◌, ◌≡◌, not, ◌||◌, List, [], ◌∷◌, ◌++◌, none, some, leb, ◌==◌,
  str_eq, if◌then◌else◌, length, arith, Option-cases, inl, inr, Bool-cases, length-take,
}
use eggy.Text.{codes, decimal, fields, join, trim_space, after_line, is_empty}
use eggy.Message.{Message, ToolCall}
use eggy.Window.{ContextPolicy, summary_limit, truncate_runes}

-- The loop of `AppendSummary`: whole lines go from the front until the rest fits. Each round drops
-- a newline at least, so the length of the text is fuel enough.
shrink : ℕ → List ℕ → List ℕ
shrink zero summary = summary
shrink (suc fuel) summary =
    let cut = after_line summary in
    let next : List ℕ = elim cut [
      | none ↦ truncate_runes summary summary_limit
      | some rest ↦ shrink fuel rest
    ] in
    if leb (length summary) summary_limit then summary else next

joined : List ℕ → List ℕ → List ℕ
joined summary line = if is_empty summary then line else summary ++ 10 ∷ line

-- `AppendSummary`.
unfoldable pub append_summary : List ℕ → List ℕ → List ℕ
unfolding shrink joined trim_space after_line truncate_runes
append_summary summary event =
    let line = trim_space event in
    if is_empty line then summary else shrink (length (joined summary line)) (joined summary line)

shown : List ℕ → List ℕ → ℕ → List ℕ
unfolding truncate_runes decimal
shown separator value limit =
    if limit == 0 || leb (length value) limit
    then value
    else truncate_runes value limit
      ++ (separator
          ++ (codes "… ["
              ++ (decimal limit
                  ++ (codes " of " ++ (decimal (length value) ++ codes " characters shown]")))))

-- `collapse`.
unfoldable pub collapse : List ℕ → ℕ → List ℕ
unfolding shown trim_space fields join
collapse value limit = shown [] (trim_space (join (codes " ") (fields value))) limit

trim_newlines : List ℕ → List ℕ
trim_newlines [] = []
trim_newlines (c ∷ s) = let rest = trim_newlines s in if c == 13 || c == 10 then rest else c ∷ s

trim_blank : List ℕ → List ℕ
trim_blank [] = []
trim_blank (c ∷ s) =
    let rest = trim_blank s in if c == 32 || c == 9 || c == 13 || c == 10 then rest else c ∷ s

-- `keepLines`.
unfoldable pub keep_lines : List ℕ → ℕ → List ℕ
unfolding shown trim_newlines trim_blank
keep_lines value limit =
    shown (10 ∷ []) (reverse (trim_blank (reverse (trim_newlines value)))) limit

call_entry : ℕ → ToolCall → List ℕ
unfolding collapse
call_entry limit call =
    codes "called "
    ++ (codes call.name ++ (codes "(" ++ (collapse call.arguments limit ++ codes ")")))

call_entries : ℕ → List ToolCall → List (List ℕ)
unfolding call_entry
call_entries limit [] = []
call_entries limit (call ∷ calls) = call_entry limit call ∷ call_entries limit calls

-- `summarizeMessage`.
unfoldable pub summarize_message : ContextPolicy → Message → List ℕ
unfolding collapse keep_lines call_entries
summarize_message policy message =
    let excerpt = if policy.output_excerpt_chars == 0 then 1024 else policy.output_excerpt_chars in
    let clipped =
      if policy.preserve_excerpts
      then keep_lines message.content excerpt
      else collapse message.content excerpt in
    let text = collapse message.content (excerpt / 4) in
    let spoken : List (List ℕ) = if is_empty text then [] else (codes "assistant: " ++ text) ∷ [] in
    if not (str_eq message.name "")
    then codes "result of " ++ (codes message.name ++ (codes " (untrusted data): " ++ clipped))
    else if not (is_empty message.tool_calls)
    then join (10 ∷ []) (spoken ++ call_entries (excerpt / 4) message.tool_calls)
    else if not (is_empty message.content)
    then codes "assistant: " ++ collapse message.content excerpt
    else codes "recorded activity"

-- `SummarizeMessage`, under a policy of which only the excerpt is set.
unfoldable pub summarize_within : Message → ℕ → List ℕ
unfolding summarize_message
summarize_within message excerpt =
    summarize_message
      (record {
        budget_chars = 0;
        recent_steps = 0;
        output_excerpt_chars = excerpt;
        request_chars = 0;
        reserve_chars = 0;
        max_steps = 0;
        fold_chars = 0;
        preserve_excerpts = false;
      })
      message

after_line-shorter :
    (s : List ℕ) {rest : List ℕ} → after_line s ≡ some rest → length rest < length s
unfolding after_line
after_line-shorter [] h = absurd (ground arith)
after_line-shorter (c ∷ s) {rest} h = elim (Bool-cases (c == 10)) [
  | inl newline ↦ ground arith
  | inr other ↦ let shorter = after_line-shorter s {rest = rest} (ground arith) in omega arith
]

truncate_runes-le : (s : List ℕ) (limit : ℕ) → 0 < limit → length (truncate_runes s limit) ≤ limit
unfolding truncate_runes
truncate_runes-le s limit h = elim (Bool-cases (leb (length s) limit)) [
  | inl fits ↦ ground arith
  | inr long ↦ ground (arith, length-take limit s)
]

shrink-le-summary_limit :
    (fuel : ℕ) (s : List ℕ) → length s ≤ fuel → length (shrink fuel s) ≤ summary_limit
unfolding shrink
shrink-le-summary_limit zero s h = omega arith
shrink-le-summary_limit (suc fuel) s h = elim (Bool-cases (leb (length s) summary_limit)) [
  | inl fits ↦ ground arith
  | inr long ↦ elim (Option-cases (after_line s)) [
    | inl last ↦ rw (long, last, shrink) (truncate_runes-le s summary_limit (omega arith))
    | inr (rest, more) ↦
        let shorter = after_line-shorter s more in
        rw (long, more, shrink) (shrink-le-summary_limit fuel rest (omega arith))
  ]
]

-- Whatever is appended, the running summary keeps within its limit, if it was.
pub append_summary-le-summary_limit :
    (summary event : List ℕ)
    → length summary ≤ summary_limit
    → length (append_summary summary event) ≤ summary_limit
unfolding append_summary
append_summary-le-summary_limit summary event h =
    let line = trim_space event in
    let whole = joined summary line in
    elim (Bool-cases (is_empty line)) [
      | inl blank ↦ rw blank h
      | inr more ↦ rw more (shrink-le-summary_limit (length whole) whole (omega arith))
    ]

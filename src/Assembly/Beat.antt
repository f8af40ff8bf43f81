-- ===== src/Assembly/Beat.antt =====
-- What a heartbeat has decided once its calls of internal/core/services/heartbeat_tools.go are done.
use eggy.Prelude.{
  ℕ, zero, suc, ◌<◌, ◌≡◌, ◌⊎◌, inl, inr, refl, sym, ap, ◌∙◌, Bool, true, false, ◌&&◌, Option, none,
  some, List, [], ◌∷◌, arith, if◌then◌else◌, Bool-cases, Option-cases,
}
use eggy.Prelude.Result.{Result, ok, err, other, Result-cases}
use eggy.Text.{trim_space, is_empty}
use eggy.Text.Trimmed.{trim_space-is_blank}
use eggy.Proactive.{silent_reply}
use eggy.Assembly.{HeartbeatResponse}
use eggy.Assembly.Replies.{heartbeat_says}
use eggy.Assembly.Heartbeat.{
  RespondInput, Duration, ahead, back, RespondTool, positive_duration, parse_next_check, annotate,
  checked, recorded_response, execute_respond, executed, fresh_response,
}

-- A response that nothing was decided in, or one that says when to look again and, if it notifies, what.
pub record Decision (r : HeartbeatResponse) : Type 0 where
  pub sound :
      (r.responded ≡ false)
      ⊎ ((0 < r.next_check) × ((r.notify ≡ false) ⊎ (is_empty (trim_space r.text) ≡ false)))

abbrev pub Decided : Option HeartbeatResponse → Type 0
Decided none = Unit {0}
Decided (some r) = Decision r

module _ (t : RespondTool) where
  positive_duration-lt : (d : Duration) (n : ℕ) → positive_duration t d ≡ ok n → 0 < n
  unfolding positive_duration
  positive_duration-lt (ahead zero) n h = absurd (ground (arith, h))
  positive_duration-lt (ahead (suc m)) n h = ground (arith, h)
  positive_duration-lt (back m) n h = absurd (ground (arith, h))

  parse_next_check-lt : (value : List ℕ) (n : ℕ) → parse_next_check t value ≡ ok n → 0 < n
  unfolding parse_next_check
  parse_next_check-lt value n h = elim (Bool-cases (is_empty (trim_space value))) [
    | inl blank ↦ absurd (ground (arith, blank, h))
    | inr written ↦ elim (Option-cases (t.parse_duration (trim_space value))) [
      | inl unread ↦ absurd (ground (arith, written, unread, h))
      | inr (d, read) ↦ positive_duration-lt d n (rw (parse_next_check, written, read) at h)
    ]
  ]

  recorded_response-Decision :
      (input : RespondInput) (n : ℕ)
      → checked t input ≡ ok n
      → Decision (recorded_response t input n)
  unfolding checked recorded_response
  recorded_response-Decision input n h =
      elim (Bool-cases (input.notify && is_empty (trim_space input.notification_text))) [
        | inl mute ↦ absurd (ground (arith, mute, h))
        | inr fine ↦
            let next = parse_next_check-lt input.next_check n (rw (checked, fine) at h) in
            elim (Bool-cases input.notify) [
              | inr quiet ↦ record { sound = inr (next, inl quiet) }
              | inl loud ↦ record {
                sound = inr (
                  next,
                  inr (trim_space-is_blank input.notification_text ∙ ground (arith, fine, loud)),
                );
              }
            ]
      ]

  execute_respond-Decided :
      (raw : List ℕ) (response : Option HeartbeatResponse)
      → Decided response
      → Decided (execute_respond t raw response).1
  unfolding execute_respond
  execute_respond-Decided raw response h = elim (Result-cases (t.decode raw)) [
    | inr (e, garbled) ↦ rw (execute_respond, garbled) h
    | inl (input, read) ↦ elim (Result-cases (checked t input)) [
      | inr (e, refused) ↦ rw (execute_respond, read, refused) h
      | inl (n, fine) ↦ rw (execute_respond, read, fine) (decided_by response input n fine)
    ]
  ]
    where
      decided_by :
          (response : Option HeartbeatResponse) (input : RespondInput) (n : ℕ)
          → checked t input ≡ ok n
          → Decided (
              (elim response as (λ _. Result (List ℕ) × Option HeartbeatResponse) [
                | none ↦
                    (err (other "heartbeat_respond is only available on a heartbeat turn"), none)
                | some _ ↦ (annotate t input.watch, some (recorded_response t input n))
              ]).1)
      decided_by none input n fine = tt
      decided_by (some r) input n fine = recorded_response-Decision input n fine

  executed-Decided :
      (calls : List (List ℕ)) (response : Option HeartbeatResponse)
      → Decided response
      → Decided (executed t calls response)
  unfolding executed
  executed-Decided [] response h = h
  executed-Decided (raw ∷ calls) response h =
      executed-Decided calls (execute_respond t raw response).1
        (execute_respond-Decided raw response h)

  -- Whatever a heartbeat's turn calls `heartbeat_respond` with, and however often, also where the watch list
  -- is refused after the response was recorded, its response is afterwards still undecided, or it says in a
  -- positive time when to look again and, if it notifies, has a text that is not blank.
  pub executed-Decision : (calls : List (List ℕ)) → Decided (executed t calls (some fresh_response))
  executed-Decision calls =
      executed-Decided calls (some fresh_response) (record { sound = inl refl })

  says_from :
      (b n silent : Bool) (written said : List ℕ)
      → (if b
          then if n then some (some written) else some none
          else if silent
          then some none
          else none)
        ≡ some (some said)
      → (b ≡ true) × ((n ≡ true) × (written ≡ said))
  says_from true true silent written said h = (
    refl,
    (refl, ap (λ o. elim o [ none ↦ written | some p ↦ elim p [ none ↦ written | some s ↦ s ] ]) h),
  )
  says_from true false silent written said h = absurd (ground (arith, h))
  says_from false n true written said h = absurd (ground (arith, h))
  says_from false n false written said h = absurd (ground (arith, h))

  says-written :
      (response : Option HeartbeatResponse) (content said : List ℕ)
      → Decided response
      → heartbeat_says response content ≡ some (some said)
      → is_empty (trim_space said) ≡ false
  unfolding heartbeat_says
  says-written none content said d h = elim (Bool-cases (silent_reply content)) [
    | inl silent ↦ absurd (ground (arith, rw silent at h))
    | inr loud ↦ absurd (ground (arith, rw loud at h))
  ]
  says-written (some r) content said d h =
      let (responded, (notify, same)) =
        says_from r.responded r.notify (silent_reply content) r.text said h in
      elim d.sound [
        | inl never ↦ absurd (ground (arith, never, responded))
        | inr (_, inl quiet) ↦ absurd (ground (arith, quiet, notify))
        | inr (_, inr written) ↦ sym (ap (λ x. is_empty (trim_space x)) same) ∙ written
      ]

  -- What a heartbeat delivers in the place of its reply, after whatever calls of `heartbeat_respond`, has a
  -- character that is not a space.
  pub heartbeat_says-written :
      (calls : List (List ℕ)) (content said : List ℕ)
      → heartbeat_says (executed t calls (some fresh_response)) content ≡ some (some said)
      → is_empty (trim_space said) ≡ false
  heartbeat_says-written calls content said h =
      says-written (executed t calls (some fresh_response)) content said (executed-Decision calls) h

-- ===== src/Assembly/Heard.antt =====
-- What the owner hears of the reply of a pass of internal/core/turns/run.go.
use eggy.Prelude.{
  ℕ, ◌<◌, ◌≡◌, ◌⊎◌, inl, inr, refl, ap, true, false, not, ◌&&◌, Option, none, some, List, [], ◌∷◌,
  ◌++◌, if◌then◌else◌, arith, Bool-cases, str_eq,
}
use eggy.Prelude.Result.{ok}
use eggy.Text.{codes, trim_space, is_empty}
use eggy.Context.{Destination, web}
use eggy.Message.{ContentPart, Message}
use eggy.Loop.Run.{RunResult}
use eggy.Assembly.{Policy}
use eggy.Assembly.Parts.{generated_images}
use eggy.Assembly.Steps.{◌>>=◌, done, always}
use eggy.Assembly.Service.{Collaborators}
use eggy.Assembly.Replies.{
  deliver_images, title_thread, record_exchange, heartbeat_says, deliver_decided, deliver_reply,
  answer, conclude,
}
use eggy.Assembly.Told.{
  Grows, Tells, Grows-bind, Tells-rest, Tells-first, Grows-done, Grows-try_call, Grows-if,
  Tells-either,
}
use eggy.Assembly.Laws.{Shows-Tells, Laws}
use eggy.Assembly.Answered.{Grows-keep_images, images-Grows, images-Tells}

-- A turn that may say nothing.
abbrev pub MaySilence : Policy → Type 0
MaySilence policy = policy.suppress_silent_reply ≡ true

module _ {W : Type 0} (told : W → ℕ) (c : Collaborators W) (l : Laws told c) (policy : Policy)
    (dest : Destination) where
  Grows-title_thread : (input : Message) → Grows told (title_thread c policy dest input)
  unfolding title_thread
  Grows-title_thread input =
      Grows-if told (c.has_threads && str_eq dest.kind web) _ _
        (Grows-bind told _ _ (Grows-try_call told _ (l.set_thread_title _ _))
          λ r. Grows-done told tt)
        (Grows-done told tt)

  Grows-record_exchange :
      (input reply : Message) (ids : List (List ℕ))
      → Grows told (record_exchange c policy dest input reply ids)
  unfolding record_exchange
  Grows-record_exchange input reply ids =
      Grows-if told (not policy.record_conversation) _ _ (Grows-done told tt) (
        Grows-bind told _ _
          (Grows-if told policy.input_already_recorded _ _ (Grows-done told tt)
            (l.record_message _ _ _))
          λ _. Grows-bind told _ _ (l.record_message _ _ _) λ _. Grows-title_thread input)

  module _ (Silence : Type 0) where
    Tells-deliver : (s : List ℕ) → Tells told Silence (c.deliver s)
    Tells-deliver s = Shows-Tells told Silence (c.deliver s) (l.deliver s)

    Grows-thinking :
        (result : RunResult)
        → Grows told (
            if is_empty (trim_space result.reasoning_content)
            then done tt
            else (c.show_thinking >>= λ shows.
                if shows
                then c.deliver (codes "Thinking:" ++ 10 ∷ result.reasoning_content)
                else done tt))
    Grows-thinking result =
        Grows-if told (is_empty (trim_space result.reasoning_content)) _ _ (Grows-done told tt) (
          Grows-bind told _ _ l.show_thinking
            λ shows. Grows-if told shows _ _ (l.deliver _).kept (Grows-done told tt))

    -- The text of the reply and its images, of which one at least is there.
    Tells-shown :
        (content : List ℕ) (ids : List (List ℕ)) (images : List ContentPart)
        → Tells told Silence (
            (if is_empty (trim_space content) && not (is_empty images)
              then done tt
              else c.deliver content)
            >>= λ _. deliver_images c ids images)
    Tells-shown content ids [] = elim (Bool-cases (is_empty (trim_space content))) [
      | inl blank ↦
          rw blank
            (Tells-first told Silence _ _ (Tells-deliver content) λ _. images-Grows told c l ids [])
      | inr written ↦
          rw written
            (Tells-first told Silence _ _ (Tells-deliver content) λ _. images-Grows told c l ids [])
    ]
    Tells-shown content ids (i ∷ images) = elim (Bool-cases (is_empty (trim_space content))) [
      | inl blank ↦ rw blank (
          Tells-rest told Silence _ _ (Grows-done told tt)
            λ _. images-Tells told c l Silence ids i images)
      | inr written ↦ rw written (
          Tells-first told Silence _ _ (Tells-deliver content)
            λ _. images-Grows told c l ids (i ∷ images))
    ]

    Tells-deliver_reply :
        (result : RunResult) (ids : List (List ℕ)) (images : List ContentPart)
        → Tells told Silence (deliver_reply c policy dest result ids images)
    unfolding deliver_reply
    Tells-deliver_reply result ids images =
        Tells-rest told Silence _ _ (Grows-thinking result)
          λ _. Tells-shown result.message.content ids images

  Tells-decided :
      (Silence : Type 0) (result : RunResult) (ids : List (List ℕ)) (images : List ContentPart)
      (said : Option (Option (List ℕ)))
      → (said ≡ some none → Silence)
      → Tells told Silence (deliver_decided c policy dest result ids images said)
  unfolding deliver_decided done
  Tells-decided Silence result ids images none may = Tells-deliver_reply _ result ids images
  Tells-decided Silence result ids images (some (some text)) may = Tells-deliver _ text
  Tells-decided Silence result ids images (some none) may = record {
    kept = Grows-done told tt;
    tells = λ w a fine. inl (may refl);
  }

  Tells-answer :
      (result : RunResult) (ids : List (List ℕ)) (images : List ContentPart)
      → Tells told (MaySilence policy) (answer c policy dest result ids images)
  unfolding answer
  Tells-answer result ids images =
      Tells-either told _ policy.suppress_silent_reply _ _
        (λ may. Tells-rest told (MaySilence policy) _ _ l.heartbeat_response λ response.
          Tells-decided _ result ids images (heartbeat_says response result.message.content)
            (λ _. may))
        (λ must. Tells-deliver_reply _ result ids images)

  -- When `answer`, the end of a pass, reports no error, the owner was shown something more, provided that
  -- every call of the collaborators keeps what was shown and each delivery without an error shows
  -- something; or the policy is a heartbeat's, and what the turn's own response and its reply say is to
  -- be silent.
  pub answer-heard :
      (result : RunResult) (ids : List (List ℕ)) (images : List ContentPart) (w : W)
      → (answer c policy dest result ids images w).0 ≡ ok tt
      → (told w < told (answer c policy dest result ids images w).1)
        ⊎ ((policy.suppress_silent_reply ≡ true)
            × (heartbeat_says (c.heartbeat_response w).0 result.message.content ≡ some none))
  unfolding answer ◌>>=◌ always
  answer-heard result ids images w h = elim (Bool-cases policy.suppress_silent_reply) [
    | inr must ↦
        elim ((Tells-deliver_reply ⊥ result ids images).tells w tt (rw (answer, must) at h)) [
          | inl never ↦ absurd never
          | inr more ↦ inl (omega (arith, more, ap (λ f. told (f w).1) (must_be must)))
        ]
    | inl may ↦
        elim ((Tells-decided (said ≡ some none) result ids images said (λ e. e)).tells
          (c.heartbeat_response w).1 tt (rw (answer, may) at h)) [
            | inl silent ↦ inr (may, silent)
            | inr more ↦ inl (
                omega
                  (arith, more, l.heartbeat_response.grows w, ap (λ f. told (f w).1) (may_be may)))
          ]
  ]
    where
      said : Option (Option (List ℕ))
      said = heartbeat_says (c.heartbeat_response w).0 result.message.content

      may_be :
          policy.suppress_silent_reply ≡ true
          → (always c.heartbeat_response >>= λ response.
              deliver_decided c policy dest result ids images
                (heartbeat_says response result.message.content))
            ≡ answer c policy dest result ids images
      may_be may = rw (answer, may) refl

      must_be :
          policy.suppress_silent_reply ≡ false
          → deliver_reply c policy dest result ids images ≡ answer c policy dest result ids images
      must_be must = rw (answer, must) refl

  pub Tells-conclude :
      (input : Message) (trace : List ℕ) (result : RunResult)
      → Tells told (MaySilence policy) (conclude c policy dest input trace result)
  unfolding conclude
  Tells-conclude input trace result = Tells-rest told _ _ _ l.drawn_images λ drawn.
      let images = drawn ++ generated_images result.message.parts in
      Tells-rest told _ _ _ (Grows-keep_images told c l trace images) λ ids.
        Tells-rest told _ _ _ (Grows-record_exchange input result.message ids)
          λ _. Tells-answer result ids images

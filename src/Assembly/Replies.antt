-- ===== src/Assembly/Replies.antt =====
-- How a pass of `Service.run` in internal/core/turns/run.go ends: the images, the record of the exchange and the
-- reply.
use eggy.Prelude.{
  ℕ, not, ◌&&◌, ◌||◌, Option, none, some, List, [], ◌∷◌, ◌++◌, map, str_eq, if◌then◌else◌,
}
use eggy.Prelude.Result.{Result, ok, err, other}
use eggy.Text.{codes, trim_space, is_empty}
use eggy.Context.{Destination, conversation_id, web}
use eggy.Message.{ContentPart, Message}
use eggy.Loop.Run.{RunResult}
use eggy.Proactive.{silent_reply}
use eggy.Assembly.{Policy, HeartbeatResponse}
use eggy.Assembly.Parts.{
  durable_message_text, generated_images, recorded_reply, truncate_thread_title,
}
use eggy.Assembly.Steps.{M, ◌>>=◌, ◌>>◌, done, fails, try_call, always}
use eggy.Assembly.Service.{Collaborators, is_images_unsupported, user_message}

-- A structured decision of a heartbeat, its text, or the reply itself: whether nothing is said, what is
-- said in the reply's place, or neither.
unfoldable pub heartbeat_says : Option HeartbeatResponse → List ℕ → Option (Option (List ℕ))
unfolding silent_reply
heartbeat_says none content = if silent_reply content then some none else none
heartbeat_says (some response) content =
    if response.responded
    then if response.notify then some (some response.text) else some none
    else if silent_reply content
    then some none
    else none

module _ {W : Type 0} (c : Collaborators W) where
  -- The error of a call, passed on.
  unfoldable pub raise : Result (Unit {0}) → M W (Unit {0})
  unfolding done fails
  raise (ok _) = done tt
  raise (err e) = fails e

  abbrev pub cannot_show : List ℕ
  cannot_show =
      codes
        "I made an image, but this chat can't show images. Open the conversation in the web panel to see it."

  -- After an image: the next ones, or what is told of a surface that shows none.
  unfoldable pub after_image : M W (Unit {0}) → Result (Unit {0}) → M W (Unit {0})
  unfolding fails
  after_image rest (ok _) = rest
  after_image rest (err e) = if is_images_unsupported e then c.deliver cannot_show else fails e

  -- The loop of `deliverImages`; an image without an identifier is an index out of range.
  unfoldable pub deliver_each :
      (List ℕ → ContentPart → M W (Unit {0})) → List (List ℕ) → List ContentPart → M W (Unit {0})
  unfolding ◌>>=◌ try_call done fails after_image
  deliver_each show ids [] = done tt
  deliver_each show [] (i ∷ images) = fails (other "index out of range")
  deliver_each show (id ∷ ids) (i ∷ images) =
      try_call (show id i) >>= after_image (deliver_each show ids images)

  -- `deliverImages`.
  unfoldable pub deliver_images : List (List ℕ) → List ContentPart → M W (Unit {0})
  unfolding deliver_each done
  deliver_images ids [] = done tt
  deliver_images ids (i ∷ images) = elim c.deliver_image [
    | none ↦ c.deliver cannot_show
    | some show ↦ deliver_each show ids (i ∷ images)
  ]

  -- `keepImages`; a text that is empty stands for an image that was not kept.
  unfoldable pub save_each : List ContentPart → M W (List (List ℕ))
  unfolding ◌>>=◌ try_call done
  save_each [] = done []
  save_each (i ∷ images) =
      let rest = save_each images in
      try_call (c.save_image i) >>= λ r.
      rest >>= λ ids. done (elim r [ ok id ↦ id | err _ ↦ [] ] ∷ ids)

  unfoldable pub keep_images : List ℕ → List ContentPart → M W (List (List ℕ))
  unfolding save_each done
  keep_images trace images =
      if not c.keeps_images || is_empty trace then done (map (λ _. []) images) else save_each images

  module _ (policy : Policy) (dest : Destination) where
    -- The title of a thread of the panel; that it could not be set is only logged.
    unfoldable pub title_thread : Message → M W (Unit {0})
    unfolding ◌>>=◌ try_call done
    title_thread input =
        if c.has_threads && str_eq dest.kind web
        then (try_call (c.set_thread_title dest.thread_id (truncate_thread_title input.content))
            >>= λ _. done tt)
        else done tt

    -- The exchange in the conversation.
    unfoldable pub record_exchange : Message → Message → List (List ℕ) → M W (Unit {0})
    unfolding ◌>>=◌ done title_thread
    record_exchange input reply ids =
        let conversation = conversation_id dest in
        if not policy.record_conversation then done tt else do
          (if policy.input_already_recorded
              then done tt
              else c.record_message conversation (user_message (durable_message_text input))
                  policy.source)
          c.record_message conversation (recorded_reply reply ids) policy.source
          title_thread input

    -- The reply, after what the model thought.
    unfoldable pub deliver_reply : RunResult → List (List ℕ) → List ContentPart → M W (Unit {0})
    unfolding ◌>>=◌ done deliver_images
    deliver_reply result ids images = do
      (if is_empty (trim_space result.reasoning_content)
          then done tt
          else c.show_thinking >>= λ shows.
              if shows
              then c.deliver (codes "Thinking:" ++ 10 ∷ result.reasoning_content)
              else done tt)
      (if is_empty (trim_space result.message.content) && not (is_empty images)
          then done tt
          else c.deliver result.message.content)
      deliver_images ids images

    -- The reply, or what a heartbeat says in its place.
    unfoldable pub deliver_decided :
        RunResult → List (List ℕ) → List ContentPart → Option (Option (List ℕ)) → M W (Unit {0})
    unfolding done deliver_reply
    deliver_decided result ids images none = deliver_reply result ids images
    deliver_decided result ids images (some none) = done tt
    deliver_decided result ids images (some (some said)) = c.deliver said

    unfoldable pub answer : RunResult → List (List ℕ) → List ContentPart → M W (Unit {0})
    unfolding ◌>>=◌ always heartbeat_says deliver_decided deliver_reply
    answer result ids images =
        if policy.suppress_silent_reply
        then (always c.heartbeat_response >>= λ response.
            deliver_decided result ids images (heartbeat_says response result.message.content))
        else deliver_reply result ids images

    -- What follows a loop that came back without an error.
    unfoldable pub conclude : Message → List ℕ → RunResult → M W (Unit {0})
    unfolding ◌>>=◌ always keep_images record_exchange answer
    conclude input trace result = do
      drawn ← always c.drawn_images
      let images = drawn ++ generated_images result.message.parts
      ids ← keep_images trace images
      record_exchange input result.message ids
      answer result ids images

-- ===== src/Assembly/Pass.antt =====
-- A pass of `Service.run` in internal/core/turns/run.go from the command to the reply, and the passes that follow
-- when messages were never read.
use eggy.Prelude.{
  ℕ, ◌≡◌, String, true, not, ◌&&◌, Option, none, some, List, [], ◌∷◌, ◌++◌, if◌then◌else◌,
}
use eggy.Prelude.Result.{Error, Result, ok, err}
use eggy.Text.{codes, trim_space, is_empty}
use eggy.Context.{Destination, conversation_id}
use eggy.Message.{Modality, Message}
use eggy.Store.{State}
use eggy.Loop.{Allowlist}
use eggy.Assembly.{Policy}
use eggy.Assembly.Parts.{part_kinds, unsupported_parts_message, durable_message_text, merge_steered}
use eggy.Assembly.Steps.{M, ◌>>=◌, ◌>>◌, done, fails, try_call, always}
use eggy.Assembly.Service.{
  AgentContext, LoopRequest, LoopRun, Collaborators, Passed, joined, answered, is_canceled,
  is_step_limit, is_unsupported_input, is_owner_turn, user_message,
}
use eggy.Assembly.Replies.{raise, conclude}

abbrev pub stopped_text : List ℕ
stopped_text =
    codes "Stopped. The workspace is left as it was, so you can look at it or ask me to continue."

abbrev pub step_limit_text : List ℕ
step_limit_text =
    codes
      "I ran out of tool-call steps working on that before I could finish. Try a narrower request, or ask me to continue."

-- A session that cannot be had costs the trace its grouping.
abbrev pub session_of : Result String → Option String
session_of (ok session) = some session
session_of (err _) = none

module _ {W : Type 0} (c : Collaborators W) (policy : Policy) (dest : Destination) where
  -- The kind that the model is known not to take, if there is one.
  unfoldable pub refused_kind : String → List Modality → M W (Option Modality)
  unfolding ◌>>=◌ done always
  refused_kind alias [] = done none
  refused_kind alias (kind ∷ kinds) =
      let rest = refused_kind alias kinds in
      always (c.part_support alias kind) >>= λ s.
      if s.known && not s.supported then done (some kind) else rest

  -- The instructions, the policy's rules and the watch list.
  unfoldable pub shared_history : AgentContext → List Message → List Message
  shared_history documents instructions =
      let watched = policy.include_watch_document && not (is_empty (trim_space documents.watch)) in
      instructions
      ++ (policy.extra ++ (if watched then c.watch_message documents.watch ∷ [] else []))

  -- The recent messages, unless they cannot be had, which is only logged.
  unfoldable pub with_recent : List Message → Result (List Message) → List Message
  with_recent history (ok recent) = history ++ recent
  with_recent history (err _) = history

  unfoldable pub history_of : List Message → M W (List Message)
  unfolding ◌>>=◌ try_call done with_recent
  history_of history =
      if policy.include_recent_history
      then (try_call (c.recent_messages (conversation_id dest)) >>= λ r.
          done (with_recent history r))
      else done history

  -- From the end of the loop on; the usage is recorded whatever became of it.
  unfoldable pub settle_turn : Message → String → List ℕ → LoopRun → M W (Unit {0})
  unfolding ◌>>=◌ try_call always fails raise conclude
  settle_turn input alias trace ran = do
    elsewhere ← always c.stopped_elsewhere
    usage ← try_call (c.record_usage alias ran.result.usage)
    (if is_canceled ran.failure && not elsewhere
        then raise c usage >> c.deliver stopped_text
        else if is_step_limit ran.failure
        then raise c usage >> c.deliver step_limit_text
        else if is_unsupported_input ran.failure && not (is_empty input.parts)
        then raise c usage >> c.deliver (unsupported_parts_message alias (part_kinds input.parts))
        else elim ran.failure [
          | some e ↦ fails e
          | none ↦ raise c usage >> conclude c policy dest input trace ran.result
        ])

  -- From the loop on: the messages that it never read are taken before its end is told.
  unfoldable pub run_admitted : LoopRequest → M W (List Message)
  unfolding ◌>>=◌ try_call always done settle_turn
  run_admitted request = do
    session ← try_call (c.session_id (conversation_id dest))
    trace ← always (c.begin_trace (session_of session) (durable_message_text request.input))
    ran ← always (c.run_loop request)
    steered ← always c.release
    always (c.complete_trace ran)
    settle_turn request.input request.alias trace ran
    done steered

  -- The turn of the message's owner, up to the loop, for a model that takes its parts.
  unfoldable pub prepare : Message → Allowlist → AgentContext → State → String → M W (List Message)
  unfolding ◌>>=◌ always done shared_history history_of run_admitted
  prepare input allowed documents state alias = do
    modalities ← (if is_owner_turn policy.kind then always (c.image_output alias) else done [])
    effort ← c.reasoning_effort
    skills ← c.enabled_skills
    history ←
        history_of (shared_history documents (c.instructions documents state alias skills allowed))
    run_admitted (record {
      alias = alias;
      effort = effort;
      input = input;
      history = history;
      allowed = allowed;
      output_modalities = modalities;
    })

  -- The turn of the message's owner.
  unfoldable pub own_turn : Message → Allowlist → M W (List Message)
  unfolding ◌>>=◌ done refused_kind prepare
  own_turn input allowed = do
    documents ← c.load_context
    state ← c.load_state
    alias ← c.selected_model
    refused ← refused_kind alias (part_kinds input.parts)
    elim refused [
      | some kind ↦ c.deliver (unsupported_parts_message alias (kind ∷ [])) >> done []
      | none ↦ prepare input allowed documents state alias
    ]

  -- The deferred `Release`: what it returns is dropped.
  unfoldable pub releasing : M W (List Message) → M W Passed
  releasing m w =
      let (r, w') = m w in
      let (_, released) = c.release w' in
      (elim r [ ok steered ↦ ok (answered steered) | err e ↦ err e ], released)

  -- A message for a turn that another one runs.
  unfoldable pub join_turn : Message → M W Passed
  unfolding ◌>>=◌ done
  join_turn input =
      if policy.input_already_recorded
      then done joined
      else (c.record_message (conversation_id dest) (user_message (durable_message_text input))
            policy.source
          >> done joined)

  -- `run` without its deferred follow-up.
  unfoldable pub run_pass : Message → Allowlist → M W Passed
  unfolding ◌>>=◌ done fails own_turn releasing join_turn
  run_pass input allowed = do
    handled ← (if is_empty input.parts then c.execute input.content else done none)
    elim handled [
      | some (err e) ↦ fails e
      | some (ok output) ↦ c.deliver output >> done (answered [])
      | none ↦ c.admit input policy.record_conversation >>= λ owns.
          if owns then releasing (own_turn input allowed) else join_turn input
    ]

-- The policy of the turn that takes what was never read.
abbrev pub follow_up : Policy → Policy
follow_up policy = record policy { input_already_recorded = true }

-- `run`: a pass, and while a pass leaves messages that it never read, a turn of their own.
pub data Ran {W : Type 0} (c : Collaborators W) (dest : Destination) (allowed : Allowlist)
    : Policy → Message → W → Result (Unit {0}) → W → Type 0 where
  failed :
      (policy : Policy) (input : Message) (w w' : W) (e : Error)
      → run_pass c policy dest input allowed w ≡ (err e, w')
      → Ran c dest allowed policy input w (err e) w'
  taken :
      (policy : Policy) (input : Message) (w w' : W)
      → run_pass c policy dest input allowed w ≡ (ok joined, w')
      → Ran c dest allowed policy input w (ok tt) w'
  ended :
      (policy : Policy) (input : Message) (w w' : W)
      → run_pass c policy dest input allowed w ≡ (ok (answered []), w')
      → Ran c dest allowed policy input w (ok tt) w'
  followed :
      (policy : Policy) (input first : Message) (steered : List Message) (w w' w'' : W)
      (r : Result (Unit {0}))
      → run_pass c policy dest input allowed w ≡ (ok (answered (first ∷ steered)), w')
      → Ran c dest allowed (follow_up policy) (merge_steered (first ∷ steered)) w' r w''
      → Ran c dest allowed policy input w r w''

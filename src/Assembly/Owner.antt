-- ===== src/Assembly/Owner.antt =====
-- Who hears of a turn of internal/core/turns/run.go.
use eggy.Prelude.{ℕ, String, not, ◌&&◌, Option, none, some, List, [], ◌∷◌}
use eggy.Prelude.Result.{Error, Result}
use eggy.Text.{is_empty}
use eggy.Context.{Destination, conversation_id}
use eggy.Message.{Modality, Message}
use eggy.Store.{State}
use eggy.Loop.{Allowlist}
use eggy.Assembly.{Policy}
use eggy.Assembly.Parts.{durable_message_text, unsupported_parts_message, part_kinds}
use eggy.Assembly.Steps.{M, ◌>>◌, done, fails}
use eggy.Assembly.Service.{
  AgentContext, LoopRequest, LoopRun, Collaborators, is_canceled, is_step_limit,
  is_unsupported_input, is_owner_turn,
}
use eggy.Assembly.Replies.{raise, conclude}
use eggy.Assembly.Pass.{
  session_of, stopped_text, step_limit_text, refused_kind, with_recent, history_of, settle_turn,
  run_admitted, prepare, own_turn,
}
use eggy.Assembly.Told.{
  Grows, Tells, Grows-bind, Tells-rest, Tells-first, Grows-done, Grows-try_call, Tells-fails,
  Grows-if, Tells-if,
}
use eggy.Assembly.Laws.{Shows-Tells, Laws}
use eggy.Assembly.Answered.{Grows-raise}
use eggy.Assembly.Heard.{MaySilence, Tells-conclude}

module _ {W : Type 0} (told : W → ℕ) (c : Collaborators W) (l : Laws told c) (policy : Policy)
    (dest : Destination) where
  abbrev Told : {A : Type 0} → M W A → Type 0
  Told m = Tells told (MaySilence policy) m

  Told-deliver : (usage : Result (Unit {0})) (s : List ℕ) → Told (raise c usage >> c.deliver s)
  Told-deliver usage s =
      Tells-rest told _ _ _ (Grows-raise told c l usage)
        λ _. Shows-Tells told _ (c.deliver s) (l.deliver s)

  Told-ended :
      (input : Message) (trace : List ℕ) (ran : LoopRun) (usage : Result (Unit {0}))
      (failure : Option Error)
      → Told (elim failure [
        | some e ↦ fails e
        | none ↦ raise c usage >> conclude c policy dest input trace ran.result
      ])
  Told-ended input trace ran usage none =
      Tells-rest told _ _ _ (Grows-raise told c l usage)
        λ _. Tells-conclude told c l policy dest input trace ran.result
  Told-ended input trace ran usage (some e) = Tells-fails told _ e

  Told-settle_turn :
      (input : Message) (alias : String) (trace : List ℕ) (ran : LoopRun)
      → Told (settle_turn c policy dest input alias trace ran)
  unfolding settle_turn
  Told-settle_turn input alias trace ran = Tells-rest told _ _ _ l.stopped_elsewhere λ elsewhere.
      Tells-rest told _ _ _ (Grows-try_call told _ (l.record_usage alias ran.result.usage)) λ usage.
        Tells-if told _ (is_canceled ran.failure && not elsewhere) _ _
          (Told-deliver usage stopped_text)
          (Tells-if told _ (is_step_limit ran.failure) _ _ (Told-deliver usage step_limit_text) (
            Tells-if told _ (is_unsupported_input ran.failure && not (is_empty input.parts)) _ _
              (Told-deliver usage (unsupported_parts_message alias (part_kinds input.parts)))
              (Told-ended input trace ran usage ran.failure)))

  Told-run_admitted : (request : LoopRequest) → Told (run_admitted c policy dest request)
  unfolding run_admitted
  Told-run_admitted request =
      Tells-rest told _ _ _ (Grows-try_call told _ (l.session_id (conversation_id dest))) λ session.
        Tells-rest told _ _ _
          (l.begin_trace (session_of session) (durable_message_text request.input))
          λ trace. Tells-rest told _ _ _ (l.run_loop request) λ ran.
            Tells-rest told _ _ _ l.release λ steered.
              Tells-rest told _ _ _ (l.complete_trace ran) λ _.
                Tells-first told _ _ _ (Told-settle_turn request.input request.alias trace ran)
                  λ _. Grows-done told steered

  Grows-history_of : (history : List Message) → Grows told (history_of c policy dest history)
  unfolding history_of
  Grows-history_of history =
      Grows-if told policy.include_recent_history _ _
        (Grows-bind told _ _ (Grows-try_call told _ (l.recent_messages (conversation_id dest)))
          λ r. Grows-done told (with_recent c policy dest history r))
        (Grows-done told history)

  Told-prepare :
      (input : Message) (allowed : Allowlist) (documents : AgentContext) (state : State)
      (alias : String)
      → Told (prepare c policy dest input allowed documents state alias)
  unfolding prepare
  Told-prepare input allowed documents state alias =
      Tells-rest told _ _ _
        (Grows-if told (is_owner_turn policy.kind) _ _ (l.image_output alias) (Grows-done told []))
        λ modalities. Tells-rest told _ _ _ l.reasoning_effort λ effort.
          Tells-rest told _ _ _ l.enabled_skills
            λ skills. Tells-rest told _ _ _ (Grows-history_of _) λ history. Told-run_admitted _

  Grows-refused_kind :
      (alias : String) (kinds : List Modality) → Grows told (refused_kind c policy dest alias kinds)
  unfolding refused_kind
  Grows-refused_kind alias [] = Grows-done told none
  Grows-refused_kind alias (kind ∷ kinds) = Grows-bind told _ _ (l.part_support alias kind) λ s.
      Grows-if told (s.known && not s.supported) _ _ (Grows-done told (some kind))
        (Grows-refused_kind alias kinds)

  Told-refused :
      (input : Message) (allowed : Allowlist) (documents : AgentContext) (state : State)
      (alias : String) (said : Modality → List ℕ) (refused : Option Modality)
      → Told {A = List Message} (elim refused [
        | some kind ↦ c.deliver (said kind) >> done []
        | none ↦ prepare c policy dest input allowed documents state alias
      ])
  Told-refused input allowed documents state alias said none =
      Told-prepare input allowed documents state alias
  Told-refused input allowed documents state alias said (some kind) =
      Tells-first told _ _ _ (Shows-Tells told _ _ (l.deliver (said kind))) λ _. Grows-done told []

  pub Told-own_turn :
      (input : Message) (allowed : Allowlist) → Told (own_turn c policy dest input allowed)
  unfolding own_turn
  Told-own_turn input allowed = Tells-rest told _ _ _ l.load_context λ documents.
      Tells-rest told _ _ _ l.load_state λ state. Tells-rest told _ _ _ l.selected_model λ alias.
        Tells-rest told _ _ _ (Grows-refused_kind alias (part_kinds input.parts))
          λ refused. Told-refused input allowed documents state alias _ refused

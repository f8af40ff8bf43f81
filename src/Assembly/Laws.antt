-- ===== src/Assembly/Laws.antt =====
-- What `Told` asks of the calls of internal/core/turns/collaborators.go: none takes back what the owner was shown, and
-- a delivery that reports no error shows something.
use eggy.Prelude.{ℕ, ◌<◌, ◌≡◌, String, Bool, Option, some, List, inr}
use eggy.Prelude.Result.{ok}
use eggy.Message.{Modality, ContentPart, Message, ModelUsage}
use eggy.Assembly.Steps.{M, always}
use eggy.Assembly.Service.{LoopRequest, LoopRun, Collaborators}
use eggy.Assembly.Told.{Grows, Tells}

module _ {W : Type 0} (told : W → ℕ) where
  -- A delivery that reports no error is seen.
  pub record Shows (m : M W (Unit {0})) : Type 0 where
    pub kept : Grows told m
    pub shown : (w : W) → (m w).0 ≡ ok tt → told w < told (m w).1

  pub Shows-Tells : (Silence : Type 0) (m : M W (Unit {0})) → Shows m → Tells told Silence m
  Shows-Tells Silence m s = record { kept = s.kept; tells = λ w a h. inr (s.shown w h) }

  pub record Laws (c : Collaborators W) : Type 0 where
    pub execute : (s : List ℕ) → Grows told (c.execute s)
    pub admit : (m : Message) (records : Bool) → Grows told (c.admit m records)
    pub release : Grows told (always c.release)
    pub load_context : Grows told c.load_context
    pub load_state : Grows told c.load_state
    pub selected_model : Grows told c.selected_model
    pub reasoning_effort : Grows told c.reasoning_effort
    pub enabled_skills : Grows told c.enabled_skills
    pub part_support :
        (alias : String) (kind : Modality) → Grows told (always (c.part_support alias kind))
    pub image_output : (alias : String) → Grows told (always (c.image_output alias))
    pub recent_messages : (id : String) → Grows told (c.recent_messages id)
    pub session_id : (id : String) → Grows told (c.session_id id)
    pub begin_trace :
        (session : Option String) (s : List ℕ) → Grows told (always (c.begin_trace session s))
    pub run_loop : (r : LoopRequest) → Grows told (always (c.run_loop r))
    pub complete_trace : (r : LoopRun) → Grows told (always (c.complete_trace r))
    pub stopped_elsewhere : Grows told (always c.stopped_elsewhere)
    pub record_usage : (alias : String) (u : ModelUsage) → Grows told (c.record_usage alias u)
    pub drawn_images : Grows told (always c.drawn_images)
    pub save_image : (i : ContentPart) → Grows told (c.save_image i)
    pub record_message :
        (id : String) (m : Message) (source : String) → Grows told (c.record_message id m source)
    pub set_thread_title : (id : String) (s : List ℕ) → Grows told (c.set_thread_title id s)
    pub heartbeat_response : Grows told (always c.heartbeat_response)
    pub show_thinking : Grows told c.show_thinking
    pub deliver : (s : List ℕ) → Shows (c.deliver s)
    pub deliver_image :
        (show : List ℕ → ContentPart → M W (Unit {0}))
        → c.deliver_image ≡ some show
        → (id : List ℕ) (i : ContentPart) → Shows (show id i)

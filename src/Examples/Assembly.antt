-- ===== src/Examples/Assembly.antt =====
-- The theorems on turns, on a world that is the texts that the owner was shown.
use eggy.Prelude.{
  ℕ, ◌<◌, ◌≡◌, ◌⊎◌, refl, Bool, true, false, none, some, List, [], ◌∷◌, arith, length,
}
use eggy.Prelude.Dict.{get}
use eggy.Prelude.Result.{ok}
use eggy.Text.{codes, trim_space, is_empty}
use eggy.Context.{Destination}
use eggy.Message.{Message, assistant, no_usage}
use eggy.Approvals.{pending}
use eggy.Store.{initial_state}
use eggy.Loop.Run.{RunResult}
use eggy.Assembly.{owner, Policy}
use eggy.Assembly.Parts.{merge_steered, part_kinds, generated_images}
use eggy.Assembly.Steered.{Within, merge_steered-Within}
use eggy.Assembly.Steps.{M, always}
use eggy.Assembly.Service.{AgentContext, Collaborators, joined, answered, user_message}
use eggy.Assembly.Replies.{heartbeat_says, answer}
use eggy.Assembly.Pass.{run_pass, Ran, ended}
use eggy.Assembly.Told.{Grows}
use eggy.Assembly.Laws.{Laws}
use eggy.Assembly.Heard.{answer-heard}
use eggy.Assembly.Turn.{run-heard}
use eggy.Assembly.Approved.{ApprovalDecision, as_text, Deciders, tapped_approval, approve_tap}
use eggy.Assembly.Tap.{Outcome, approval-told, approval-rejected}
use eggy.Assembly.Heartbeat.{ahead, RespondTool, executed, fresh_response}
use eggy.Assembly.Beat.{heartbeat_says-written}
use eggy.Examples.{state_with, approval as pending_approval}

abbrev Shown : Type 0
Shown = List (List ℕ)

abbrev gives : {A : Type 0} → A → M Shown A
gives a w = (ok a, w)

abbrev reads : {A : Type 0} → A → Shown → A × Shown
reads a w = (a, w)

abbrev show : List ℕ → M Shown (Unit {0})
show s w = (ok tt, s ∷ w)

abbrev no_context : AgentContext
no_context = record {
  soul = [];
  user_notes = [];
  memory = [];
  watch = [];
  user_max_bytes = 0;
  memory_max_bytes = 0;
  watch_max_bytes = 0;
}

abbrev hello : RunResult
hello = record {
  message = record (user_message (codes "Hello")) { role = assistant };
  usage = no_usage;
  reasoning_content = [];
  checkpoint = [];
}

abbrev plain : Collaborators Shown
plain = record {
  execute = λ s. gives none;
  admit = λ m records. gives true;
  release = reads [];
  load_context = gives no_context;
  load_state = gives initial_state;
  selected_model = gives "small";
  reasoning_effort = gives "";
  enabled_skills = gives [];
  part_support = λ alias kind. reads (record { supported = false; known = false });
  image_output = λ alias. reads [];
  instructions = λ documents state alias skills allowed. [];
  watch_message = λ s. user_message s;
  recent_messages = λ id. gives [];
  session_id = λ id. gives "s1";
  begin_trace = λ session s. reads [];
  run_loop = λ request. reads (record { result = hello; failure = none });
  complete_trace = λ ran. reads tt;
  stopped_elsewhere = reads false;
  record_usage = λ alias u. gives tt;
  drawn_images = reads [];
  save_image = λ i. gives [];
  keeps_images = false;
  record_message = λ id m source. gives tt;
  has_threads = false;
  set_thread_title = λ id s. gives tt;
  heartbeat_response = reads none;
  show_thinking = gives true;
  deliver = show;
  deliver_image = none;
}

still : {A : Type 0} (a : A) → Grows length (gives a)
still a = record { grows = λ w. omega arith }

still_read : {A : Type 0} (a : A) → Grows length (always (reads a))
unfolding always
still_read a = record { grows = λ w. omega arith }

plain-Laws : Laws length plain
plain-Laws = record {
  execute = λ s. still none;
  admit = λ m records. still true;
  release = still_read [];
  load_context = still no_context;
  load_state = still initial_state;
  selected_model = still "small";
  reasoning_effort = still "";
  enabled_skills = still [];
  part_support = λ alias kind. still_read _;
  image_output = λ alias. still_read [];
  recent_messages = λ id. still [];
  session_id = λ id. still "s1";
  begin_trace = λ session s. still_read [];
  run_loop = λ r. still_read _;
  complete_trace = λ r. still_read tt;
  stopped_elsewhere = still_read false;
  record_usage = λ alias u. still tt;
  drawn_images = still_read [];
  save_image = λ i. still [];
  record_message = λ id m source. still tt;
  set_thread_title = λ id s. still tt;
  heartbeat_response = still_read none;
  show_thinking = still true;
  deliver = λ s. record { kept = record { grows = λ w. omega arith }; shown = λ w h. omega arith };
  deliver_image = λ show known. absurd (ground (arith, known));
}

abbrev owner_policy : Policy
owner_policy = record {
  include_recent_history = true;
  record_conversation = true;
  source = "telegram";
  extra = [];
  suppress_silent_reply = false;
  include_watch_document = false;
  input_already_recorded = false;
  kind = owner;
}

abbrev telegram_chat : Destination
telegram_chat = record { kind = "telegram"; thread_id = ""; channel_id = "" }

abbrev hi : Message
hi = user_message (codes "Hi")

hi-answered :
    run_pass plain owner_policy telegram_chat hi none [] ≡ (ok (answered []), codes "Hello" ∷ [])
unfolding run_pass part_kinds generated_images
hi-answered = refl

hi-Ran : Ran plain telegram_chat none owner_policy hi [] (ok tt) (codes "Hello" ∷ [])
hi-Ran = ended owner_policy hi [] (codes "Hello" ∷ []) hi-answered

run-heard_example :
    (0 < 1)
    ⊎ ((owner_policy.suppress_silent_reply ≡ true)
        ⊎ ((run_pass plain owner_policy telegram_chat hi none []).0 ≡ ok joined))
run-heard_example =
    run-heard length plain plain-Laws telegram_chat none owner_policy hi [] (codes "Hello" ∷ [])
      hi-Ran

hello-answered : (answer plain owner_policy telegram_chat hello [] [] []).0 ≡ ok tt
unfolding answer
hello-answered = refl

answer-heard_example :
    (0 < length (answer plain owner_policy telegram_chat hello [] [] []).1)
    ⊎ ((owner_policy.suppress_silent_reply ≡ true)
        × (heartbeat_says none (codes "Hello") ≡ some none))
answer-heard_example =
    answer-heard length plain plain-Laws owner_policy telegram_chat hello [] [] [] hello-answered

merge_steered-Within_example :
    Within (trim_space hi.content) (merge_steered (hi ∷ hi ∷ [])).content
    × Within hi.parts (merge_steered (hi ∷ hi ∷ [])).parts
merge_steered-Within_example = merge_steered-Within (hi ∷ []) [] hi

abbrev deciders : Deciders Shown
deciders = record {
  load_state = gives (state_with pending);
  decide = λ dest id approved. gives tt;
  deliver_outcome = λ dest message s. show s;
  executors = λ action. some (λ dest a. gives (as_text (codes "sent")));
  zero_approval = pending_approval pending;
  summary_of = λ s. none;
  text_of = λ e. codes "error";
  join_errors = λ e e'. e;
}

abbrev tap : Bool → ApprovalDecision
tap approved = record { approval_id = "a1"; approved = approved; message_id = "m1" }

tap-done : approve_tap deciders (tap true) [] ≡ (ok tt, codes "Done. Send it" ∷ [])
unfolding approve_tap get
tap-done = refl

approval-told_example :
    Outcome deciders
      (tapped_approval deciders (state_with pending) "a1").destination
      "m1"
      (approve_tap deciders (tap true) []).0
      (approve_tap deciders (tap true) []).1
approval-told_example = approval-told deciders (tap true) [] (state_with pending) [] refl

approval-rejected_example :
    approve_tap deciders (tap false) []
    ≡ approve_tap (record deciders { executors = λ action. none }) (tap false) []
approval-rejected_example = approval-rejected deciders (tap false) (λ action. none) refl []

abbrev respond_tool : RespondTool
respond_tool = record {
  decode = λ raw.
      ok (record { notify = true; notification_text = raw; next_check = codes "20m"; watch = [] });
  parse_duration = λ s. some (ahead 1200);
  validate = λ s. ok tt;
  replace_watch = λ s. ok tt;
}

rings :
    heartbeat_says (executed respond_tool (codes "Ring" ∷ []) (some fresh_response)) []
    ≡ some (some (codes "Ring"))
unfolding executed heartbeat_says
rings = refl

heartbeat_says-written_example : is_empty (trim_space (codes "Ring")) ≡ false
unfolding trim_space
heartbeat_says-written_example =
    heartbeat_says-written respond_tool (codes "Ring" ∷ []) [] (codes "Ring") rings

-- ===== src/Assembly/Heartbeat.antt =====
-- The tool `heartbeat_respond` of internal/core/services/heartbeat_tools.go, by which a heartbeat says what it decided.
use eggy.Prelude.{
  ℕ, zero, suc, Bool, true, false, ◌&&◌, Option, none, some, List, [], ◌∷◌, if◌then◌else◌,
}
use eggy.Prelude.Result.{Result, ok, err, ◌>>=◌, other}
use eggy.Text.{codes, trim_space, is_empty}
use eggy.Assembly.{HeartbeatResponse}

pub record RespondInput : Type 0 where
  pub notify : Bool
  pub notification_text : List ℕ
  pub next_check : List ℕ
  pub watch : List ℕ

-- `time.ParseDuration` answers a count of nanoseconds that may be negative.
pub data Duration : Type 0 where
  ahead : ℕ → Duration
  back : ℕ → Duration

-- `DecodeToolInput`, `time.ParseDuration`, the check for secrets and the write of the watch list.
pub record RespondTool : Type 0 where
  pub decode : List ℕ → Result RespondInput
  pub parse_duration : List ℕ → Option Duration
  pub validate : List ℕ → Result (Unit {0})
  pub replace_watch : List ℕ → Result (Unit {0})

module _ (t : RespondTool) where
  unfoldable pub positive_duration : Duration → Result ℕ
  positive_duration (ahead zero) = err (other "next_check must be a positive duration")
  positive_duration (ahead (suc n)) = ok (suc n)
  positive_duration (back n) = err (other "next_check must be a positive duration")

  -- `parseNextCheck`.
  unfoldable pub parse_next_check : List ℕ → Result ℕ
  unfolding trim_space positive_duration
  parse_next_check value =
      if is_empty (trim_space value)
      then err (other "next_check is required")
      else elim (t.parse_duration (trim_space value)) [
        | none ↦ err (other "next_check is not a duration")
        | some parsed ↦ positive_duration parsed
      ]

  -- The watch list, once the response is recorded.
  unfoldable pub annotate : List ℕ → Result (List ℕ)
  unfolding trim_space
  annotate watch =
      if is_empty (trim_space watch)
      then ok (codes "{\"acknowledged\":true}")
      else do _ ← t.validate watch; _ ← t.replace_watch watch; ok (codes "{\"acknowledged\":true}")

  -- The checks before it is recorded.
  unfoldable pub checked : RespondInput → Result ℕ
  unfolding trim_space parse_next_check
  checked input =
      if input.notify && is_empty (trim_space input.notification_text)
      then err (other "notification_text is required when notify is true")
      else parse_next_check input.next_check

  unfoldable pub recorded_response : RespondInput → ℕ → HeartbeatResponse
  unfolding trim_space
  recorded_response input next = record {
    responded = true;
    notify = input.notify;
    text = trim_space input.notification_text;
    next_check = next;
  }

  -- `Execute`, with the response on the turn's context.
  unfoldable pub execute_respond :
      List ℕ → Option HeartbeatResponse → Result (List ℕ) × Option HeartbeatResponse
  unfolding checked recorded_response annotate
  execute_respond raw response = elim (t.decode raw) [
    | err e ↦ (err e, response)
    | ok input ↦ elim (checked input) [
      | err e ↦ (err e, response)
      | ok next ↦ elim response [
        | none ↦ (err (other "heartbeat_respond is only available on a heartbeat turn"), none)
        | some _ ↦ (annotate input.watch, some (recorded_response input next))
      ]
    ]
  ]

  -- The response after the calls of a turn, in their order.
  unfoldable pub executed : List (List ℕ) → Option HeartbeatResponse → Option HeartbeatResponse
  unfolding execute_respond
  executed [] response = response
  executed (raw ∷ calls) response = executed calls (execute_respond raw response).1

-- `WithHeartbeatResponse`.
abbrev pub fresh_response : HeartbeatResponse
fresh_response = record { responded = false; notify = false; text = []; next_check = 0 }

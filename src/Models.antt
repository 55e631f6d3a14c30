-- ===== src/Models.antt =====
-- core/models.py: the statuses, the event types and the reasons, tasks and events, and the JSON
-- values of payloads. A dictionary of JSON values inside one is `Members`; at the top it is a `Dict`.
use cloudagentperform.Base.{
  ℕ, String, Bool, true, false, Option, List, [], ◌∷◌, ◌||◌, ◌==◌, any, Dict,
}

-- tasks.status has a CHECK constraint that admits these five texts only.
pub data Status : Type 0 where
  queued running succeeded failed cancelled : Status

-- `status in TERMINAL`
abbrev pub is_terminal : Status → Bool
is_terminal queued = false
is_terminal running = false
is_terminal succeeded = true
is_terminal failed = true
is_terminal cancelled = true

abbrev pub is_queued : Status → Bool
is_queued queued = true
is_queued _ = false

abbrev pub is_running : Status → Bool
is_running running = true
is_running _ = false

abbrev pub is_succeeded : Status → Bool
is_succeeded succeeded = true
is_succeeded _ = false

-- The text that the column and the payloads hold.
abbrev pub status_text : Status → String
status_text queued = "queued"
status_text running = "running"
status_text succeeded = "succeeded"
status_text failed = "failed"
status_text cancelled = "cancelled"

abbrev pub ev_started : String
ev_started = "job.started"

abbrev pub ev_message : String
ev_message = "llm.message"

abbrev pub ev_tool_call : String
ev_tool_call = "tool.call"

abbrev pub ev_tool_result : String
ev_tool_result = "tool.result"

abbrev pub ev_completed : String
ev_completed = "job.completed"

abbrev pub ev_failed : String
ev_failed = "job.failed"

-- `type_ in EVENT_TYPES`
unfoldable pub in_event_types : String → Bool
in_event_types t =
    any (λ e. e == t)
      (ev_started ∷ ev_message ∷ ev_tool_call ∷ ev_tool_result ∷ ev_completed ∷ ev_failed ∷ [])

-- `type in (EV_COMPLETED, EV_FAILED)`, by which readers know that a task is over.
abbrev pub ends_stream : String → Bool
ends_stream t = t == ev_completed || t == ev_failed

abbrev pub r_model : String
r_model = "model_error"

abbrev pub r_tool : String
r_tool = "tool_error"

abbrev pub r_oom : String
r_oom = "sandbox_oom"

abbrev pub r_timeout : String
r_timeout = "timeout"

abbrev pub r_max_steps : String
r_max_steps = "max_steps"

abbrev pub r_retries : String
r_retries = "retries_exhausted"

abbrev pub r_cancelled : String
r_cancelled = "cancelled"

mutual
  pub data Json : Type 0 where
    null : Json
    bool : Bool → Json
    num : ℕ → Json
    str : String → Json
    arr : Items → Json
    obj : Members → Json

  pub data Items : Type 0 where
    no_items : Items
    item : Json → Items → Items

  pub data Members : Type 0 where
    no_members : Members
    member : String → Json → Members → Members

-- A dictionary as a value inside another.
unfoldable pub members : Dict Json → Members
members [] = no_members
members ((k, v) ∷ d) = member k v (members d)

unfoldable pub counts : Dict ℕ → Members
counts [] = no_members
counts ((k, n) ∷ d) = member k (num n) (counts d)

unfoldable pub texts : List String → Items
texts [] = no_items
texts (s ∷ l) = item (str s) (texts l)

pub record Task : Type 0 where
  pub id : String
  pub prompt : String
  pub status : Status
  pub attempt : ℕ
  pub max_attempts : ℕ
  pub worker_id : Option String
  pub failure_reason : Option String
  pub result_summary : Option String
  pub usage : Dict ℕ
  pub idempotency_key : Option String
  pub cancel_requested : Bool
  pub created_at : String
  pub updated_at : String

pub record Event : Type 0 where
  pub id : ℕ
  pub task_id : String
  pub attempt : ℕ
  pub type : String
  pub ts : String
  pub payload : Dict Json

-- ===== src/Store/Columns.antt =====
-- The columns of the two tables (core/store.py, `_SCHEMA`), and `_task` and `_event`, which read a row. The
-- other modules use the task and the event that a row stands for. `json` is a parameter.
pub mod Readings
use cloudagentperform.Base.{
  ℕ, ◌≡◌, String, Bool, not, Option, none, some, List, [], ◌∷◌, ◌==◌, if◌then◌else◌, nat_eq, any,
  Dict,
}
use cloudagentperform.Models.{
  Status, queued, running, succeeded, failed, cancelled, status_text, Json, Task, Event,
}

-- `CHECK(status IN (…))`
unfoldable pub admitted : String → Bool
admitted s = any (λ x. x == s) ("queued" ∷ "running" ∷ "succeeded" ∷ "failed" ∷ "cancelled" ∷ [])

pub record TaskRow : Type 0 where
  pub id : String
  pub prompt : String
  pub status : String
  pub attempt : ℕ
  pub max_attempts : ℕ
  pub worker_id : Option String
  pub failure_reason : Option String
  pub result_summary : Option String
  pub usage_json : String
  pub idempotency_key : Option String
  pub cancel_requested : ℕ
  pub created_at : String
  pub updated_at : String

pub record EventRow : Type 0 where
  pub id : ℕ
  pub task_id : String
  pub attempt : ℕ
  pub type : String
  pub ts : String
  pub payload : String

-- `json.loads` and `json.dumps` of the two kinds of dictionaries; `none` stands for a text that is not
-- one of these.
pub record JsonText : Type 0 where
  pub loads_usage : String → Option (Dict ℕ)
  pub dumps_usage : Dict ℕ → String
  pub loads_payload : String → Option (Dict Json)
  pub dumps_payload : Dict Json → String

-- The status that a text stands for. The code keeps the text itself.
unfoldable pub status_of : String → Option Status
status_of s =
    if s == "queued"
    then some queued
    else if s == "running"
    then some running
    else if s == "succeeded"
    then some succeeded
    else if s == "failed"
    then some failed
    else if s == "cancelled"
    then some cancelled
    else none

-- What `INSERT INTO tasks` of `create_task` stores, with the defaults of the other columns.
unfoldable pub inserted : String → String → String → Option String → ℕ → TaskRow
inserted tid now prompt key max = record {
  id = tid;
  prompt = prompt;
  status = status_text queued;
  attempt = 0;
  max_attempts = max;
  worker_id = none;
  failure_reason = none;
  result_summary = none;
  usage_json = "{}";
  idempotency_key = key;
  cancel_requested = 0;
  created_at = now;
  updated_at = now;
}

module _ (j : JsonText) where
  -- `_task`, from the status and the usage that are read
  abbrev pub task_from : TaskRow → Option Status → Option (Dict ℕ) → Option Task
  task_from row (some status) (some usage) = some (record {
    id = row.id;
    prompt = row.prompt;
    status = status;
    attempt = row.attempt;
    max_attempts = row.max_attempts;
    worker_id = row.worker_id;
    failure_reason = row.failure_reason;
    result_summary = row.result_summary;
    usage = usage;
    idempotency_key = row.idempotency_key;
    cancel_requested = not (nat_eq row.cancel_requested 0);
    created_at = row.created_at;
    updated_at = row.updated_at;
  })
  task_from row none usage = none
  task_from row (some status) none = none

  unfoldable pub task_of : TaskRow → Option Task
  unfolding status_of
  task_of row = task_from row (status_of row.status) (j.loads_usage row.usage_json)

  -- `_event`
  abbrev pub event_from : EventRow → Option (Dict Json) → Option Event
  event_from row none = none
  event_from row (some payload) = some (record {
    id = row.id;
    task_id = row.task_id;
    attempt = row.attempt;
    type = row.type;
    ts = row.ts;
    payload = payload;
  })

  unfoldable pub event_of : EventRow → Option Event
  event_of row = event_from row (j.loads_payload row.payload)

  -- The row of a task, as the methods write its columns.
  unfoldable pub row_of : Task → TaskRow
  row_of t = record {
    id = t.id;
    prompt = t.prompt;
    status = status_text t.status;
    attempt = t.attempt;
    max_attempts = t.max_attempts;
    worker_id = t.worker_id;
    failure_reason = t.failure_reason;
    result_summary = t.result_summary;
    usage_json = j.dumps_usage t.usage;
    idempotency_key = t.idempotency_key;
    cancel_requested = if t.cancel_requested then 1 else 0;
    created_at = t.created_at;
    updated_at = t.updated_at;
  }

  -- The row of an event, as `_append_event` writes it.
  unfoldable pub event_row : Event → EventRow
  event_row e = record {
    id = e.id;
    task_id = e.task_id;
    attempt = e.attempt;
    type = e.type;
    ts = e.ts;
    payload = j.dumps_payload e.payload;
  }

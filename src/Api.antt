-- ===== src/Api.antt =====
-- api/main.py: the handlers that create, read and cancel a task, over the store and Redis. A handler
-- calls the store more than once; `meanwhile` is what other processes run between two of its calls.
pub mod Stream
pub mod Frames
pub mod Artifacts
pub mod Inside
pub mod Listing
pub mod Events
pub mod Cancel
use cloudagentperform.Base.{ℕ, String, Bool, true, false, Option, none, some, List, if◌then◌else◌}
use cloudagentperform.Models.{Status, cancelled, is_terminal, Task, Event}
use cloudagentperform.Store.Table.{Store, StoreError, Result, ok, err}
use cloudagentperform.Store.{get, create_task, cancel_queued, request_cancel}
use cloudagentperform.Store.History.{Txn, run}
use cloudagentperform.Redis.{Redis}
use cloudagentperform.Bus.{enqueue, publish_event}
use cloudagentperform.Reconcile.{World}

-- What a handler answers: `_task_json` of a task with a status code, the object that cancel returns,
-- an `HTTPException`, or an exception of the store.
pub data Answer : Type 0 where
  task_json : ℕ → Task → Answer
  cancel_json : String → Status → Bool → Answer
  http_error : ℕ → String → Answer
  store_error : StoreError → Answer

module _ (r : Redis) where
  open r use {State}

  abbrev pub created : Result (Task × Bool) × Store → World State → Answer × World State
  created (ok (t, true), s') w =
      (task_json 201 t, record { store = s'; redis = enqueue r t.id w.redis })
  created (ok (t, false), s') w = (task_json 200 t, record w { store = s' })
  created (err e, s') w = (store_error e, record w { store = s' })

  -- `POST /tasks`, with the default of `max_attempts`
  unfoldable pub post_task :
      String → String → String → Option String → World State → Answer × World State
  post_task tid now prompt key w = created (create_task tid now prompt key 2 w.store) w

  -- `GET /tasks/{task_id}`
  unfoldable pub get_task : String → World State → Answer
  get_task tid w = elim (get tid w.store) [
    | none ↦ http_error 404 "task not found"
    | some t ↦ task_json 200 t
  ]

  -- From the outcome of `cancel_queued` on.
  abbrev pub cancelling :
      List Txn
      → String
      → Task
      → String
      → Result (Option Event) × Store
      → World State
      → Answer × World State
  cancelling meanwhile tid t now (ok (some ev), s') w =
      (cancel_json t.id cancelled false, record { store = s'; redis = publish_event r ev w.redis })
  cancelling meanwhile tid t now (ok none, s') w = (
    cancel_json t.id t.status true,
    record w { store = (request_cancel tid now (run meanwhile s')).1 },
  )
  cancelling meanwhile tid t now (err e, s') w = (store_error e, record w { store = s' })

  -- `POST /tasks/{task_id}/cancel`
  unfoldable pub cancel_task :
      String → String → String → List Txn → List Txn → World State → Answer × World State
  cancel_task tid now ts first second w = elim (get tid w.store) [
    | none ↦ (http_error 404 "task not found", w)
    | some t ↦
        if is_terminal t.status
        then (cancel_json t.id t.status false, w)
        else cancelling second tid t now (cancel_queued tid now ts (run first w.store)) w
  ]

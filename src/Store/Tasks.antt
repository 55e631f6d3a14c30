-- ===== src/Store/Tasks.antt =====
-- core/store.py: `TaskStore.create_task`, `get`, `claim` and the events.
use cloudagentperform.Base.{
  ℕ, ◌+◌, String, Bool, true, false, Option, none, some, List, [], ◌∷◌, ◌++◌, ◌&&◌, ◌==◌,
  if◌then◌else◌, ltb, nat_eq, any, Dict,
}
use cloudagentperform.Models.{queued, running, is_queued, in_event_types, Json, Task, Event}
use cloudagentperform.Store.Table.{
  Store, integrity_error, assertion_error, Result, ok, err, select_id, select_key, update_tasks,
  rowcount, clashes,
}

-- create_task ---------------------------------------------------------------------------------

-- `if idempotency_key:` is false of the empty text too.
abbrev pub row_with_key : Option String → List Task → Option Task
row_with_key none ts = none
row_with_key (some k) ts = if k == "" then none else select_key k ts

abbrev pub new_row : String → String → String → Option String → ℕ → Task
new_row tid now prompt key max = record {
  id = tid;
  prompt = prompt;
  status = queued;
  attempt = 0;
  max_attempts = max;
  worker_id = none;
  failure_reason = none;
  result_summary = none;
  usage = [];
  idempotency_key = key;
  cancel_requested = false;
  created_at = now;
  updated_at = now;
}

unfoldable pub create_task :
    String → String → String → Option String → ℕ → Store → Result (Task × Bool) × Store
create_task tid now prompt key max s = elim (row_with_key key s.tasks) [
  | some row ↦ (ok (row, false), s)
  | none ↦
      let row = new_row tid now prompt key max in
      if any (clashes row) s.tasks
      then (err integrity_error, s)
      else (ok (row, true), record s { tasks = s.tasks ++ row ∷ [] })
]

unfoldable pub get : String → Store → Option Task
get tid s = select_id tid s.tasks

-- claim ---------------------------------------------------------------------------------------

abbrev pub claimable : Task → Bool
claimable t = is_queued t.status && ltb t.attempt t.max_attempts

abbrev pub claimed : String → String → Task → Task
claimed worker now t = record t {
  status = running;
  attempt = t.attempt + 1;
  worker_id = some worker;
  updated_at = now;
}

unfoldable pub claim : String → String → String → Store → Option Task × Store
unfolding update_tasks rowcount get
claim tid worker now s =
    let s' = update_tasks tid claimable (claimed worker now) s in
    if nat_eq (rowcount tid claimable s) 1 then (get tid s', s') else (none, s')

-- events --------------------------------------------------------------------------------------

-- `_append_event`, inside the transaction of its caller.
unfoldable pub insert_event :
    String → ℕ → String → String → Dict Json → Store → Result Event × Store
insert_event tid attempt type ts payload s =
    if in_event_types type
    then (let ev : Event = record {
      id = s.last_id + 1;
      task_id = tid;
      attempt = attempt;
      type = type;
      ts = ts;
      payload = payload;
    } in
        (ok ev, record s { events = s.events ++ ev ∷ []; last_id = s.last_id + 1 }))
    else (err assertion_error, s)

unfoldable pub append_event :
    String → ℕ → String → String → Dict Json → Store → Result Event × Store
unfolding insert_event
append_event tid attempt type ts payload s = insert_event tid attempt type ts payload s

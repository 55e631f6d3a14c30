-- ===== src/Tests/Systems.antt =====
-- The processes together at concrete inputs.
use cloudagentperform.Base.{◌≡◌, refl, arith, false, none, some, List, [], ◌∷◌, ◌++◌}
use cloudagentperform.Models.{succeeded, running, Task, in_event_types}
use cloudagentperform.Store.Table.{select_id, update_rows}
use cloudagentperform.Store.{get, create_task, claim, append_event, finish, tasks_with_status}
use cloudagentperform.Store.History.{message}
use cloudagentperform.Store.History.Moves.{SameRun}
use cloudagentperform.Bus.{queued_ids, lease_token, active_leases, enqueue, dequeue, acquire_lease}
use cloudagentperform.Poll.{PollConfig, take_task}
use cloudagentperform.Agent.Loop.{Outcome}
use cloudagentperform.Api.{post_task}
use cloudagentperform.System.{Action, posts, repairs, takes, emits, settles, redis_loses, act_all}
use cloudagentperform.System.Histories.{begins, Consistent, act_all-Consistent, act_all_final}
use cloudagentperform.System.Submission.{Served, post_task-Served}
use cloudagentperform.Reconcile.{reconcile, reclaim, reclaim_one, repush_queued, repush}
use cloudagentperform.Tests.Memory.{Memory, memory, empty}
use cloudagentperform.Tests.Attempts.{times}

abbrev cfg : PollConfig
cfg = record { worker_id = "w1"; max_concurrency = 2; lease_ttl = 15 }

abbrev good : Outcome
good = record {
  status = succeeded;
  reason = none;
  summary = some "done";
  usage = [];
  transcript = [];
}

abbrev handed : Task
handed = record {
  id = "t1";
  prompt = "fix the build";
  status = running;
  attempt = 1;
  max_attempts = 2;
  worker_id = some "w1";
  failure_reason = none;
  result_summary = none;
  usage = [];
  idempotency_key = none;
  cancel_requested = false;
  created_at = "12:00";
  updated_at = "12:20";
}

-- A task is posted, taken and worked on; Redis is wiped; the repair pass gives the task back while its
-- worker ends it.
abbrev before : List (Action Memory)
before =
    posts "t1" "12:00" "fix the build" none
    ∷ takes cfg "tok"
    ∷ emits handed message []
    ∷ settles handed "tok" good []
    ∷ []

abbrev later : List (Action Memory)
later = redis_loses (λ m. empty) ∷ repairs ∷ takes cfg "tok2" ∷ settles handed "tok" good [] ∷ []

act_all-Consistent_example :
    Consistent (act_all memory times (before ++ later) (begins memory times empty)).store
act_all-Consistent_example = act_all-Consistent memory times (before ++ later) empty

abbrev ended : Task
ended = record handed { status = succeeded; result_summary = some "done" }

act_all_final_example :
    (t' : Task) × (get "t1"
        (act_all memory times later (act_all memory times before (begins memory times empty))).store
      ≡ some t')
    × SameRun ended t'
unfolding get select_id act_all finish append_event in_event_types active_leases create_task enqueue
    dequeue take_task acquire_lease claim update_rows
act_all_final_example = act_all_final memory times before later empty "t1" {t = ended} refl refl

post_task-Served_example :
    Served memory times cfg "tok" "t1" "fix the build" good []
      (post_task memory "t1" "12:00" "fix the build" none (begins memory times empty)).1
unfolding get select_id queued_ids lease_token active_leases enqueue post_task create_task reconcile
    reclaim reclaim_one repush_queued repush tasks_with_status
post_task-Served_example =
    post_task-Served memory times cfg "tok" "t1" "12:00" "fix the build" good []
      (begins memory times empty) tt refl refl refl (omega arith) refl

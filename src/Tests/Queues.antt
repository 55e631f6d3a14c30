-- ===== src/Tests/Queues.antt =====
-- The repair pass, the leases and a worker's turn over a Redis server in memory.
use cloudagentperform.Base.{
  ℕ, length, ◌≡◌, ◌<◌, ◌⊎◌, refl, String, true, false, none, some, List, [], ◌∷◌, ◌||◌,
}
use cloudagentperform.Models.{Task, queued, is_running, is_terminal}
use cloudagentperform.Store.Table.{init, ok, select_id, update_rows}
use cloudagentperform.Store.{get, claim, create_task, requeue, tasks_with_status}
use cloudagentperform.Store.History.{Txn, creates, claims, run}
use cloudagentperform.Store.History.Distinct.{run-Unique}
use cloudagentperform.Bus.{
  lease_key, acquire_lease, lease_token, active_leases, enqueue, dequeue, queued_ids,
}
use cloudagentperform.Reconcile.{
  World, Stats, contains, reconcile, reclaim, reclaim_one, give_back, repush_queued, repush,
}
use cloudagentperform.Reconcile.Recovery.{Recovered, reconcile-Recovered, reconcile_after_wipe}
use cloudagentperform.Poll.{PollConfig, take_task, next_task}
use cloudagentperform.Poll.Claims.{Holds, take_task_lem, next_task_limit}
use cloudagentperform.Tests.Memory.{Memory, memory, empty}

abbrev clock : String → ℕ → String
clock tid n = "12:30"

abbrev config : PollConfig
config = record { worker_id = "w1"; max_concurrency = 2; lease_ttl = 30 }

-- A running task whose worker is gone, and one that was queued and never pushed.
abbrev history : List Txn
history =
    creates "t1" "12:00" "fix the build" none 2
    ∷ claims "t1" "w0" "12:01"
    ∷ creates "t2" "12:02" "write the docs" none 2
    ∷ []

abbrev crashed : World Memory
crashed = record { store = run history init; redis = empty }

abbrev waiting : World Memory
waiting = record { store = run history init; redis = enqueue memory "t2" empty }

reconcile-Recovered_example :
    (st : Stats) × (w' : World Memory) × (reconcile memory clock crashed ≡ (ok st, w'))
    × Recovered memory clock crashed w'
reconcile-Recovered_example = reconcile-Recovered memory clock crashed (run-Unique history init tt)

-- `t1` after the pass.
abbrev given_back : Task
given_back = record {
  id = "t1";
  prompt = "fix the build";
  status = queued;
  attempt = 1;
  max_attempts = 2;
  worker_id = none;
  failure_reason = none;
  result_summary = none;
  usage = [];
  idempotency_key = none;
  cancel_requested = false;
  created_at = "12:00";
  updated_at = "12:30";
}

reconcile_after_wipe_example :
    (is_running queued ≡ false)
    × ((is_terminal queued
          || contains "t1" (queued_ids memory (reconcile memory clock crashed).1.redis))
        ≡ true)
unfolding lease_token get select_id reconcile reclaim tasks_with_status run create_task claim
    update_rows reclaim_one give_back requeue repush_queued repush queued_ids enqueue
reconcile_after_wipe_example =
    reconcile_after_wipe memory clock crashed "t1" {t = given_back} (run-Unique history init tt)
      (λ i. refl) refl

take_task_lem_example :
    ((t : Task) × ((take_task memory clock config "tok" "t2" waiting).0 ≡ some t)
      × Holds memory clock config "tok" "t2" t waiting
          (take_task memory clock config "tok" "t2" waiting).1)
    ⊎ (((take_task memory clock config "tok" "t2" waiting).0 ≡ none)
        × ((take_task memory clock config "tok" "t2" waiting).1.store ≡ waiting.store)
        × (lease_token memory "t2" (take_task memory clock config "tok" "t2" waiting).1.redis
            ≡ lease_token memory "t2" waiting.redis))
take_task_lem_example =
    take_task_lem memory clock config "tok" "t2" waiting (run-Unique history init tt)

-- Another worker runs a task.
abbrev busy : World Memory
busy = record waiting { redis = (acquire_lease memory "t9" "tok9" 15 waiting.redis).1 }

next_task_limit_example : length {A = String} ("t9" ∷ []) < 2
unfolding next_task active_leases dequeue enqueue take_task acquire_lease lease_token claim
    select_id update_rows run create_task lease_key
next_task_limit_example =
    next_task_limit memory clock config "tok" ("t9" ∷ []) busy (refl, tt) (("tok9", refl), tt) refl

-- ===== src/Tests/Attempts.antt =====
-- The end of an attempt at concrete inputs.
use cloudagentperform.Base.{ℕ, refl, String, false, none, some, []}
use cloudagentperform.Models.{queued, running, in_event_types}
use cloudagentperform.Store.Table.{init, select_id, select_key, update_rows}
use cloudagentperform.Store.{get, create_task, claim, append_event, requeue}
use cloudagentperform.Store.History.{exec, run}
use cloudagentperform.Store.History.Distinct.{run-Unique}
use cloudagentperform.Reconcile.{World}
use cloudagentperform.Agent.{Env}
use cloudagentperform.Agent.Loop.{Outcome, stopped, run_agent}
use cloudagentperform.Attempt.{conclude, stop_outcome, settle}
use cloudagentperform.Attempt.Settlement.{Closed, attempt-Closed, Unchanged, settle-Unchanged}
use cloudagentperform.Tests.Memory.{Memory, memory, empty}
use cloudagentperform.Tests.Stores.{begun, lost, row}
use cloudagentperform.Tests.Agents.{scripted}
use cloudagentperform.Tests.Handlers.{world}

abbrev pub times : String → ℕ → String
times tid n = "12:20"

abbrev taken : World Memory
taken = record { store = run lost (run begun init); redis = empty }

-- A worker that is told to stop by the time limit.
abbrev outcome_of_limit : Outcome
outcome_of_limit = stop_outcome "timeout"

abbrev limited : Env
limited = record scripted { should_stop = λ n. (some "timeout", n) }

attempt-Closed_example :
    Closed memory times
      (row running)
      "tok"
      outcome_of_limit
      world
      (settle memory times (row running) "tok" outcome_of_limit [] world)
unfolding run_agent conclude get select_id run append_event in_event_types claim create_task
    select_key update_rows
attempt-Closed_example =
    attempt-Closed memory times (row running) "tok" limited 60 3 0 none false [] world
      {end = stopped "timeout"} refl refl (run-Unique begun init tt) refl refl

settle-Unchanged_example :
    Unchanged memory times
      (row running)
      "tok"
      taken
      (record (row running) { status = queued; worker_id = none; updated_at = "12:05" })
      (settle memory times (row running) "tok" outcome_of_limit [] taken)
unfolding get select_id run exec append_event in_event_types claim create_task requeue select_key
    update_rows
settle-Unchanged_example =
    settle-Unchanged memory times (row running) "tok" outcome_of_limit [] taken
      (run-Unique lost (run begun init) (run-Unique begun init tt)) refl refl refl

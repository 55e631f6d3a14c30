-- ===== src/Tests/Stores.antt =====
-- The store at small histories.
use cloudagentperform.Base.{◌⊎◌, ◌<◌, ◌≡◌, refl, false, none, some, List, [], ◌∷◌}
use cloudagentperform.Models.{Status, succeeded, Task, in_event_types}
use cloudagentperform.Store.Table.{
  init, ok, err, select_id, select_key, update_rows, integrity_error,
}
use cloudagentperform.Store.{Ending, get, create_task, claim, append_event, requeue, finish}
use cloudagentperform.Store.Claim.{Taken, IsUnclaimable, claim_cases}
use cloudagentperform.Store.History.{
  Txn, creates, claims, emits, finishes, requeues, run, exec, started, message,
}
use cloudagentperform.Store.History.Moves.{Moves}
use cloudagentperform.Store.History.Distinct.{run-Unique}
use cloudagentperform.Store.History.Edges.{exec-Moves}
use cloudagentperform.Store.History.Races.{finish_once, claims_increase}
use cloudagentperform.Store.History.Idempotency.{create_task_idempotent, create_task_empty_key}

abbrev pub success : Ending
success = record {
  status = succeeded;
  reason = none;
  summary = some "done";
  usage = none;
  extra_payload = none;
}

-- One task, claimed, with two events.
abbrev pub begun : List Txn
begun =
    creates "t1" "12:00" "fix the build" (some "k1") 2
    ∷ claims "t1" "w1" "12:01"
    ∷ emits "t1" 1 started "12:01" []
    ∷ emits "t1" 1 message "12:02" []
    ∷ []

-- The attempt is lost and a second worker takes the task over.
abbrev pub lost : List Txn
lost = requeues "t1" 1 "12:05" ∷ []

abbrev pub over : List Txn
over = finishes "t1" 1 success "12:03" "12:03" ∷ []

abbrev pub row : Status → Task
row status = record {
  id = "t1";
  prompt = "fix the build";
  status = status;
  attempt = 1;
  max_attempts = 2;
  worker_id = some "w1";
  failure_reason = none;
  result_summary = none;
  usage = [];
  idempotency_key = some "k1";
  cancel_requested = false;
  created_at = "12:00";
  updated_at = "12:01";
}

finish_once_example :
    finish "t1" 1 success "12:09" "12:09"
      (run lost (finish "t1" 1 success "12:03" "12:03" (run begun init)).1)
    ≡ (ok none, run lost (finish "t1" 1 success "12:03" "12:03" (run begun init)).1)
unfolding run exec create_task claim append_event finish select_key in_event_types update_rows
finish_once_example =
    finish_once begun lost "t1" 1 1 success success "12:03" "12:09" "12:03" "12:09" refl refl

claims_increase_example : 1 < 2
unfolding run exec create_task claim requeue select_id select_key update_rows
claims_increase_example =
    claims_increase (creates "t1" "12:00" "fix the build" (some "k1") 2 ∷ []) lost "t1" "w1" "w2"
      "12:01" "12:06" refl refl

exec-Moves_example :
    Moves "t1" (run begun init) (exec (finishes "t1" 1 success "12:03" "12:03") (run begun init))
exec-Moves_example =
    exec-Moves (finishes "t1" 1 success "12:03" "12:03") (run begun init) (run-Unique begun init tt)
      "t1"

claim_cases_example :
    ((t : Task) × Taken "t1" "w2" "12:06" (run lost (run begun init)) t)
    ⊎ ((claim "t1" "w2" "12:06" (run lost (run begun init)) ≡ (none, run lost (run begun init)))
        × IsUnclaimable (get "t1" (run lost (run begun init))))
claim_cases_example =
    claim_cases "t1" "w2" "12:06" (run lost (run begun init))
      (run-Unique lost (run begun init) (run-Unique begun init tt))

create_task_idempotent_example :
    (t' : Task) × (t'.id ≡ "t1")
    × (create_task "t2" "12:10" "again"
          (some "k1")
          3
          (run lost (create_task "t1" "12:00" "fix the build" (some "k1") 2 init).1)
        ≡ (
          ok (t', false),
          run lost (create_task "t1" "12:00" "fix the build" (some "k1") 2 init).1,
        ))
unfolding run create_task select_key
create_task_idempotent_example =
    create_task_idempotent [] lost "t1" "t2" "12:00" "12:10" "fix the build" "again" "k1" 2 3
      (λ e. cc e) refl

create_task_empty_key_example :
    create_task "t2" "12:10" "again"
      (some "")
      3
      (run lost (create_task "t1" "12:00" "fix the build" (some "") 2 init).1)
    ≡ (err integrity_error, run lost (create_task "t1" "12:00" "fix the build" (some "") 2 init).1)
unfolding run create_task select_key
create_task_empty_key_example =
    create_task_empty_key [] lost "t1" "t2" "12:00" "12:10" "fix the build" "again" 2 3 refl

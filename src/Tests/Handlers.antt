-- ===== src/Tests/Handlers.antt =====
-- The API's handlers at concrete inputs.
use cloudagentperform.Base.{
  ◌≡◌, refl, arith, Option, none, some, List, [], ◌∷◌, ◌++◌, any, if◌then◌else◌,
}
use cloudagentperform.Models.{Event, ends_stream, succeeded, in_event_types}
use cloudagentperform.Store.Table.{init, select_id, select_key, update_rows}
use cloudagentperform.Store.{
  get, create_task, claim, append_event, finish, finish_payload, events_after,
}
use cloudagentperform.Store.History.{exec, run}
use cloudagentperform.Store.History.Distinct.{run-Unique}
use cloudagentperform.Reconcile.{World}
use cloudagentperform.Api.{cancel_task}
use cloudagentperform.Api.Cancel.{IsSettled, cancel_task-IsSettled}
use cloudagentperform.Api.Stream.{stream}
use cloudagentperform.Api.Stream.Delivery.{shown, through_end, stream_lem}
use cloudagentperform.Tests.Memory.{Memory, memory, empty}
use cloudagentperform.Tests.Stores.{begun, over}

abbrev pub world : World Memory
world = record { store = run begun init; redis = empty }

cancel_task-IsSettled_example :
    IsSettled (get "t1" (cancel_task memory "t1" "12:08" "12:08" [] [] world).1.store)
unfolding get run exec create_task claim append_event in_event_types select_key select_id
    update_rows
cancel_task-IsSettled_example =
    cancel_task-IsSettled memory "t1" "12:08" "12:08" [] [] world (run-Unique begun init tt) refl

-- The client has seen the first event and hears of the end.
abbrev pub heard : List (Option Event)
heard =
    none
    ∷ some (record {
      id = 3;
      task_id = "t1";
      attempt = 1;
      type = "job.completed";
      ts = "12:03";
      payload = finish_payload succeeded none (some "done") none none;
    })
    ∷ []

stream_lem_example :
    shown (stream 1 (events_after "t1" 1 (run [] (run begun init))) heard)
    ≡ events_after "t1" 1 (run [] (run begun init))
      ++ (if any (λ ev. ends_stream ev.type) (events_after "t1" 1 (run [] (run begun init)))
          then []
          else through_end (
              events_after "t1"
                (run [] (run begun init)).last_id
                (run over (run [] (run begun init)))))
unfolding run exec create_task claim append_event in_event_types select_key select_id update_rows
    finish finish_payload events_after
stream_lem_example = stream_lem begun [] over "t1" 1 heard (omega arith) refl

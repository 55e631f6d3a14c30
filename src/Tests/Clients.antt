-- ===== src/Tests/Clients.antt =====
-- The client of the event stream: a server that breaks the first connection after one event.
use cloudagentperform.Base.{◌≡◌, refl, some, arith, List, [], ◌∷◌}
use cloudagentperform.Models.{Event, in_event_types}
use cloudagentperform.Store.Table.{init, select_id, select_key, update_rows}
use cloudagentperform.Store.{create_task, claim, append_event, finish, get, events_after}
use cloudagentperform.Store.History.{exec, run}
use cloudagentperform.Agent.Text.{decimal, decimal_on, digit}
use cloudagentperform.Api.Stream.{stream, live}
use cloudagentperform.Api.Stream.Delivery.{newer}
use cloudagentperform.Api.Events.{int_of, after_id, task_events}
use cloudagentperform.Cli.{read, connected, follow_events}
use cloudagentperform.Cli.Parse.{value_on, int, exit_code}
use cloudagentperform.Cli.Command.{exit_of, follow_task, first_end}
use cloudagentperform.Cli.Follow.{Delivered}
use cloudagentperform.System.Delivery.{Session, at_last, answer_of, serve}
use cloudagentperform.System.Delivery.Resume.{follow_events-stream}
use cloudagentperform.System.Delivery.Exits.{follow_task-end}
use cloudagentperform.Tests.Handlers.{heard}
use cloudagentperform.Tests.Stores.{begun, over}

abbrev pub first : Event
first = record {
  id = 1;
  task_id = "t1";
  attempt = 1;
  type = "job.started";
  ts = "12:00";
  payload = [];
}

abbrev sessions : List Session
sessions =
    record { earlier = []; before = []; between = []; later = over; messages = heard; arrive = 1 }
    ∷ record { earlier = []; before = []; between = []; later = []; messages = []; arrive = 9 }
    ∷ []

follow_events-stream_example :
    Delivered
      (events_after "t1" 0 (at_last sessions (run begun init)))
      0
      (follow_events (serve "t1") 3 0 (sessions, run begun init))
unfolding run exec create_task claim append_event finish in_event_types select_key update_rows
    events_after
follow_events-stream_example =
    follow_events-stream begun "t1" sessions 3 0 (omega arith) (refl, (refl, tt))

follow_task-end_example :
    (ev : Event) × (first_end (newer 0 (events_after "t1" 0 (at_last sessions (run begun init))))
      ≡ some ev)
    × (exit_code (some ev) ≡ 0)
unfolding run exec create_task claim append_event finish in_event_types select_key update_rows
    events_after follow_task exit_of follow_events connected read serve answer_of task_events
    after_id int_of int value_on decimal decimal_on digit get select_id stream live exit_code
follow_task-end_example =
    follow_task-end begun "t1" sessions 0 (omega arith) (refl, (refl, tt)) refl

-- ===== src/System/Delivery/Exits.antt =====
-- The exit code of the command that follows a task (cli/main.py, `_follow`), over the server's streams.
use cloudagentperform.Base.{ℕ, ◌≤◌, ◌≡◌, String, some, List}
use cloudagentperform.Models.{Event}
use cloudagentperform.Store.Table.{init}
use cloudagentperform.Store.{events_after}
use cloudagentperform.Store.History.{Txn, run}
use cloudagentperform.Api.Stream.Delivery.{newer}
use cloudagentperform.Cli.{follow_events}
use cloudagentperform.Cli.Parse.{exit_code}
use cloudagentperform.Cli.Command.{
  exited, follow_task, first_end, exit_of-Delivered, follow_events-IsOver,
}
use cloudagentperform.System.Delivery.{Session, at_last, Heard, serve}
use cloudagentperform.System.Delivery.Resume.{follow_events-stream}

-- A client follows a task, after a first id that the store has given out, over any number of
-- connections, each of which may break, while the processes go on writing, and each connection that it
-- is given hears the task's events since its subscription in the order of their ids. If the command
-- exits with a code instead of an exception, the final log has an event of the task that ends it and
-- is newer than the first id, and the code is the one for the first such event.
pub follow_task-end :
    (start : List Txn) (tid : String) (sessions : List Session) (last : ℕ) {code : ℕ}
    → last ≤ (run start init).last_id
    → Heard tid sessions (run start init)
    → follow_task (serve tid) last (sessions, run start init) ≡ exited code
    → (ev : Event) × (first_end
          (newer last (events_after tid 0 (at_last sessions (run start init))))
        ≡ some ev)
      × (exit_code (some ev) ≡ code)
unfolding follow_task
follow_task-end start tid sessions last seen heard e =
    let s = run start init in
    exit_of-Delivered (events_after tid 0 (at_last sessions s)) last
      (follow_events (serve tid) 30 last (sessions, s))
      (follow_events-stream start tid sessions 30 last seen heard)
      (follow_events-IsOver (serve tid) 30 last (sessions, s)) e

-- ===== src/System/Delivery.antt =====
-- The client's `follow_events` (cli/main.py) over the server's `_stream` (api/main.py), across connections
-- that break at any point, while the processes go on writing.
pub mod Prefixes
pub mod Resume
pub mod Exits
use cloudagentperform.Base.{ℕ, ◌≡◌, String, Option, none, some, List, [], ◌∷◌, take}
use cloudagentperform.Models.{Event}
use cloudagentperform.Store.Table.{Store}
use cloudagentperform.Store.{events_after}
use cloudagentperform.Store.History.{Txn, run}
use cloudagentperform.Agent.Text.{decimal}
use cloudagentperform.Api.Stream.Delivery.{shown, arrivals}
use cloudagentperform.Api.Events.{Events, streaming, events_error, task_events}
use cloudagentperform.Cli.{Connection, served, refused}

-- A connection of the client: what is logged before the task is looked up, from there to the
-- subscription, between that and the SELECT of the history, and until it is over; the messages that it
-- hears; and how many events arrive before it breaks.
pub record Session : Type 0 where
  pub earlier : List Txn
  pub before : List Txn
  pub between : List Txn
  pub later : List Txn
  pub messages : List (Option Event)
  pub arrive : ℕ

abbrev pub asked : Session → Store → Store
asked x s = run x.earlier s

abbrev pub subscribed : Session → Store → Store
subscribed x s = run x.before (asked x s)

abbrev pub selected : Session → Store → Store
selected x s = run x.between (subscribed x s)

abbrev pub ended : Session → Store → Store
ended x s = run x.later (selected x s)

-- The store after the sessions.
abbrev pub at_last : List Session → Store → Store
at_last [] s = s
at_last (x ∷ xs) s = at_last xs (ended x s)

-- Each session hears the task's events since its subscription, in the order of their ids.
abbrev pub Heard : String → List Session → Store → Type 0
Heard tid [] s = Unit
Heard tid (x ∷ xs) s =
    (arrivals x.messages ≡ events_after tid (subscribed x s).last_id (ended x s))
    × Heard tid xs (ended x s)

-- What arrives of an answer; `raise_for_status` refuses an error.
abbrev pub arrived : ℕ → Events → Connection
arrived n (streaming frames) = served (take n (shown frames))
arrived n (events_error code why) = refused

-- The answer to a client that has seen the events up to `last`, which it sends as `Last-Event-ID`.
unfoldable pub answer_of : String → ℕ → Session → Store → Events
unfolding task_events
answer_of tid last x s =
    task_events (some (decimal last)) none tid (asked x s) (selected x s) x.messages

-- The server: it answers one connection after the other, and refuses more.
unfoldable pub serve : String → ℕ → List Session × Store → Connection × (List Session × Store)
unfolding answer_of
serve tid last ([], s) = (refused, ([], s))
serve tid last (x ∷ xs, s) = (arrived x.arrive (answer_of tid last x s), (xs, ended x s))

-- ===== src/Store/History.antt =====
-- Histories of the store: the transactions that the API and the workers run through core/store.py,
-- in any interleaving. SQLite runs them one after the other, so a history is a list.
pub mod Moves
pub mod Edges
pub mod Distinct
pub mod Ends
pub mod Races
pub mod Keys
pub mod Log
pub mod Replay
pub mod Idempotency
use cloudagentperform.Base.{ℕ, String, Option, List, [], ◌∷◌, Dict}
use cloudagentperform.Models.{Json, ev_started, ev_message, ev_tool_call, ev_tool_result}
use cloudagentperform.Store.Table.{Store}
use cloudagentperform.Store.{
  Ending, create_task, claim, append_event, finish, requeue, fail_exhausted, cancel_queued,
  request_cancel, add_usage,
}

-- The types that `emit` of worker/attempt.py is called with there and in agent/loop.py.
pub data Emitted : Type 0 where
  started message tool_call tool_result : Emitted

abbrev pub emitted_type : Emitted → String
emitted_type started = ev_started
emitted_type message = ev_message
emitted_type tool_call = ev_tool_call
emitted_type tool_result = ev_tool_result

-- A call of a method that writes. The first text is the task's id.
pub data Txn : Type 0 where
  creates : String → String → String → Option String → ℕ → Txn
  claims : String → String → String → Txn
  emits : String → ℕ → Emitted → String → Dict Json → Txn
  finishes : String → ℕ → Ending → String → String → Txn
  requeues : String → ℕ → String → Txn
  fails : String → ℕ → String → String → Txn
  cancels : String → String → String → Txn
  requests : String → String → Txn
  uses : String → Dict ℕ → String → Txn

unfoldable pub exec : Txn → Store → Store
exec (creates tid now prompt key max) s = (create_task tid now prompt key max s).1
exec (claims tid worker now) s = (claim tid worker now s).1
exec (emits tid attempt kind ts payload) s =
    (append_event tid attempt (emitted_type kind) ts payload s).1
exec (finishes tid attempt e now ts) s = (finish tid attempt e now ts s).1
exec (requeues tid attempt now) s = (requeue tid attempt now s).1
exec (fails tid attempt now ts) s = (fail_exhausted tid attempt now ts s).1
exec (cancels tid now ts) s = (cancel_queued tid now ts s).1
exec (requests tid now) s = (request_cancel tid now s).1
exec (uses tid usage now) s = (add_usage tid usage now s).1

unfoldable pub run : List Txn → Store → Store
unfolding exec
run [] s = s
run (x ∷ xs) s = run xs (exec x s)

-- ===== src/Lib.antt =====
-- Verification of the cloud agent platform: a service that runs language-model agents on tasks. The
-- API (api/main.py) writes tasks into SQLite (core/store.py) and pushes their ids onto a Redis list
-- (core/queuebus.py). Workers (worker/main.py) pull ids, take a lease in Redis, claim the row, run the
-- agent (agent/loop.py, agent/tools.py) in a sandbox, and write one terminal event. A repair pass
-- (worker/reconcile.py) puts back what crashed workers left behind.
--
-- The files and the code that they model:
--   Models      core/models.py: Status, Task, Event, the names of events and reasons, JSON values.
--   Store       core/store.py: one function per method of TaskStore, with the method's name. It takes
--               the times and ids that the method makes, and the tables, and returns its result and
--               the tables after it. Store.Table has the SQL statements as functions on lists of rows,
--               Store.Tasks, Store.Terminal and Store.Queries the methods, and Store.Columns the rows as
--               they are stored, with _task and _event.
--   Store.History  histories: lists of the store's transactions, in any order, as rival processes
--               make them. Its children take one subject each: the state machine of a task (Moves,
--               Edges), distinct ids (Distinct), ends (Ends), rivals (Races), keys (Keys,
--               Idempotency), the event log (Log, Replay).
--   Redis       the commands of Redis that the program sends, as an interface with laws. Redis is not
--               part of the repository, so State and the commands are parameters.
--   Bus         core/queuebus.py: one function per method of QueueBus.
--   Reconcile   worker/reconcile.py over a store and a Redis; Reconcile.Rows holds the row that the
--               pass is to leave behind, as a function of the row and the lease before it.
--   Poll        worker/main.py: poll_once, where next_task is its part up to the claim, and the loop of
--               main (work).
--   Start       core/config.py, and worker/main.py up to its loop, with the check of agent/mock.py.
--   Agent       agent/llm.py and sandbox/provider.py as an interface (Env), agent/tools.py (Tools),
--               agent/loop.py (Loop), and the string functions of both (Text).
--   Agent.Llm   agent/llm.py: OpenAICompatProvider.chat with its retries and preflight, over an HTTP
--               client that is a parameter. Agent.Llm.Body has _parse, on any JSON value.
--   Agent.Replay  RecordingLLM of worker/record.py and MockProvider of agent/mock.py. Agent.Recording has
--               a whole run of the agent under each of them.
--   Record      worker/record.py: to_trajectory and main, from the configuration on.
--   Sandbox     sandbox/docker_provider.py: the handle and the provider, over a Docker daemon that is a
--               parameter. Sandbox.Files has the file operations, Sandbox.Artifacts download_artifacts,
--               Sandbox.Interrupt the agent's tools over the handle.
--   Attempt     worker/attempt.py: emit, conclude (its exception handlers) and settle (the writes after
--               them). Attempt.Threads has the order of its steps and its thread reaper.
--   Api         api/main.py: the handlers of POST /tasks, GET /tasks/{id} and its cancel; Api.Stream has
--               the event stream, Api.Frames its text, Api.Artifacts download_artifact, Api.Listing
--               list_artifacts, Api.Events task_events.
--   Cli         cli/main.py: follow_events, over any server; Cli.Parse has parse_sse_lines and
--               _exit_code, Cli.Command _follow. The lines of a text, as httpx splits it, are a parameter.
--   System      the processes together: the API's handlers, the worker's turns and its writes, in any
--               order, with a Redis that may lose anything. System.Delivery has the client's
--               connections to the event stream.
--   Tests       the theorems at concrete inputs. Tests.Memory is a Redis server in memory.
--
-- Choices:
--   - A transaction of SQLite is atomic, and SQLite runs transactions one after the other; so an
--     interleaving of processes is a list of transactions.
--   - One repair pass runs without other processes in between, and so does one turn of a worker up
--     to the claim. Interleavings of single transactions are the subject of Store.History, and those of
--     whole calls the subject of System, where a worker may act on a task that it has lost.
--   - Numbers are natural numbers: attempts, ids and token counts are never negative. SQLite's bound
--     on row ids is not modelled. A process that a signal ended has a negative exit code, which does
--     not occur in the model.
--   - Loops run over lists, or over the number of steps (max_steps), of reconnects (max_reconnects)
--     or of tries (max_retries) that are left. Writing a number n takes n + 1 rounds at most, since
--     each divides by ten. os.walk goes at most as deep as the paths have parts together. No other
--     loop needs fuel.
--   - A character of a file stands for a byte, and there are no symbolic links.
--   - The threads of an attempt take turns: an interleaving is a list of turns, of any length.
--     `destroy` returns also when the daemon fails to remove the container; the run records that.
--   - Of the digits of which str.isdigit is true, the model has those of Latin-1: ten and three
--     superscripts, which int does not read. What becomes of a URL on its way to the route of the
--     artifacts is a parameter.
--   - Sleeping has no effect. The agent's emit appends to a list and does not fail.
--   - Times, ids, the model's endpoint, the Docker daemon, the stop flag and Redis are parameters; so
--     is the sandbox where the agent is the subject.
--
-- Not modelled: opening the database file and the connections, the transcript's file of
-- worker/attempt.py, the reading and the writing of a recording's file as JSON and the command line of worker/record.py, the
-- page and the health check of api/main.py, the arguments and the printing of cli/main.py, and the
-- archive that _tar_dir of sandbox/docker_provider.py makes.
pub mod Base
pub mod Models
pub mod Store
pub mod Redis
pub mod Bus
pub mod Reconcile
pub mod Poll
pub mod Agent
pub mod Api
pub mod Attempt
pub mod Cli
pub mod Record
pub mod Sandbox
pub mod Start
pub mod System
pub mod Tests

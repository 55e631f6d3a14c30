-- ===== src/Start.antt =====
-- The start of a worker: core/config.py, `make_llm_factory` and the start of `main` in worker/main.py,
-- and the check of the fixture in agent/mock.py. The environment, the hash and the endpoint's answer are
-- parameters; opening the database, Redis and the Docker client is left out.
pub mod Modes
use Prim.Native.String.{◌++◌}
use cloudagentperform.Base.{
  ℕ, String, Bool, true, false, not, ◌&&◌, ◌||◌, Option, none, some, List, [], ◌∷◌, map, ◌==◌,
  if◌then◌else◌, Dict,
}
use cloudagentperform.Models.{Json, str, is_running, Task}
use cloudagentperform.Store.Table.{Store}
use cloudagentperform.Store.{tasks_with_status}
use cloudagentperform.Agent.{Exc, other_error, Try, done, raised}
use cloudagentperform.Agent.Llm.{Provider, new_provider, Posted, preflight}
use cloudagentperform.Agent.Llm.Body.{Parse, parsed, raises, untyped}
use cloudagentperform.Agent.Text.{take_chars}
use cloudagentperform.Poll.{PollConfig}
use cloudagentperform.Sandbox.{Docker, gc}
use cloudagentperform.Cli.Parse.{int}

pub record Config : Type 0 where
  pub db_path : String
  pub artifacts_dir : String
  pub redis_url : String
  pub worker_id : String
  pub max_concurrency : ℕ
  pub lease_ttl : ℕ
  pub max_steps : ℕ
  pub task_timeout : ℕ
  pub tool_timeout : ℕ
  pub step_delay_ms : ℕ
  pub sandbox_backend : String
  pub sandbox_image : String
  pub fixture_dir : String
  pub trajectory_path : String
  pub llm_mode : String
  pub llm_base_url : String
  pub llm_api_key : String
  pub llm_model : String

-- `os.environ.get(name, default)`
abbrev pub setting : (String → Option String) → String → String → String
setting env name default = elim (env name) [ none ↦ default | some value ↦ value ]

-- `int(e(name, default))` for each of six settings; `none` is a `ValueError`.
abbrev pub bind {ℓ κ} : {A : Type ℓ} {B : Type κ} → Option A → (A → Option B) → Option B
bind none f = none
bind (some a) f = f a

-- `load_config`. `fresh_id` is the worker's id if none is set.
unfoldable pub load_config : (String → Option String) → String → Option Config
unfolding int
load_config env fresh_id = bind (int (setting env "CAP_MAX_CONCURRENCY" "2")) (λ max_concurrency.
    bind (int (setting env "CAP_LEASE_TTL" "15")) (λ lease_ttl.
      bind (int (setting env "CAP_MAX_STEPS" "20")) (λ max_steps.
        bind (int (setting env "CAP_TASK_TIMEOUT" "300")) (λ task_timeout.
          bind (int (setting env "CAP_TOOL_TIMEOUT" "30")) (λ tool_timeout.
            bind (int (setting env "CAP_STEP_DELAY_MS" "0")) (λ step_delay_ms. some (record {
              db_path = setting env "CAP_DB_PATH" "./data/cap.db";
              artifacts_dir = setting env "CAP_ARTIFACTS_DIR" "./data/artifacts";
              redis_url = setting env "CAP_REDIS_URL" "redis://localhost:6379/0";
              worker_id = setting env "CAP_WORKER_ID" fresh_id;
              max_concurrency = max_concurrency;
              lease_ttl = lease_ttl;
              max_steps = max_steps;
              task_timeout = task_timeout;
              tool_timeout = tool_timeout;
              step_delay_ms = step_delay_ms;
              sandbox_backend = setting env "CAP_SANDBOX" "docker";
              sandbox_image = setting env "CAP_SANDBOX_IMAGE" "cap-sandbox";
              fixture_dir = setting env "CAP_FIXTURE_DIR" "fixtures/demo-repo";
              trajectory_path =
                  setting env "CAP_TRAJECTORY" "fixtures/trajectories/golden_todo_scan.json";
              llm_mode = setting env "LLM_MODE" "mock";
              llm_base_url = setting env "LLM_BASE_URL" "http://host.docker.internal:8000/v1";
              llm_api_key = setting env "LLM_API_KEY" "";
              llm_model = setting env "LLM_MODEL" "Qwen3-14B-AWQ";
            })))))))

-- The fields that the worker's loop reads.
abbrev pub poll_config : Config → PollConfig
poll_config cfg = record {
  worker_id = cfg.worker_id;
  max_concurrency = cfg.max_concurrency;
  lease_ttl = cfg.lease_ttl;
}

-- `recorded_from` of a trajectory.
pub record RecordedFrom : Type 0 where
  pub model : String
  pub base_url : Option String
  pub date : Option String
  pub fixture_sha256 : Option String

abbrev pub or_text : Option String → String → String
or_text none default = default
or_text (some s) default = s

-- The bytes that `fixture_sha256` hashes, of the files in the order of its walk.
unfoldable pub hashed_text : List (String × String) → String
hashed_text [] = ""
hashed_text ((path, content) ∷ files) = path ++ ("\0" ++ (content ++ ("\0" ++ hashed_text files)))

-- `MockProvider.__init__`, after the file has been read
unfoldable pub open_mock :
    (String → String) → RecordedFrom → List (String × String) → Try (Unit {0})
unfolding hashed_text take_chars
open_mock sha256 source files =
    let pinned = or_text source.fixture_sha256 "UNPINNED" in
    let actual = sha256 (hashed_text files) in
    if pinned == "UNPINNED" || actual == pinned
    then done tt
    else raised (
        other_error (
          "TrajectoryMismatch: fixture hash "
          ++ (take_chars 12 actual
              ++ ("… does not match recorded " ++ (take_chars 12 pinned ++ "…")))))

-- `MockProvider.describe`
abbrev pub describe_mock : RecordedFrom → Dict Json
describe_mock source =
    ("mode", str "mock")
    ∷ ("model", str ("replay:" ++ source.model))
    ∷ ("base_url", str (or_text source.base_url ""))
    ∷ ("recorded_at", str (or_text source.date ""))
    ∷ ("fixture_sha256", str (or_text source.fixture_sha256 "UNPINNED"))
    ∷ []

-- What `make_llm_factory` returns: how the attempts get their provider.
pub data Factory : Type 0 where
  mock : String → String → Factory
  real : Provider → Factory

-- The start succeeds, ends in `SystemExit`, or lets an exception through.
pub data Started : Type 0 where
  ready : Factory → Started
  exits : String → Started
  crashes : Exc → Started

abbrev pub checked : Provider → Parse (List Json) → Started
checked p (parsed names) = ready (real p)
checked p (raises e) = crashes e
checked p untyped = crashes (other_error "a value of another type")

-- `answer` is the endpoint's answer to the preflight. Three is the default of `max_retries`.
unfoldable pub make_llm_factory : Config → Posted → Started
unfolding new_provider preflight
make_llm_factory cfg answer =
    let p = new_provider cfg.llm_base_url cfg.llm_model 3 in
    if not (cfg.llm_mode == "mock" || cfg.llm_mode == "real")
    then exits
        ("unknown LLM_MODE '" ++ (cfg.llm_mode ++ "'; use 'mock' or 'real' (no silent fallback)"))
    else if cfg.llm_mode == "mock"
    then ready (mock cfg.trajectory_path cfg.fixture_dir)
    else checked p (preflight p answer)

-- `llm_factory()`, once: the mode `mock` reads the recording, whose head is `source` if that does not raise,
-- and checks the fixture's files. (`describe` of the recording's head does not raise.)
abbrev pub provided : Factory → Try (Unit {0}) → Started
provided f (done u) = ready f
provided f (raised e) = crashes e

unfoldable pub built :
    (String → String) → List (String × String) → Try RecordedFrom → Factory → Started
unfolding open_mock
built sha256 files recording (real p) = ready (real p)
built sha256 files (raised e) (mock path dir) = crashes e
built sha256 files (done source) (mock path dir) =
    provided (mock path dir) (open_mock sha256 source files)

module _ (k : Docker) (sha256 : String → String) (files : List (String × String))
    (recording : Try RecordedFrom) where
  -- The containers of tasks that do not run are removed; the line that is printed then describes the
  -- provider, which is built for that.
  unfoldable pub cleaned : Factory → Try ℕ × k.D → Started × k.D
  unfolding built
  cleaned f (done removed, d) = (built sha256 files recording f, d)
  cleaned f (raised e, d) = (crashes e, d)

  unfoldable pub cleans : Store → k.D → Started → Started × k.D
  unfolding cleaned gc tasks_with_status
  cleans s d (ready f) =
      cleaned f (gc k (map (λ (t : Task). t.id) (tasks_with_status is_running s)) d)
  cleans s d (exits why) = (exits why, d)
  cleans s d (crashes e) = (crashes e, d)

  -- `main`, up to its loop
  unfoldable pub start : Config → Posted → Store → k.D → Started × k.D
  unfolding make_llm_factory cleans
  start cfg answer s d =
      if not (cfg.sandbox_backend == "docker")
      then (exits ("unknown sandbox backend '" ++ (cfg.sandbox_backend ++ "'")), d)
      else cleans s d (make_llm_factory cfg answer)

-- ===== src/Record.antt =====
-- worker/record.py: `to_trajectory` and `main`. The sandbox is a container of the Docker daemon `k`; the
-- model's endpoint is `inner`, the `chat` of the provider, with a state of its own; the hash, the date,
-- the fixture's files and their archive are parameters. What `main` prints is left out.
pub mod Faithful
use Prim.Native.String.{◌++◌}
use cloudagentperform.Base.{String, Option, none, some, List, [], if◌then◌else◌}
use cloudagentperform.Models.{Json, is_succeeded}
use cloudagentperform.Agent.{Env, Exc, other_error, Try, done, raised, ChatReply, Message}
use cloudagentperform.Agent.Llm.{new_provider, Posted, preflight}
use cloudagentperform.Agent.Llm.Body.{Parse, parsed, raises, untyped}
use cloudagentperform.Agent.Loop.{Ended, returned, stopped, escaped, Agent, run_agent}
use cloudagentperform.Agent.Replay.{Step}
use cloudagentperform.Agent.Recording.{recording}
use cloudagentperform.Sandbox.{Docker, Member, start, destroy}
use cloudagentperform.Sandbox.Interrupt.{Rest, sandboxed}
use cloudagentperform.Start.{Config, RecordedFrom, hashed_text}

-- The file of a recording.
pub record Trajectory : Type 0 where
  pub recorded_from : RecordedFrom
  pub steps : List Step

abbrev pub to_trajectory :
    (String → String) → String → List (String × String) → List Step → String → String → Trajectory
to_trajectory sha256 today files steps model base_url = record {
  recorded_from = record {
    model = model;
    base_url = some base_url;
    date = some today;
    fixture_sha256 = some (sha256 (hashed_text files));
  };
  steps = steps;
}

-- `main` writes the file, ends in `SystemExit`, or lets an exception through.
pub data Recorded : Type 0 where
  wrote : String → Trajectory → Recorded
  quits : String → Recorded
  fails : Exc → Recorded

abbrev pub reason_text : Option String → String
reason_text none = "None"
reason_text (some why) = why

-- What is done with the outcome. Each run comes to an end (Agent.Loop.Soundness).
abbrev pub concluded : String → Trajectory → Option Ended → Recorded
concluded out t none = fails (other_error "")
concluded out t (some (returned o)) =
    if is_succeeded o.status
    then wrote out t
    else quits ("recording run failed: " ++ (reason_text o.reason ++ "; nothing written"))
concluded out t (some (stopped why)) = fails (other_error why)
concluded out t (some (escaped x)) = fails x

-- The sandbox, with `should_stop=lambda: None`.
abbrev pub sandbox : (k : Docker) → Rest k.D → String → Env
sandbox k rest id = sandboxed k id (record rest { should_stop = λ d. (none, d) })

module _ (k : Docker) (rest : Rest k.D) {M : Type 0} (inner : List Message → M → ChatReply × M)
    (cfg : Config) (prompt : String) where
  abbrev pub agent_run : String → M → k.D → Option Ended × Agent ((List Step × M) × k.D)
  agent_run id m d =
      run_agent (recording inner (sandbox k rest id)) cfg.tool_timeout prompt cfg.max_steps
        (([], m), d)

module _ (k : Docker) (rest : Rest k.D) {M : Type 0} (inner : List Message → M → ChatReply × M)
    (cfg : Config) (prompt : String) (sha256 : String → String) (today : String)
    (files : List (String × String)) (archive : List Member) (out : String) where
  -- The `try` with its `finally`, and what follows.
  abbrev pub with_sandbox : M → Try String × k.D → Recorded × k.D
  with_sandbox m (done id, d) =
      let run = agent_run k rest inner cfg prompt id m d in
      let t = to_trajectory sha256 today files run.1.env.0.0 cfg.llm_model cfg.llm_base_url in
      (concluded out t run.0, destroy k id run.1.env.1)
  with_sandbox m (raised x, d) = (fails x, d)

  abbrev pub after_preflight : M → k.D → Parse (List Json) → Recorded × k.D
  after_preflight m d (parsed names) =
      with_sandbox m (start k cfg.sandbox_image "record" 1 (some archive) d)
  after_preflight m d (raises x) = (fails x, d)
  after_preflight m d untyped = (fails (other_error "a value of another type"), d)

  -- `main`, once the configuration is read. Three is the default of `max_retries`.
  unfoldable pub main : Posted → M → k.D → Recorded × k.D
  unfolding run_agent start destroy preflight new_provider
  main answer m d =
      after_preflight m d (preflight (new_provider cfg.llm_base_url cfg.llm_model 3) answer)

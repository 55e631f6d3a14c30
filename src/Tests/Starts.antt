-- ===== src/Tests/Starts.antt =====
-- A worker that starts with a real model.
use cloudagentperform.Base.{◌≡◌, refl, some, []}
use cloudagentperform.Models.{str, arr, obj, no_items, item, no_members, member}
use cloudagentperform.Store.Table.{init}
use cloudagentperform.Agent.{Try, raised, file_not_found}
use cloudagentperform.Agent.Llm.{Provider, Posted, response}
use cloudagentperform.Start.{Config, RecordedFrom, real, start}
use cloudagentperform.Agent.Llm.Body.{get_or, iterated}
use cloudagentperform.Start.Modes.{Chosen, IsOpen, start-Chosen}
use cloudagentperform.Tests.Sandboxes.{daemon}

abbrev pub config : Config
config = record {
  db_path = "cap.db";
  artifacts_dir = "artifacts";
  redis_url = "redis://localhost";
  worker_id = "w1";
  max_concurrency = 2;
  lease_ttl = 15;
  max_steps = 20;
  task_timeout = 300;
  tool_timeout = 30;
  step_delay_ms = 0;
  sandbox_backend = "docker";
  sandbox_image = "cap-sandbox";
  fixture_dir = "repo";
  trajectory_path = "golden.json";
  llm_mode = "real";
  llm_base_url = "http://llm/v1/";
  llm_api_key = "";
  llm_model = "m";
}

-- The endpoint's list of models.
abbrev pub models : Posted
models = response 200 "" (
    some (
      obj
        (member "data" (arr (item (obj (member "id" (str "m") no_members)) no_items)) no_members)))

abbrev endpoint : Provider
endpoint = record { base_url = "http://llm/v1"; model = "m"; max_retries = 3 }

abbrev unread : Try RecordedFrom
unread = raised file_not_found

start-Chosen_example :
    (config.sandbox_backend ≡ "docker")
    × Chosen config models (real endpoint)
    × IsOpen (λ s. s) [] unread (real endpoint)
unfolding start get_or iterated
start-Chosen_example = start-Chosen (λ s. s) [] unread daemon init [] config models refl

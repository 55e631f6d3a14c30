-- ===== src/Tests/Columns.antt =====
-- Rows of the tables at concrete inputs, with a `json` that knows one text.
use cloudagentperform.Base.{◌≡◌, refl, some, none, [], ◌==◌, if◌then◌else◌}
use cloudagentperform.Models.{running, Event}
use cloudagentperform.Store.{new_row}
use cloudagentperform.Store.Columns.{JsonText, task_of, event_of, inserted, row_of, event_row}
use cloudagentperform.Store.Columns.Readings.{task_of-row}
use cloudagentperform.Tests.Stores.{row}

abbrev json : JsonText
json = record {
  loads_usage = λ s. if s == "{}" then some [] else none;
  dumps_usage = λ d. "{}";
  loads_payload = λ s. if s == "{}" then some [] else none;
  dumps_payload = λ d. "{}";
}

abbrev logged : Event
logged = record {
  id = 1;
  task_id = "t1";
  attempt = 1;
  type = "job.started";
  ts = "12:00";
  payload = [];
}

task_of-row_example :
    (task_of json (row_of json (row running)) ≡ some (row running))
    × (event_of json (event_row json logged) ≡ some logged)
    × (task_of json (inserted "t2" "12:00" "fix" none 2) ≡ some (new_row "t2" "12:00" "fix" none 2))
task_of-row_example = task_of-row json (row running) logged "t2" "12:00" "fix" none 2 refl refl refl

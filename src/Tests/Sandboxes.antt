-- ===== src/Tests/Sandboxes.antt =====
-- The docker sandbox at concrete inputs, with a daemon that keeps a list of containers.
use cloudagentperform.Base.{
  ◌≡◌, refl, Dict, lookup, String, true, false, not, ◌&&◌, none, some, List, [], ◌∷◌, keep, any,
  ◌==◌, map, arith, eq_iff,
}
use cloudagentperform.Sandbox.{Member, Docker, Container, answered, not_found, gc, died}
use cloudagentperform.Sandbox.Artifacts.{download, joined, sorted}
use cloudagentperform.Sandbox.Files.{Files, same, above}
use cloudagentperform.Sandbox.Placed.{member_of, download_lem}
use cloudagentperform.Sandbox.Nested.{download_nested}
use cloudagentperform.Models.{Json, str}
use cloudagentperform.Agent.{raised, file_not_found, llm_error}
use cloudagentperform.Agent.Tools.{run_tool}
use cloudagentperform.Sandbox.Interrupt.{Rest, sandboxed, run_tool-Gone}
use cloudagentperform.Sandbox.Removal.{Removes, Cleared, gc-Cleared}

abbrev made : Files
made = ("b.txt" ∷ [], "2") ∷ ("docs" ∷ "a.txt" ∷ [], "1") ∷ []

abbrev fetched : List Member
fetched =
    record { name = "output" ∷ "docs" ∷ []; is_file = false; content = "" } ∷ map member_of made

download_lem_example :
    download (answered fetched) [] ≡ some (sorted ("b.txt" ∷ "docs/a.txt" ∷ []), made)
unfolding joined same above
download_lem_example =
    download_lem fetched made refl (refl, (refl, tt))
      ((record { differ = refl; not_above = refl; not_below = refl }, tt), (tt, tt))

download_nested_example :
    (download
        (answered (
          record { name = "output" ∷ "output" ∷ "log.txt" ∷ []; is_file = true; content = "1" }
          ∷ []))
        []
      ≡ some ("output/log.txt" ∷ [], []))
    × (download
          (answered
            (record { name = "output" ∷ "output" ∷ []; is_file = true; content = "1" } ∷ []))
          []
        ≡ none)
unfolding joined
download_nested_example = download_nested "log.txt" [] "1" refl

pub any-keep :
    (id id' : String) (d : List Container)
    → any (λ c. c.id == id') (keep (λ c. not (c.id == id)) d)
      ≡ (not (id == id') && any (λ c. c.id == id') d)
any-keep id id' [] = ground arith
any-keep id id' (c ∷ d) =
    ground (arith, eq_iff id id', eq_iff c.id id, eq_iff c.id id', any-keep id id' d)

-- The state is the list of containers; only listing and removing do anything.
abbrev pub daemon : Docker
daemon = record {
  D = List Container;
  exec_run = λ id command d. (answered (none, none), d);
  put_archive = λ id path ms d. (answered tt, d);
  get_archive = λ id path d. (not_found "no such file", d);
  reload = λ id d. (answered false, d);
  remove = λ id d. (answered tt, keep (λ c. not (c.id == id)) d);
  run_container =
      λ image task attempt name d. (answered name, record { id = name; task_id = task } ∷ d);
  list_all = λ task d. (answered d, d);
}

abbrev pub removes : Removes daemon
removes = record {
  alive = λ id d. any (λ c. c.id == id) d;
  answers = λ id d. refl;
  effect = λ id d id'. any-keep id id' d;
}

abbrev both : List Container
both = record { id = "c1"; task_id = "t1" } ∷ record { id = "c2"; task_id = "t2" } ∷ []

gc-Cleared_example :
    Cleared daemon removes
      (record { id = "c2"; task_id = "t2" } ∷ [])
      0
      both
      (gc daemon ("t1" ∷ []) both)
gc-Cleared_example = gc-Cleared daemon removes ("t1" ∷ []) both refl

-- A daemon that has no container any more.
abbrev void : Docker
void = record {
  D = Unit {0};
  exec_run = λ id command d. (not_found "no container", d);
  put_archive = λ id path ms d. (not_found "no container", d);
  get_archive = λ id path d. (not_found "no container", d);
  reload = λ id d. (not_found "no container", d);
  remove = λ id d. (not_found "no container", d);
  run_container = λ image task attempt name d. (not_found "no image", d);
  list_all = λ task d. (answered [], d);
}

abbrev rest : Rest (Unit {0})
rest = record {
  chat = λ ms d. (llm_error "down", d);
  should_stop = λ d. (some "cancelled", d);
  str_of = λ j. "";
  odd_exec = λ j timeout d. (raised file_not_found, d);
  odd_read = λ j max d. (raised file_not_found, d);
  odd_write = λ j content d. (raised file_not_found, d);
}

abbrev with_command : Dict Json
with_command = ("command", str "ls") ∷ []

abbrev with_path : Dict Json
with_path = ("path", str "a.py") ∷ []

abbrev with_content : Dict Json
with_content = ("path", str "a.py") ∷ ("content", str "") ∷ []

run_tool-Gone_example :
    (run_tool (sandboxed void "c1" rest) "bash" with_command 30 tt
      ≡ (raised (died "no container"), tt))
    × ((run_tool (sandboxed void "c1" rest) "read_file" with_path 30 tt
          ≡ (raised (died "no container"), tt))
        × ((run_tool (sandboxed void "c1" rest) "write_file" with_content 30 tt
              ≡ (raised (died "no container"), tt))
            × (run_tool (sandboxed void "c1" rest) "list_dir" with_path 30 tt
                ≡ (raised (died "no container"), tt))))
unfolding lookup
run_tool-Gone_example =
    run_tool-Gone void "c1" rest "no container" tt
      (record { exec_run = λ command. refl; get_archive = λ path. refl; reload = refl })
      with_command with_path with_content with_path "ls" "a.py" "a.py" "" "a.py" 30 refl refl refl
      refl refl

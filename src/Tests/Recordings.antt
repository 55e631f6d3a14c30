-- ===== src/Tests/Recordings.antt =====
-- A recording of two replies, and its replay.
use cloudagentperform.Base.{ℕ, suc, refl, ◌≡◌, String, false, none, List, [], ◌∷◌}
use cloudagentperform.Agent.{ChatReply, Message, raised, file_not_found, llm_error}
use cloudagentperform.Agent.Llm.{preflight, new_provider}
use cloudagentperform.Agent.Llm.Body.{get_or, iterated}
use cloudagentperform.Agent.Loop.{run_agent}
use cloudagentperform.Agent.Recording.{recording_chat, replaying}
use cloudagentperform.Agent.Recording.Simulation.{Same}
use cloudagentperform.Agent.Recording.Echoes.{Kept, first_run, run_agent-Same}
use cloudagentperform.Sandbox.{Container, start}
use cloudagentperform.Sandbox.Interrupt.{Rest}
use cloudagentperform.Record.{Trajectory, to_trajectory, main}
use cloudagentperform.Record.Faithful.{Faithful, main-Faithful, main_destroys}
use cloudagentperform.Tests.Agents.{reply, scripted}
use cloudagentperform.Tests.Sandboxes.{daemon, removes}
use cloudagentperform.Tests.Starts.{config, models}

abbrev inner : List Message → ℕ → ChatReply × ℕ
inner ms n = (reply n, suc n)

abbrev rest : Rest (List Container)
rest = record {
  chat = λ ms d. (llm_error "down", d);
  should_stop = λ d. (none, d);
  str_of = λ j. "";
  odd_exec = λ j timeout d. (raised file_not_found, d);
  odd_read = λ j max d. (raised file_not_found, d);
  odd_write = λ j content d. (raised file_not_found, d);
}

abbrev hash : String → String
hash s = "h"

run_agent-Same_example : Same Kept (first_run scripted 60 inner "list the files" 3 0 0) (
    run_agent
      (replaying (first_run scripted 60 inner "list the files" 3 0 0).1.env.0.0 scripted)
      60
      "list the files"
      3
      (0, 0))
unfolding run_agent recording_chat
run_agent-Same_example = run_agent-Same scripted 60 inner "list the files" 3 0 0 (λ e. cc e)

abbrev trajectory : Trajectory
trajectory =
    to_trajectory hash "2026-01-01" []
      (first_run scripted 60 inner "list the files" 3 0 0).1.env.0.0 "m" "http://llm/v1/"

main-Faithful_example :
    Faithful daemon rest inner config "list the files" hash "2026-01-01" [] [] "golden.json" [] 0
      "golden.json" trajectory
unfolding main get_or iterated recording_chat
main-Faithful_example =
    main-Faithful daemon rest inner config "list the files" hash "2026-01-01" [] [] "golden.json"
      models 0 [] refl

main_destroys_example :
    removes.alive "cap-record-a1"
      (main daemon rest inner config "list the files" hash "2026-01-01" [] [] "golden.json" models 0
        []).1
    ≡ false
unfolding preflight get_or iterated start new_provider
main_destroys_example =
    main_destroys daemon rest inner config "list the files" removes hash "2026-01-01" [] []
      "golden.json" models 0 [] (record { id = "cap-record-a1"; task_id = "record" } ∷ [])
      "cap-record-a1" refl refl

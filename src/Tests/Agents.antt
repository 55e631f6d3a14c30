-- ===== src/Tests/Agents.antt =====
-- The agent with a scripted model: it lists the directory, then it answers.
use cloudagentperform.Base.{ℕ, zero, suc, none, some, [], ◌∷◌, false}
use cloudagentperform.Agent.{Env, ToolCall, ChatReply, replied, done}
use cloudagentperform.Agent.Loop.{run_agent}
use cloudagentperform.Agent.Loop.Counts.{Ensures}
use cloudagentperform.Agent.Loop.Soundness.{run_agent-Sound}

abbrev pub look : ToolCall
look = record { id = "c1"; name = "list_dir"; arguments = some []; parse_error = none }

abbrev pub reply : ℕ → ChatReply
reply zero = replied (record { text = none; tool_calls = look ∷ []; usage = [] })
reply (suc n) = replied (record { text = some "done"; tool_calls = []; usage = [] })

-- The state counts the calls of the model.
abbrev pub scripted : Env
scripted = record {
  E = ℕ;
  chat = λ ms n. (reply n, suc n);
  should_stop = λ n. (none, n);
  exec = λ cmd timeout n.
      (done (record { exit_code = some 0; output = "a.py"; timed_out = false }), n);
  read_file = λ path max n. (done "", n);
  write_file = λ path content n. (done tt, n);
  str_of = λ v. "";
}

run_agent-Sound_example : Ensures 3 (λ a. ⊥) (run_agent scripted 60 "list the files" 3 0)
run_agent-Sound_example = run_agent-Sound scripted 60 "list the files" 3 0

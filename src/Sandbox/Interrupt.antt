-- ===== src/Sandbox/Interrupt.antt =====
-- The tools of agent/tools.py over the handle of sandbox/docker_provider.py, once the container is gone.
-- Removing the container is how the reaper of worker/attempt.py stops a tool that runs.
use Prim.Native.String.{◌++◌}
use cloudagentperform.Base.{
  ℕ, String, ◌≡◌, refl, sym, subst, Option, none, some, List, Dict, lookup,
}
use cloudagentperform.Models.{Json, str}
use cloudagentperform.Agent.{Env, ExecResult, Message, ChatReply, key_error, Try, done, raised}
use cloudagentperform.Agent.Tools.{
  max_tool_output, argument, quoted, quote, run_bash, run_read_file, run_write_file, run_list_dir,
  run_tool,
}
use cloudagentperform.Sandbox.{
  Docker, not_found, died, exec, write_file, read_file, dirname, absolute,
}

argument-some :
    (key : String) (args : Dict Json) {v : Json}
    → lookup key args ≡ some v
    → argument key args ≡ done v
unfolding argument
argument-some key args {v} h =
    subst
      (λ (o : Option Json). (elim o [ none ↦ raised (key_error key) | some w ↦ done w ]) ≡ done v)
      (sym h) refl

-- The daemon's answers about a container that is gone.
pub record Gone (k : Docker) (id why : String) (d : k.D) : Type 0 where
  pub exec_run : (command : List String) → k.exec_run id command d ≡ (not_found why, d)
  pub get_archive : (path : String) → k.get_archive id path d ≡ (not_found why, d)
  pub reload : k.reload id d ≡ (not_found why, d)

-- What an attempt has besides its container: the model, the stop flag, Python's `str`, and what the
-- handle does with arguments that are no texts.
pub record Rest (D : Type 0) : Type 0 where
  pub chat : List Message → D → ChatReply × D
  pub should_stop : D → Option String × D
  pub str_of : Json → String
  pub odd_exec : Json → ℕ → D → Try ExecResult × D
  pub odd_read : Json → ℕ → D → Try String × D
  pub odd_write : Json → Json → D → Try (Unit {0}) × D

module _ (k : Docker) (id : String) (rest : Rest k.D) where
  abbrev pub exec_json : Json → ℕ → k.D → Try ExecResult × k.D
  exec_json (str command) timeout d = exec k id command timeout d
  exec_json j timeout d = rest.odd_exec j timeout d

  abbrev pub read_json : Json → ℕ → k.D → Try String × k.D
  read_json (str path) max d = read_file k id path max d
  read_json j max d = rest.odd_read j max d

  abbrev pub write_json : Json → Json → k.D → Try (Unit {0}) × k.D
  write_json (str path) (str content) d = write_file k id path content d
  write_json j content d = rest.odd_write j content d

  -- The container as the sandbox of the agent.
  abbrev pub sandboxed : Env
  sandboxed = record {
    E = k.D;
    chat = rest.chat;
    should_stop = rest.should_stop;
    exec = exec_json;
    read_file = read_json;
    write_file = write_json;
    str_of = rest.str_of;
  }

  module _ (why : String) (d : k.D) (gone : Gone k id why d) where
    exec-Gone :
        (command : String) (timeout : ℕ) → exec k id command timeout d ≡ (raised (died why), d)
    unfolding exec
    exec-Gone command timeout = rw (gone.exec_run _) refl

    read_file-Gone : (path : String) (max : ℕ) → read_file k id path max d ≡ (raised (died why), d)
    unfolding read_file
    read_file-Gone path max = rw (gone.get_archive _, gone.reload) refl

    write_file-Gone :
        (path content : String) → write_file k id path content d ≡ (raised (died why), d)
    unfolding write_file
    write_file-Gone path content =
        rw (exec-Gone ("mkdir -p " ++ quote (dirname (absolute path))) 10) refl

    -- Once the container is gone, each tool raises `SandboxDied`, each called with arguments of its own in
    -- which the ones that it reads are texts: `bash` a command, `read_file` and `list_dir` a path, and
    -- `write_file` a path and a content.
    pub run_tool-Gone :
        (for_bash for_read for_write for_list : Dict Json)
        (command read_path write_path content list_path : String) (timeout : ℕ)
        → lookup "command" for_bash ≡ some (str command)
        → lookup "path" for_read ≡ some (str read_path)
        → lookup "path" for_write ≡ some (str write_path)
        → lookup "content" for_write ≡ some (str content)
        → lookup "path" for_list ≡ some (str list_path)
        → (run_tool sandboxed "bash" for_bash timeout d ≡ (raised (died why), d))
          × ((run_tool sandboxed "read_file" for_read timeout d ≡ (raised (died why), d))
              × ((run_tool sandboxed "write_file" for_write timeout d ≡ (raised (died why), d))
                  × (run_tool sandboxed "list_dir" for_list timeout d ≡ (raised (died why), d))))
    unfolding run_tool run_bash run_read_file run_write_file run_list_dir quoted
    run_tool-Gone for_bash for_read for_write for_list command read_path write_path content
          list_path timeout c p w t l =
        (
          rw (argument-some "command" for_bash c, exec-Gone command timeout) refl,
          (
            rw (argument-some "path" for_read p, read_file-Gone read_path max_tool_output) refl,
            (
              rw
                  (
                    argument-some "path" for_write w,
                    argument-some "content" for_write t,
                    write_file-Gone write_path content,
                  )
                  refl,
              rw (argument-some "path" for_list l, exec-Gone ("ls -la " ++ quote list_path) timeout)
                  refl,
            ),
          ),
        )

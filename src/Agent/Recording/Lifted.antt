-- ===== src/Agent/Recording/Lifted.antt =====
-- The tools of agent/tools.py act on the sandbox alone: beside the state of a model they do the same.
use cloudagentperform.Base.{
  ◌≡◌, refl, ap, ◌∙◌, Bool, true, false, ℕ, String, ◌==◌, if◌then◌else◌, Option, none, some, List,
  Dict,
}
use cloudagentperform.Models.{Json}
use cloudagentperform.Agent.{
  Env, ToolCall, key_error, type_error, file_not_found, sandbox_died, other_error, Try, done,
  raised, Message, ChatReply,
}
use cloudagentperform.Agent.Tools.{
  ToolResult, argument, length_of, quoted, ◌>>=◌, read_outcome, run_bash, run_read_file,
  run_write_file, run_list_dir, run_tool, in_tool_names, max_tool_output,
}
use cloudagentperform.Agent.Loop.{truthy, arguments_of, caught, tool_result}
use cloudagentperform.Agent.Recording.{lift, with_model}

module _ (v : Env) {M : Type 0} (chat : List Message → M → ChatReply × M) (m : M) where
  abbrev w : Env
  w = with_model v chat

  bind-lift :
      {A B : Type 0} (p : Try A × v.E) (f : A → w.E → Try B × w.E) (g : A → v.E → Try B × v.E)
      → ((a : A) (e : v.E) → f a (m, e) ≡ lift m (g a e))
      → ◌>>=◌ w (lift m p) f ≡ lift m (◌>>=◌ v p g)
  bind-lift (done a, e) f g h = h a e
  bind-lift (raised x, e) f g h = refl

  read_outcome-lift :
      (path : Json) (p : Try String × v.E)
      → read_outcome w path (lift m p) ≡ lift m (read_outcome v path p)
  read_outcome-lift path (done c, e) = refl
  read_outcome-lift path (raised (key_error k), e) = refl
  read_outcome-lift path (raised (type_error t), e) = refl
  read_outcome-lift path (raised file_not_found, e) = refl
  read_outcome-lift path (raised (sandbox_died t), e) = refl
  read_outcome-lift path (raised (other_error t), e) = refl

  caught-lift :
      (name : String) (p : Try ToolResult × v.E) → caught name (lift m p) ≡ lift m (caught name p)
  caught-lift name (done c, e) = refl
  caught-lift name (raised (key_error k), e) = refl
  caught-lift name (raised (type_error t), e) = refl
  caught-lift name (raised file_not_found, e) = refl
  caught-lift name (raised (sandbox_died t), e) = refl
  caught-lift name (raised (other_error t), e) = refl

  module _ (args : Dict Json) (timeout : ℕ) (e : v.E) where
    run_bash-lift : run_bash w args timeout (m, e) ≡ lift m (run_bash v args timeout e)
    unfolding run_bash
    run_bash-lift =
        bind-lift (argument "command" args, e) _ _
          λ command e. bind-lift (v.exec command timeout e) _ _ (λ r e. refl)

    run_read_file-lift : run_read_file w args (m, e) ≡ lift m (run_read_file v args e)
    unfolding run_read_file
    run_read_file-lift =
        bind-lift (argument "path" args, e) _ _
          λ path e. read_outcome-lift path (v.read_file path max_tool_output e)

    run_write_file-lift : run_write_file w args (m, e) ≡ lift m (run_write_file v args e)
    unfolding run_write_file
    run_write_file-lift =
        bind-lift (argument "path" args, e) _ _
          λ path e.
            bind-lift (argument "content" args, e) _ _
              λ content e.
                bind-lift (v.write_file path content e) _ _
                  λ u e. bind-lift (length_of content, e) _ _ (λ n e. refl)

    run_list_dir-lift : run_list_dir w args timeout (m, e) ≡ lift m (run_list_dir v args timeout e)
    unfolding run_list_dir
    run_list_dir-lift =
        bind-lift (argument "path" args, e) _ _
          λ path e.
            bind-lift (quoted path, e) _ _ λ q e. bind-lift (v.exec _ timeout e) _ _ (λ r e. refl)

    if-lift :
        (b : Bool) {p q : Try ToolResult × w.E} {p' q' : Try ToolResult × v.E}
        → p ≡ lift m p'
        → q ≡ lift m q'
        → (if b then p else q) ≡ lift m (if b then p' else q')
    if-lift true h k = h
    if-lift false h k = k

    run_tool-lift :
        (name : String)
        → run_tool w name args timeout (m, e) ≡ lift m (run_tool v name args timeout e)
    unfolding run_tool
    run_tool-lift name = if-lift (name == "bash") run_bash-lift (
        if-lift (name == "read_file") run_read_file-lift (
          if-lift (name == "write_file") run_write_file-lift
            (if-lift (name == "list_dir") run_list_dir-lift refl)))

  tool_result-cases :
      (o : Option String) (b : Bool) (r : String → Try ToolResult) (e : v.E)
      {p : Try ToolResult × w.E} {q : Try ToolResult × w.E} {p' q' : Try ToolResult × v.E}
      → p ≡ lift m p'
      → q ≡ lift m q'
      → (elim o [ none ↦ if b then p else q | some why ↦ (r why, (m, e)) ])
        ≡ lift m (elim o [ none ↦ if b then p' else q' | some why ↦ (r why, e) ])
  tool_result-cases none true r e h k = h
  tool_result-cases none false r e h k = k
  tool_result-cases (some why) b r e h k = refl

  pub tool_result-lift :
      (timeout : ℕ) (call : ToolCall) (e : v.E)
      → tool_result w timeout call (m, e) ≡ lift m (tool_result v timeout call e)
  unfolding tool_result
  tool_result-lift timeout call e =
      tool_result-cases (truthy call.parse_error) (in_tool_names call.name) _ e
        (ap (caught call.name) (run_tool-lift (arguments_of call) timeout e call.name)
          ∙ caught-lift call.name (run_tool v call.name (arguments_of call) timeout e))
        refl

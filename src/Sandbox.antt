-- ===== src/Sandbox.antt =====
-- sandbox/docker_provider.py: the handle of one container, and the provider. The Docker daemon is a
-- parameter with a state of its own. Sandbox.Artifacts has `download_artifacts`.
pub mod Files
pub mod Artifacts
pub mod Moves
pub mod Placed
pub mod Nested
pub mod Removal
pub mod Interrupt
use Prim.Native.Char.{code}
use Prim.Native.String.{◌++◌}
use cloudagentperform.Base.{
  ℕ, String, Bool, true, false, not, ◌&&◌, ◌||◌, Option, none, some, List, [], ◌∷◌, map, ◌==◌,
  if◌then◌else◌, nat_eq, ◌+◌, any,
}
use cloudagentperform.Agent.{
  ExecResult, Exc, file_not_found, sandbox_died, other_error, Try, done, raised,
}
use cloudagentperform.Agent.Text.{decimal, take_chars}
use cloudagentperform.Agent.Tools.{quote}
use cloudagentperform.Agent.Llm.{strip_slashes}

-- A member of a tar archive: its path, whether it is a regular file, and its data. A character stands
-- for a byte.
pub record Member : Type 0 where
  pub name : List String
  pub is_file : Bool
  pub content : String

-- What a call of the daemon comes to. `NotFound` is a subclass of `APIError`, and that one of
-- `DockerException`.
pub data Reply {ℓ} (A : Type ℓ) : Type ℓ where
  answered : A → Reply A
  not_found : String → Reply A
  api_error : String → Reply A
  docker_error : String → Reply A

-- A container in a list: its id, and the value of the label `cap.task_id`.
pub record Container : Type 0 where
  pub id : String
  pub task_id : String

-- The calls that the program makes. The first text of each names the container; `run_container`
-- takes the image, the labels and the name.
pub record Docker : Type 1 where
  pub D : Type 0
  pub exec_run : String → List String → D → Reply (Option ℕ × Option String) × D
  pub put_archive : String → String → List Member → D → Reply (Unit {0}) × D
  pub get_archive : String → String → D → Reply (List Member) × D
  pub reload : String → D → Reply Bool × D
  pub remove : String → D → Reply (Unit {0}) × D
  pub run_container : String → String → String → String → D → Reply String × D
  pub list_all : Option String → D → Reply (List Container) × D

-- `_abs`
abbrev pub starts_slash : String → Bool
starts_slash String.[] = false
starts_slash (String.◌∷◌ c s) = nat_eq (code c) b'/'

unfoldable pub absolute : String → String
absolute path = if starts_slash path then path else "/workspace/" ++ path

-- `posixpath.basename` and the part of the path before it
abbrev pub has_slash : String → Bool
has_slash String.[] = false
has_slash (String.◌∷◌ c s) = nat_eq (code c) b'/' || has_slash s

unfoldable pub basename : String → String
basename String.[] = String.[]
basename (String.◌∷◌ c s) =
    let rest = basename s in if nat_eq (code c) b'/' || has_slash s then rest else String.◌∷◌ c s

unfoldable pub head_part : String → String
head_part String.[] = String.[]
head_part (String.◌∷◌ c s) =
    let rest = head_part s in
    if nat_eq (code c) b'/' || has_slash s then String.◌∷◌ c rest else String.[]

-- `posixpath.dirname`: the slashes at the end go, unless there is nothing else.
unfoldable pub dirname : String → String
unfolding head_part strip_slashes
dirname path =
    let head = head_part path in let bare = strip_slashes head in if bare == "" then head else bare

-- `_died`
abbrev pub died : String → Exc
died why = sandbox_died ("sandbox container gone: " ++ why)

-- `except (APIError, NotFound, DockerException)`
abbrev pub or_died {ℓ κ} : {A : Type ℓ} {B : Type κ} → (A → Try B) → Reply A → Try B
or_died f (answered a) = f a
or_died f (not_found why) = raised (died why)
or_died f (api_error why) = raised (died why)
or_died f (docker_error why) = raised (died why)

-- An exception of the daemon that nothing handles.
abbrev pub unhandled {ℓ} : {A : Type ℓ} → Reply A → Try A
unhandled (answered a) = done a
unhandled (not_found why) = raised (other_error why)
unhandled (api_error why) = raised (other_error why)
unhandled (docker_error why) = raised (other_error why)

abbrev pub text_or_empty : Option String → String
text_or_empty none = ""
text_or_empty (some s) = s

abbrev pub timed_out : Option ℕ → Bool
timed_out none = false
timed_out (some code) = nat_eq code 124

abbrev pub exec_result : Option ℕ × Option String → Try ExecResult
exec_result (code, output) =
    done (record { exit_code = code; output = text_or_empty output; timed_out = timed_out code })

-- `next(m for m in tf.getmembers() if m.isfile())`, and the data of that member.
unfoldable pub first_file : ℕ → List Member → Try String
unfolding take_chars
first_file max [] = raised (other_error "StopIteration")
first_file max (m ∷ ms) = if m.is_file then done (take_chars max m.content) else first_file max ms

-- The probe after a path was not found: is the container itself still there?
abbrev pub missing : Reply Bool → Try String
missing reply = or_died (λ oom. raised file_not_found) reply

-- Goes on with the state unless an exception was raised.
abbrev pub then_do {ℓ κ} :
    {D : Type 0} {A : Type ℓ} {B : Type κ} → Try A × D → (A → D → Try B × D) → Try B × D
then_do (done a, d) f = f a d
then_do (raised x, d) f = (raised x, d)

module _ (k : Docker) where
  open k use {D}

  -- `DockerSandboxHandle.exec`
  unfoldable pub exec : String → String → ℕ → D → Try ExecResult × D
  unfolding decimal
  exec id command timeout d =
      let (reply, d') =
        k.exec_run id ("timeout" ∷ "-k" ∷ "2" ∷ decimal timeout ∷ "bash" ∷ "-lc" ∷ command ∷ [])
          d in
      (or_died exec_result reply, d')

  unfoldable pub write_file : String → String → String → D → Try (Unit {0}) × D
  unfolding absolute dirname basename exec quote
  write_file id path content d =
      let full = absolute path in
      then_do (exec id ("mkdir -p " ++ quote (dirname full)) 10 d) (λ r d'.
        let (reply, d'') =
          k.put_archive id (dirname full)
            (record { name = basename full ∷ []; is_file = true; content = content } ∷ []) d' in
        (or_died done reply, d''))

  abbrev pub read_reply : String → ℕ → Reply (List Member) × D → Try String × D
  read_reply id max (answered ms, d) = (first_file max ms, d)
  read_reply id max (not_found why, d) = let (reply, d') = k.reload id d in (missing reply, d')
  read_reply id max (api_error why, d) = (raised (died why), d)
  read_reply id max (docker_error why, d) = (raised (died why), d)

  unfoldable pub read_file : String → String → ℕ → D → Try String × D
  unfolding absolute first_file
  read_file id path max d = read_reply id max (k.get_archive id (absolute path) d)

  unfoldable pub destroy : String → D → D
  destroy id d = (k.remove id d).1

  abbrev pub is_oom : Reply Bool → Bool
  is_oom (answered killed) = killed
  is_oom _ = false

  unfoldable pub oom_killed : String → D → Bool × D
  oom_killed id d = let (reply, d') = k.reload id d in (is_oom reply, d')

  -- `DockerSandboxProvider.start`. `fixture` is the archive of the workspace, if there is one.
  abbrev pub upload : String → Option (List Member) → D → Try (Unit {0}) × D
  upload id none d = (done tt, d)
  upload id (some ms) d =
      let (reply, d') = k.put_archive id "/workspace" ms d in (unhandled reply, d')

  unfoldable pub start : String → String → ℕ → Option (List Member) → D → Try String × D
  unfolding exec take_chars
  start image task_id attempt fixture d =
      let (reply, d') =
        k.run_container image task_id (decimal attempt)
          ("cap-" ++ (take_chars 12 task_id ++ ("-a" ++ decimal attempt))) d in
      then_do (unhandled reply, d')
        (λ id d₁.
          then_do (upload id fixture d₁)
            (λ u d₂. then_do (exec id "mkdir -p /workspace/output" 10 d₂) (λ r d₃. (done id, d₃))))

  -- The loop of `gc` and `remove_for_task`: `NotFound` and `APIError` are passed over.
  abbrev pub counted : Reply (Unit {0}) × D → ℕ → (ℕ → D → Try ℕ × D) → Try ℕ × D
  counted (answered u, d) removed rest = rest (removed + 1) d
  counted (not_found why, d) removed rest = rest removed d
  counted (api_error why, d) removed rest = rest removed d
  counted (docker_error why, d) removed rest = (raised (other_error why), d)

  unfoldable pub remove_all : (Container → Bool) → List Container → ℕ → D → Try ℕ × D
  remove_all chosen [] removed d = (done removed, d)
  remove_all chosen (c ∷ cs) removed d =
      let rest = remove_all chosen cs in
      if chosen c then counted (k.remove c.id d) removed rest else rest removed d

  unfoldable pub gc : List String → D → Try ℕ × D
  unfolding remove_all
  gc active d =
      let (reply, d') = k.list_all none d in
      then_do (unhandled reply, d')
        (λ cs d₁. remove_all (λ c. not (any (λ tid. tid == c.task_id) active)) cs 0 d₁)

  unfoldable pub remove_for_task : String → D → Try ℕ × D
  unfolding remove_all
  remove_for_task task_id d =
      let (reply, d') = k.list_all (some task_id) d in
      then_do (unhandled reply, d') (λ cs d₁. remove_all (λ c. true) cs 0 d₁)

-- ===== src/Agent/Tools.antt =====
-- agent/tools.py: the four tools, over the sandbox of an environment.
use Prim.Native.Char.{code}
use Prim.Native.String.{String, ◌++◌, [], ◌∷◌}
use cloudagentperform.Base.{
  ℕ, ◌+◌, ◌-◌, Bool, true, false, not, ◌&&◌, ◌||◌, ◌==◌, if◌then◌else◌, leb, nat_eq, Option, none,
  some, Dict, lookup,
}
use cloudagentperform.Models.{
  Json, null, bool, num, str, arr, obj, Items, no_items, item, Members, no_members, member,
}
use cloudagentperform.Agent.{
  Env, ExecResult, key_error, type_error, file_not_found, Try, done, raised,
}
use cloudagentperform.Agent.Text.{take_chars, drop_chars, size, decimal}

abbrev pub max_tool_output : ℕ
max_tool_output = 50_000

unfoldable pub truncate_head : String → ℕ → String × Bool
unfolding size take_chars decimal
truncate_head text limit = if leb (size text) limit then (text, false) else (
  take_chars limit text ++ ("\n...[truncated " ++ (decimal (size text - limit) ++ " chars]")),
  true,
)

-- `text[-limit:]` is the whole text if the limit is 0.
unfoldable pub last_chars : ℕ → String → String
unfolding size drop_chars
last_chars limit text = if nat_eq limit 0 then text else drop_chars (size text - limit) text

unfoldable pub truncate_tail : String → ℕ → String × Bool
unfolding size last_chars decimal
truncate_tail text limit = if leb (size text) limit then (text, false) else (
  ("[truncated " ++ (decimal (size text - limit) ++ " chars]...\n")) ++ last_chars limit text,
  true,
)

-- The dictionary that a tool returns.
pub record ToolResult : Type 0 where
  pub ok : Bool
  pub exit_code : Option ℕ
  pub output : String
  pub truncated : Bool

-- `args[key]`
unfoldable pub argument : String → Dict Json → Try Json
unfolding lookup
argument key args = elim (lookup key args) [ none ↦ raised (key_error key) | some v ↦ done v ]

unfoldable pub count_items : Items → ℕ
count_items no_items = 0
count_items (item v l) = count_items l + 1

unfoldable pub count_members : Members → ℕ
count_members no_members = 0
count_members (member k v d) = count_members d + 1

-- `len(value)`
unfoldable pub length_of : Json → Try ℕ
unfolding size count_items count_members
length_of null = raised (type_error "object of type 'NoneType' has no len()")
length_of (bool b) = raised (type_error "object of type 'bool' has no len()")
length_of (num n) = raised (type_error "object of type 'int' has no len()")
length_of (str s) = done (size s)
length_of (arr l) = done (count_items l)
length_of (obj d) = done (count_members d)

-- The characters that `shlex.quote` leaves bare: `[\w@%+=:,./-]` in ASCII.
unfoldable pub is_safe : ℕ → Bool
is_safe c =
    (leb b'a' c && leb c b'z')
    || (leb b'A' c && leb c b'Z')
    || (leb b'0' c && leb c b'9')
    || nat_eq c b'_'
    || nat_eq c b'@'
    || nat_eq c b'%'
    || nat_eq c b'+'
    || nat_eq c b'='
    || nat_eq c b':'
    || nat_eq c b','
    || nat_eq c b'.'
    || nat_eq c b'/'
    || nat_eq c b'-'

unfoldable pub all_safe : String → Bool
unfolding is_safe
all_safe [] = true
all_safe (c ∷ s) = is_safe (code c) && all_safe s

-- Each single quote becomes `'"'"'`.
unfoldable pub escape : String → String
escape [] = []
escape (c ∷ s) = let rest = escape s in if nat_eq (code c) 39 then "'\"'\"'" ++ rest else c ∷ rest

unfoldable pub quote : String → String
unfolding all_safe escape
quote s = if s == "" then "''" else if all_safe s then s else "'" ++ (escape s ++ "'")

-- `shlex.quote(value)` raises for what is no text.
unfoldable pub quoted : Json → Try String
unfolding quote
quoted (str s) = done (quote s)
quoted v = raised (type_error "expected string or bytes-like object")

-- `r.exit_code == 0`
abbrev pub exited_zero : ExecResult → Bool
exited_zero r = elim r.exit_code [ none ↦ false | some n ↦ nat_eq n 0 ]

unfoldable pub bash_result : ExecResult → ℕ → ToolResult
unfolding truncate_tail
bash_result r timeout =
    let (out, truncated) = truncate_tail r.output max_tool_output in
    record {
      ok = exited_zero r && not r.timed_out;
      exit_code = r.exit_code;
      output =
          if r.timed_out
          then out ++ ("\n[tool timed out after " ++ (decimal timeout ++ "s]"))
          else out;
      truncated = truncated;
    }

unfoldable pub read_result : String → ToolResult
unfolding truncate_head
read_result content =
    let (out, truncated) = truncate_head content max_tool_output in
    record { ok = true; exit_code = none; output = out; truncated = truncated }

unfoldable pub list_result : ExecResult → ToolResult
unfolding truncate_head
list_result r =
    let (out, truncated) = truncate_head r.output max_tool_output in
    record { ok = exited_zero r; exit_code = r.exit_code; output = out; truncated = truncated }

module _ (v : Env) where
  open v use {E, exec, read_file, write_file, str_of}

  -- A call of the sandbox, and then what is made of its value; an exception passes through.
  infixl 5 ◌>>=◌
  abbrev pub ◌>>=◌ {ℓ κ} : {A : Type ℓ} {B : Type κ} → Try A × E → (A → E → Try B × E) → Try B × E
  (done a, e) >>= f = f a e
  (raised x, e) >>= f = (raised x, e)

  unfoldable pub run_bash : Dict Json → ℕ → E → Try ToolResult × E
  unfolding argument bash_result
  run_bash args timeout e = (argument "command" args, e) >>= λ command e.
      exec command timeout e >>= λ r e. (done (bash_result r timeout), e)

  abbrev pub read_outcome : Json → Try String × E → Try ToolResult × E
  read_outcome path (done content, e) = (done (read_result content), e)
  read_outcome path (raised file_not_found, e) = (
    done (record {
      ok = false;
      exit_code = none;
      output = "file not found: " ++ str_of path;
      truncated = false;
    }),
    e,
  )
  read_outcome path (raised x, e) = (raised x, e)

  unfoldable pub run_read_file : Dict Json → E → Try ToolResult × E
  unfolding argument read_result
  run_read_file args e =
      (argument "path" args, e) >>= λ path e. read_outcome path (read_file path max_tool_output e)

  -- The length is taken after the file has been written.
  unfoldable pub run_write_file : Dict Json → E → Try ToolResult × E
  unfolding argument length_of
  run_write_file args e = (argument "path" args, e) >>= λ path e.
      (argument "content" args, e) >>= λ content e. write_file path content e >>= λ u e.
      (length_of content, e) >>= λ n e. (
        done (record {
          ok = true;
          exit_code = none;
          output = "wrote " ++ (decimal n ++ (" chars to " ++ str_of path));
          truncated = false;
        }),
        e,
      )

  unfoldable pub run_list_dir : Dict Json → ℕ → E → Try ToolResult × E
  unfolding argument quoted list_result
  run_list_dir args timeout e = (argument "path" args, e) >>= λ path e. (quoted path, e) >>= λ q e.
      exec (str ("ls -la " ++ q)) timeout e >>= λ r e. (done (list_result r), e)

  unfoldable pub run_tool : String → Dict Json → ℕ → E → Try ToolResult × E
  unfolding run_bash run_read_file run_write_file run_list_dir
  run_tool name args timeout e =
      if name == "bash"
      then run_bash args timeout e
      else if name == "read_file"
      then run_read_file args e
      else if name == "write_file"
      then run_write_file args e
      else if name == "list_dir"
      then run_list_dir args timeout e
      else (raised (key_error name), e)

-- `name in TOOL_NAMES`
unfoldable pub in_tool_names : String → Bool
in_tool_names name =
    name == "bash" || name == "read_file" || name == "write_file" || name == "list_dir"

-- ===== src/Agent.antt =====
-- The agent: agent/llm.py, agent/tools.py and agent/loop.py. Here are the values that they pass, and
-- the interface to what runs outside the repository: the model behind `chat`, the sandbox container
-- and the stop flag. An exception of a call is a value of `Try`.
pub mod Text
pub mod Tools
pub mod Loop
pub mod Recording
pub mod Replay
pub mod Llm
use cloudagentperform.Base.{ℕ, String, Bool, Option, none, some, List, Dict}
use cloudagentperform.Models.{Json}

-- agent/llm.py
pub record ToolCall : Type 0 where
  pub id : String
  pub name : String
  pub arguments : Option (Dict Json)
  pub parse_error : Option String

pub record ChatResult : Type 0 where
  pub text : Option String
  pub tool_calls : List ToolCall
  pub usage : Dict ℕ

-- What `chat` does: it returns, raises `LLMError`, or raises anything else, such as the
-- `TrajectoryMismatch` of agent/mock.py.
pub data ChatReply : Type 0 where
  replied : ChatResult → ChatReply
  llm_error : String → ChatReply
  chat_raised : String → ChatReply

-- sandbox/provider.py
pub record ExecResult : Type 0 where
  pub exit_code : Option ℕ
  pub output : String
  pub timed_out : Bool

-- The exceptions that agent/loop.py and its callers tell apart, with the text of each.
pub data Exc : Type 0 where
  key_error : String → Exc
  type_error : String → Exc
  file_not_found : Exc
  sandbox_died : String → Exc
  other_error : String → Exc

pub data Try {ℓ} (A : Type ℓ) : Type ℓ where
  done : A → Try A
  raised : Exc → Try A

-- The messages of the conversation. The JSON texts in them stand for their values.
pub data Message : Type 0 where
  system : String → Message
  user : String → Message
  assistant : String → List ToolCall → Message
  tool : String → Dict Json → Message

-- The outside world of an attempt, with a state `E` of its own. The arguments of a tool are JSON
-- values of any type, as the model sent them. `str_of` is Python's `str` of such a value.
pub record Env : Type 1 where
  pub E : Type 0
  pub chat : List Message → E → ChatReply × E
  pub should_stop : E → Option String × E
  pub exec : Json → ℕ → E → Try ExecResult × E
  pub read_file : Json → ℕ → E → Try String × E
  pub write_file : Json → Json → E → Try (Unit {0}) × E
  pub str_of : Json → String

-- ===== src/Agent/Loop.antt =====
-- agent/loop.py: `run_agent`. `emit` appends to a list of events, and `time.sleep` has no effect.
pub mod Counts
pub mod Soundness
use Prim.Native.String.{String, ◌++◌}
use cloudagentperform.Base.{
  ℕ, zero, suc, ◌+◌, Bool, true, false, not, ◌==◌, if◌then◌else◌, Option, none, some, List, [], ◌∷◌,
  Dict, lookup,
}
use mathlib.Core.List.{◌++◌ as ◌+++◌}
use cloudagentperform.Models.{
  Status, succeeded, failed, Json, null, bool, num, str, obj, members, ev_message, ev_tool_call,
  ev_tool_result, r_model, r_max_steps,
}
use cloudagentperform.Agent.{
  Env, ToolCall, ChatResult, ChatReply, replied, llm_error, chat_raised, Exc, key_error, type_error,
  other_error, Try, done, raised, Message, system, user, assistant, tool,
}
use cloudagentperform.Agent.Text.{strip_reasoning, decimal}
use cloudagentperform.Agent.Tools.{ToolResult, run_tool, in_tool_names}

abbrev pub Emission : Type 0
Emission = String × Dict Json

pub record Outcome : Type 0 where
  pub status : Status
  pub reason : Option String
  pub summary : Option String
  pub usage : Dict ℕ
  pub transcript : List Message

-- How `run_agent` ends: it returns, raises `Stopped`, or lets an exception through.
pub data Ended : Type 0 where
  returned : Outcome → Ended
  stopped : String → Ended
  escaped : Exc → Ended

-- The variables of `run_agent`.
pub record Agent (E : Type 0) : Type 0 where
  pub env : E
  pub emitted : List Emission
  pub messages : List Message
  pub prompt_tokens : ℕ
  pub completion_tokens : ℕ

abbrev pub emit : {E : Type 0} → String → Dict Json → Agent E → Agent E
emit type payload a = record a { emitted = a.emitted +++ (type, payload) ∷ [] }

abbrev pub system_prompt : String
system_prompt =
    "You are an autonomous engineering agent working inside an isolated "
    ++ ("Linux sandbox. The project to work on is in /workspace (your cwd). "
        ++ ("Use the provided tools to complete the user's task. Write deliverable "
            ++ ("files under /workspace/output/. When the task is complete, reply with "
                ++ ("a short final summary and no tool calls.\n"
                    ++ ("Rules:\n"
                        ++ ("1. Make one tool call at a time and wait for its result before you "
                            ++ ("decide the next step.\n"
                                ++ ("2. Tool calls do not share a shell session: environment variables, "
                                    ++ ("`cd` and command output never carry over from one call to the next. "
                                        ++ ("Never put $VAR or backticks in write_file content hoping an earlier "
                                            ++ ("command filled them in — write the literal text you want to appear in "
                                                ++ ("the file, copied from a tool result you have already seen.\n"
                                                    ++ ("3. If a command exits non-zero or prints nothing, do not repeat it "
                                                        ++ ("unchanged. Run a simpler variant (for example plain "
                                                            ++ ("`grep -rn TODO .`) to find out why.\n"
                                                            ++ ("4. Keep reasoning brief; the context window is small."))))))))))))))))

abbrev pub nudge : String
nudge =
    "Your last reply contained no visible answer and no tool call. "
    ++ ("Either call a tool to make progress, or state the final result " ++ ("in plain text."))

-- The keys of a tool's payload. (The failures of the loop itself list them in another order.)
abbrev pub payload_of : ToolResult → Dict Json
payload_of r =
    ("ok", bool r.ok)
    ∷ ("exit_code", elim r.exit_code [ none ↦ null | some n ↦ num n ])
    ∷ ("output", str r.output)
    ∷ ("truncated", bool r.truncated)
    ∷ []

abbrev pub failure : String → ToolResult
failure output = record { ok = false; exit_code = none; output = output; truncated = false }

-- `call.arguments or {}`
abbrev pub arguments_of : ToolCall → Dict Json
arguments_of call = elim call.arguments [ none ↦ [] | some d ↦ d ]

abbrev pub call_payload : ToolCall → Dict Json
call_payload call =
    ("call_id", str call.id)
    ∷ ("name", str call.name)
    ∷ ("arguments", obj (members (arguments_of call)))
    ∷ []

abbrev pub result_payload : ToolCall → ToolResult → Dict Json
result_payload call r = ("call_id", str call.id) ∷ ("name", str call.name) ∷ payload_of r

-- `if value:` of an optional text: the text, if there is one and it is not empty.
abbrev pub truthy : Option String → Option String
truthy none = none
truthy (some s) = if s == "" then none else some s

-- `result.usage.get(k, 0)`
unfoldable pub used : String → Dict ℕ → ℕ
unfolding lookup
used k usage = elim (lookup k usage) [ none ↦ 0 | some n ↦ n ]

-- The handler of `except (KeyError, TypeError)`; another exception passes through.
abbrev pub caught {ℓ} : {E : Type ℓ} → String → Try ToolResult × E → Try ToolResult × E
caught name (done r, e) = (done r, e)
caught name (raised (key_error k), e) =
    (done (failure ("invalid arguments for " ++ (name ++ (": KeyError('" ++ (k ++ "')"))))), e)
caught name (raised (type_error m), e) =
    (done (failure ("invalid arguments for " ++ (name ++ (": TypeError('" ++ (m ++ "')"))))), e)
caught name (raised x, e) = (raised x, e)

-- Runs the rest only if nothing has ended the run.
abbrev pub and_then :
    {E : Type 0}
    → Option Ended × Agent E
    → (Agent E → Option Ended × Agent E)
    → Option Ended × Agent E
and_then (none, a) rest = rest a
and_then (some x, a) rest = (some x, a)

module _ (v : Env) (tool_timeout : ℕ) where
  open v use {E, chat, should_stop}

  -- `check()`
  unfoldable pub check : Agent E → Option Ended × Agent E
  check a =
      let (reason, e) = should_stop a.env in
      (elim (truthy reason) [ none ↦ none | some why ↦ some (stopped why) ], record a { env = e })

  unfoldable pub tool_result : ToolCall → E → Try ToolResult × E
  unfolding run_tool in_tool_names
  tool_result call e = elim (truthy call.parse_error) [
    | some why ↦ (done (failure ("invalid tool arguments: " ++ why)), e)
    | none ↦
        if in_tool_names call.name
        then caught call.name (run_tool v call.name (arguments_of call) tool_timeout e)
        else (
          done (
              failure (
                "unknown tool: '"
                ++ (call.name ++ "'; available: ['bash', 'list_dir', 'read_file', 'write_file']"))),
          e,
        )
  ]

  abbrev pub record_result : ToolCall → Try ToolResult × E → Agent E → Option Ended × Agent E
  record_result call (done r, e) a = (
    none,
    record a {
      env = e;
      emitted = a.emitted +++ (ev_tool_result, result_payload call r) ∷ [];
      messages = a.messages +++ tool call.id (payload_of r) ∷ [];
    },
  )
  record_result call (raised x, e) a = (some (escaped x), record a { env = e })

  -- The body of the loop over the tool calls.
  unfoldable pub run_call : ToolCall → Agent E → Option Ended × Agent E
  unfolding check tool_result
  run_call call a =
      and_then (check a)
        λ a. record_result call (tool_result call a.env) (emit ev_tool_call (call_payload call) a)

  unfoldable pub run_calls : List ToolCall → Agent E → Option Ended × Agent E
  unfolding run_call
  run_calls [] a = (none, a)
  run_calls (call ∷ calls) a = and_then (run_call call a) (run_calls calls)

  abbrev pub usage_total : Agent E → Dict ℕ
  usage_total a =
      ("prompt_tokens", a.prompt_tokens) ∷ ("completion_tokens", a.completion_tokens) ∷ []

  abbrev pub outcome : Status → Option String → String → Agent E → Option Ended × Agent E
  outcome status reason summary a = (
    some (
        returned (record {
          status = status;
          reason = reason;
          summary = some summary;
          usage = usage_total a;
          transcript = a.messages;
        })),
    a,
  )

  abbrev pub message_payload : String → Bool → Dict Json
  message_payload text final = ("text", str text) ∷ ("final", bool final) ∷ []

  -- A reply with no tool call: the final answer, or a turn of reasoning alone.
  unfoldable pub answer : String → Agent E → Option Ended × Agent E
  answer text a =
      if text == ""
      then (none, record a { messages = a.messages +++ assistant "" [] ∷ user nudge ∷ [] })
      else outcome succeeded none text (record a {
        emitted = a.emitted +++ (ev_message, message_payload text true) ∷ [];
        messages = a.messages +++ assistant text [] ∷ [];
      })

  unfoldable pub act : String → List ToolCall → Agent E → Option Ended × Agent E
  unfolding run_calls
  act text calls a =
      let said = record a { messages = a.messages +++ assistant text calls ∷ [] } in
      run_calls calls
        (if text == "" then said else emit ev_message (message_payload text false) said)

  unfoldable pub follow : String → List ToolCall → Agent E → Option Ended × Agent E
  unfolding answer act
  follow text [] a = answer text a
  follow text (call ∷ calls) a = act text (call ∷ calls) a

  unfoldable pub respond : ChatResult → Agent E → Option Ended × Agent E
  unfolding strip_reasoning follow used
  respond result a = follow (strip_reasoning result.text) result.tool_calls (record a {
    prompt_tokens = a.prompt_tokens + used "prompt_tokens" result.usage;
    completion_tokens = a.completion_tokens + used "completion_tokens" result.usage;
  })

  abbrev pub on_reply : ChatReply × E → Agent E → Option Ended × Agent E
  on_reply (replied result, e) a = respond result (record a { env = e })
  on_reply (llm_error why, e) a = outcome failed (some r_model) why (record a { env = e })
  on_reply (chat_raised why, e) a = (some (escaped (other_error why)), record a { env = e })

  -- One step: a check, a call of the model, and what follows from its reply.
  unfoldable pub step : Agent E → Option Ended × Agent E
  unfolding check respond
  step a = and_then (check a) λ a. on_reply (chat a.messages a.env) a

  unfoldable pub steps : ℕ → Agent E → Option Ended × Agent E
  unfolding step
  steps zero a = (none, a)
  steps (suc n) a = and_then (step a) (steps n)

  abbrev pub start : String → E → Agent E
  start prompt e = record {
    env = e;
    emitted = [];
    messages = system system_prompt ∷ user prompt ∷ [];
    prompt_tokens = 0;
    completion_tokens = 0;
  }

  unfoldable pub run_agent : String → ℕ → E → Option Ended × Agent E
  unfolding steps decimal
  run_agent prompt max_steps e =
      and_then (steps max_steps (start prompt e)) λ a.
        outcome failed (some r_max_steps) ("gave up after " ++ (decimal max_steps ++ " steps")) a

-- ===== src/Agent/Replay.antt =====
-- worker/record.py, `RecordingLLM`, and agent/mock.py, `MockProvider`: a recording and its replay. Start
-- has the check of the fixture's hash that comes before; the file in between is left out. A step of the
-- file is a record, with an optional field where the replay has a default.
pub mod RoundTrip
use Prim.Native.String.{◌++◌}
use mathlib.Core.List.{◌++◌ as ◌+++◌}
use cloudagentperform.Base.{
  ℕ, zero, suc, ◌+◌, String, Bool, true, false, Option, none, some, List, [], ◌∷◌, map, any,
  if◌then◌else◌, Dict,
}
use cloudagentperform.Models.{Json}
use cloudagentperform.Agent.{ToolCall, ChatResult, ChatReply, replied, llm_error, chat_raised}
use cloudagentperform.Agent.Text.{decimal}
use cloudagentperform.Agent.Loop.{truthy}

-- A tool call in a step: its name and its arguments.
abbrev pub RecordedCall : Type 0
RecordedCall = String × Option (Dict Json)

pub record Step : Type 0 where
  pub tool_calls : Option (List RecordedCall)
  pub text : Option String
  pub usage : Option (Dict ℕ)

abbrev pub is_malformed : ToolCall → Bool
is_malformed call = elim (truthy call.parse_error) [ none ↦ false | some why ↦ true ]

abbrev pub recorded : ChatResult → Step
recorded result = record {
  tool_calls = some (map (λ (c : ToolCall). (c.name, c.arguments)) result.tool_calls);
  text = result.text;
  usage = some result.usage;
}

-- `RecordingLLM.chat`, from the reply of the inner provider on
unfoldable pub record_chat : ChatReply → List Step → ChatReply × List Step
record_chat (replied result) steps =
    if any is_malformed result.tool_calls
    then (
      chat_raised "run produced a malformed tool_call; re-record — replays must be clean",
      steps,
    )
    else (replied result, steps +++ recorded result ∷ [])
record_chat (llm_error why) steps = (llm_error why, steps)
record_chat (chat_raised why) steps = (chat_raised why, steps)

-- `self.steps[i]`, where `i` is below the length
unfoldable pub step_at : ℕ → List Step → Option Step
step_at i [] = none
step_at zero (s ∷ steps) = some s
step_at (suc i) (s ∷ steps) = step_at i steps

abbrev pub replay_calls : ℕ → ℕ → List RecordedCall → List ToolCall
replay_calls i j [] = []
replay_calls i j ((name, arguments) ∷ calls) =
    record {
      id = "replay-" ++ (decimal i ++ ("-" ++ decimal j));
      name = name;
      arguments = arguments;
      parse_error = none;
    }
    ∷ replay_calls i (suc j) calls

abbrev pub replayed : ℕ → Step → ChatResult
replayed i step = record {
  text = step.text;
  tool_calls = replay_calls i 0 (elim step.tool_calls [ none ↦ [] | some calls ↦ calls ]);
  usage = elim step.usage [
    | none ↦ ("prompt_tokens", 0) ∷ ("completion_tokens", 0) ∷ []
    | some usage ↦ usage
  ];
}

-- `MockProvider.chat`: the reply and the cursor after it
unfoldable pub replay_chat : List Step → ℕ → ChatReply × ℕ
unfolding step_at
replay_chat steps i = elim (step_at i steps) [
  | none ↦ (chat_raised "trajectory exhausted: live run took more steps than the recording", i)
  | some step ↦ (replied (replayed (i + 1) step), i + 1)
]

-- A run of the recording provider over the replies of the inner one.
unfoldable pub record_run : List ChatReply → List Step → List Step
unfolding record_chat
record_run [] steps = steps
record_run (r ∷ rs) steps = record_run rs (record_chat r steps).1

-- As many calls of the replay, with its cursor.
unfoldable pub replay_run : List Step → ℕ → ℕ → List ChatReply × ℕ
unfolding replay_chat
replay_run steps zero i = ([], i)
replay_run steps (suc n) i =
    let (reply, i') = replay_chat steps i in
    let (replies, last) = replay_run steps n i' in (reply ∷ replies, last)

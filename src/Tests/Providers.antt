-- ===== src/Tests/Providers.antt =====
-- The client of the model's endpoint, with a server that fails once, then answers.
use cloudagentperform.Base.{
  ℕ, zero, suc, ◌≡◌, refl, String, true, none, some, List, [], ◌∷◌, lookup, ◌==◌, if◌then◌else◌,
}
use cloudagentperform.Models.{obj, no_members, member, null}
use cloudagentperform.Agent.{ToolCall, chat_raised}
use cloudagentperform.Agent.Llm.{Provider, Request, Posted, response, chatted, chat, Tried}
use cloudagentperform.Agent.Llm.Body.{Codec, dict_of, decoded, decode_error, parsed, parse}
use cloudagentperform.Agent.Llm.Retries.{
  repeated, final, last_reason, verdict, posts, after, Trials, chat-Trials,
}
use cloudagentperform.Agent.Llm.RoundTrip.{Written, body_json, Calls, parse-Calls}
use cloudagentperform.Agent.Llm.Malformed.{chat_malformed}

-- A reader that knows one text.
abbrev reader : Codec
reader = record {
  loads = λ s. if s == "{}" then decoded (obj no_members) else decode_error "Expecting value";
}

abbrev written : Written
written = record { id = "c1"; name = "list_dir"; arguments = "" }

-- The state counts the requests.
abbrev server : String → Request → ℕ → Posted × ℕ
server url request zero = (response 503 "busy" none, 1)
server url request (suc n) =
    (response 200 "" (some (body_json none (written ∷ []) 7 3)), suc (suc n))

abbrev broken : String → Request → ℕ → Posted × ℕ
broken url request n = (response 200 "" (some (obj (member "error" null no_members))), suc n)

abbrev endpoint : Provider
endpoint = record { base_url = "http://llm"; model = "m"; max_retries = 3 }

chat-Trials_example :
    let request : Request = record { model = endpoint.model; messages = []; tools = true } in
    (tried : List Tried) × Trials reader endpoint server request 3 0 tried
    × (chat reader endpoint server [] true 0 ≡ (
      verdict 3 (last_reason none (repeated tried)) (final tried),
      after reader endpoint server request (posts tried) 0,
    ))
chat-Trials_example = chat-Trials reader endpoint server [] true 0

parse-Calls_example :
    (calls : List ToolCall) × Calls reader (written ∷ []) calls
    × (parse reader (body_json none (written ∷ []) 7 3)
        ≡ parsed (record {
          text = none;
          tool_calls = calls;
          usage = ("prompt_tokens", 7) ∷ ("completion_tokens", 3) ∷ [];
        }))
parse-Calls_example = parse-Calls reader none (written ∷ []) 7 3

chat_malformed_example :
    chat reader endpoint broken [] true 0 ≡ (chatted (chat_raised "KeyError: choices"), 1)
unfolding lookup dict_of
chat_malformed_example =
    chat_malformed reader endpoint broken [] true 0 {body = member "error" null no_members} refl
      refl refl refl

-- ===== src/Agent/Llm.antt =====
-- agent/llm.py, `OpenAICompatProvider`: `chat` with its retries, and `preflight`. The HTTP client is the
-- parameter `post`, or `get`, with a state of its own; `time.sleep` has no effect. Agent.Llm.Body has
-- `_parse`.
pub mod Body
pub mod Retries
pub mod RoundTrip
pub mod Malformed
use Prim.Native.Char.{code}
use Prim.Native.String.{◌++◌}
use cloudagentperform.Base.{
  ℕ, zero, suc, ◌+◌, String, Bool, true, false, Option, none, some, List, [], ◌∷◌, ◌==◌,
  if◌then◌else◌, ◌&&◌, leb, ltb, nat_eq, any, Dict,
}
use cloudagentperform.Models.{Json, str, arr, obj, no_members, Items, no_items, item}
use cloudagentperform.Agent.{
  ToolCall, ChatResult, ChatReply, replied, llm_error, chat_raised, Exc, key_error, type_error,
  file_not_found, sandbox_died, other_error, Message,
}
use cloudagentperform.Agent.Text.{decimal, take_chars}
use Body.{Codec, Parse, parsed, raises, untyped, ◌>>=◌, get_or, index, text_of, iterated, parse}

-- `text.rstrip("/")`
unfoldable pub strip_slashes : String → String
strip_slashes String.[] = String.[]
strip_slashes (String.◌∷◌ c s) =
    let rest = strip_slashes s in
    if nat_eq (code c) b'/' && rest == "" then String.[] else String.◌∷◌ c rest

-- The configuration that `__init__` stores.
pub record Provider : Type 0 where
  pub base_url : String
  pub model : String
  pub max_retries : ℕ

unfoldable pub new_provider : String → String → ℕ → Provider
unfolding strip_slashes
new_provider base_url model max_retries = record {
  base_url = strip_slashes base_url;
  model = model;
  max_retries = max_retries;
}

unfoldable pub describe : Provider → Dict Json
describe p = ("mode", str "real") ∷ ("model", str p.model) ∷ ("base_url", str p.base_url) ∷ []

-- The body of a request: `tools` and `tool_choice` are in it if there are tools.
pub record Request : Type 0 where
  pub model : String
  pub messages : List Message
  pub tools : Bool

-- What an HTTP call comes to: an `httpx.TransportError`, or a response with its status, its text, and
-- what `resp.json()` gives, if it does not raise.
pub data Posted : Type 0 where
  transport_error : String → Posted
  response : ℕ → String → Option Json → Posted

-- What one try comes to: `chat` returns, tries again, or lets an exception through. `strange` stands
-- for a response with values of other types than the protocol's, which the model does not follow.
pub data Tried : Type 0 where
  accepted : ChatResult → Tried
  again : String → Tried
  raised : String → Tried
  strange : Tried

-- What `chat` comes to.
pub data Chatted : Type 0 where
  chatted : ChatReply → Chatted
  chatted_strange : Chatted

-- The texts of the exceptions that leave `_parse`.
abbrev pub exc_text : Exc → String
exc_text (key_error k) = "KeyError: " ++ k
exc_text (type_error m) = "TypeError: " ++ m
exc_text file_not_found = "FileNotFoundError"
exc_text (sandbox_died m) = m
exc_text (other_error m) = m

abbrev pub judged : Parse ChatResult → Tried
judged (parsed r) = accepted r
judged (raises e) = raised (exc_text e)
judged untyped = strange

abbrev pub judged_body : Codec → Option Json → Tried
judged_body c none = raised "JSONDecodeError"
judged_body c (some body) = judged (parse c body)

-- The body of the `try`, with its handler.
unfoldable pub judge : Codec → Posted → Tried
unfolding parse
judge c (transport_error why) = again why
judge c (response status text body) =
    if leb 400 status
    then again ("status " ++ (decimal status ++ (": " ++ take_chars 200 text)))
    else judged_body c body

-- `str(last)`, where `last` is `None` before the first failure
abbrev pub last_text : Option String → String
last_text none = "None"
last_text (some why) = why

-- How the loop goes on after a try.
abbrev pub settled : {E : Type 0} → Tried → E → (String → Chatted × E) → Chatted × E
settled (accepted r) e rest = (chatted (replied r), e)
settled (again why) e rest = rest why
settled (raised why) e rest = (chatted (chat_raised why), e)
settled strange e rest = (chatted_strange, e)

module _ {E : Type 0} (c : Codec) (p : Provider) (post : String → Request → E → Posted × E)
    (request : Request) where
  abbrev pub url : String
  url = p.base_url ++ "/chat/completions"

  -- The rest of the loop, with `left` tries to go.
  unfoldable pub tries : ℕ → Option String → E → Chatted × E
  unfolding judge
  tries zero last e = (
    chatted (
        llm_error
          ("llm failed after " ++ (decimal p.max_retries ++ (" tries: " ++ last_text last)))),
    e,
  )
  tries (suc left) last e =
      let (answer, e') = post url request e in
      settled (judge c answer) e' (λ why. tries left (some why) e')

-- `chat`
unfoldable pub chat :
    {E : Type 0}
    → Codec
    → Provider
    → (String → Request → E → Posted × E)
    → List Message
    → Bool
    → E
    → Chatted × E
unfolding tries
chat c p post messages tools e =
    tries c p post (record { model = p.model; messages = messages; tools = tools }) p.max_retries
      none e

-- `[m["id"] for m in …]`
unfoldable pub names_of : Items → Parse (List Json)
unfolding index
names_of no_items = parsed []
names_of (item m is) = do name ← index m "id"; names ← names_of is; parsed (name ∷ names)

abbrev pub is_named : String → Json → Bool
is_named name (str s) = s == name
is_named name _ = false

abbrev pub offered : Provider → Parse (List Json) → Parse (List Json)
offered p (parsed names) =
    if any (is_named p.model) names
    then parsed names
    else raises (other_error ("LLMError: model '" ++ (p.model ++ "' not served")))
offered p (raises e) = raises e
offered p untyped = untyped

abbrev pub models_in : Option Json → Parse (List Json)
models_in none = raises (other_error "JSONDecodeError")
models_in (some body) = do
  listed ← get_or body "data" (arr no_items)
  is ← iterated listed
  names_of is

-- `resp.raise_for_status()` raises unless the status is one of success. The answer is that of a GET of
-- `base_url + "/models"`; the end of the exception's text, which lists the names, is left out.
unfoldable pub preflight : Provider → Posted → Parse (List Json)
unfolding names_of
preflight p (transport_error why) = raises (other_error why)
preflight p (response status text body) =
    if leb 200 status && ltb status 300
    then offered p (models_in body)
    else raises (other_error "HTTPStatusError")

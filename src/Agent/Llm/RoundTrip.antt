-- ===== src/Agent/Llm/RoundTrip.antt =====
-- `_parse` of agent/llm.py on the bodies that the protocol describes.
use cloudagentperform.Base.{
  ℕ, ◌≡◌, refl, String, Bool, true, false, Dict, Option, none, some, List, [], ◌∷◌, map, ◌==◌,
  if◌then◌else◌, lookup, Bool-cases, inl, inr,
}
use cloudagentperform.Models.{
  Json, null, bool, num, str, arr, obj, Items, no_items, item, Members, no_members, member,
}
use cloudagentperform.Agent.{ToolCall}
use cloudagentperform.Agent.Llm.Body.{
  Codec, Decoded, decoded, decode_error, parsed, dict_of, or_else, decided, parse_call, parse_calls,
  parse, get_or, decode, iterated, index, first, content_of,
}

-- A tool call as the protocol sends it: its id, its name, and the text that the model wrote for its
-- arguments.
pub record Written : Type 0 where
  pub id : String
  pub name : String
  pub arguments : String

abbrev pub call_json : Written → Json
call_json w = obj (
    member "id" (str w.id) (
      member "type" (str "function") (
        member "function"
          (obj (member "name" (str w.name) (member "arguments" (str w.arguments) no_members)))
          no_members)))

abbrev pub calls_json : List Written → Items
calls_json [] = no_items
calls_json (w ∷ ws) = item (call_json w) (calls_json ws)

abbrev pub content_json : Option String → Json
content_json none = null
content_json (some s) = str s

abbrev pub body_json : Option String → List Written → ℕ → ℕ → Json
body_json text ws prompt completion = obj (
    member "choices"
      (arr (
        item
          (obj (
            member "message"
              (obj (
                member "role" (str "assistant") (
                  member "content" (content_json text)
                    (member "tool_calls" (arr (calls_json ws)) no_members))))
              no_members))
          no_items))
      (member "usage"
        (obj (
          member "prompt_tokens" (num prompt)
            (member "completion_tokens" (num completion) no_members)))
        no_members))

abbrev pub is_object : Json → Bool
is_object (obj ms) = true
is_object _ = false

module _ (c : Codec) where
  -- The call that the program works with. No text at all stands for no arguments.
  abbrev pub understood : Written → ToolCall
  understood w =
      let outcome = decided c (c.loads (if w.arguments == "" then "{}" else w.arguments)) in
      record { id = w.id; name = w.name; arguments = outcome.0; parse_error = outcome.1 }

  parse_call-call_json : (w : Written) → parse_call c (call_json w) ≡ parsed (understood w)
  unfolding parse_call get_or decode lookup dict_of
  parse_call-call_json w = elim (Bool-cases (w.arguments == "")) [ inl h ↦ rw (h) | inr h ↦ rw (h) ]

  iterated-calls_json :
      (ws : List Written)
      → iterated (or_else (arr (calls_json ws)) (arr no_items)) ≡ parsed (calls_json ws)
  unfolding iterated
  iterated-calls_json [] = refl
  iterated-calls_json (w ∷ ws) = refl

  content_of-content_json : (text : Option String) → content_of (content_json text) ≡ parsed text
  content_of-content_json none = refl
  content_of-content_json (some s) = refl

  parse_calls-calls_json :
      (ws : List Written) → parse_calls c (calls_json ws) ≡ parsed (map understood ws)
  unfolding parse_calls
  parse_calls-calls_json [] = refl
  parse_calls-calls_json (w ∷ ws) =
      rw (parse_call-call_json w, parse_calls-calls_json ws, parse_calls)

  parse-body_json :
      (text : Option String) (ws : List Written) (prompt completion : ℕ)
      → parse c (body_json text ws prompt completion)
        ≡ parsed (record {
          text = text;
          tool_calls = map understood ws;
          usage = ("prompt_tokens", prompt) ∷ ("completion_tokens", completion) ∷ [];
        })
  unfolding parse index first get_or lookup dict_of
  parse-body_json text ws prompt completion =
      rw (iterated-calls_json ws, parse_calls-calls_json ws, content_of-content_json text)

  -- What a text of arguments means: an object is a dictionary; any other JSON value, and a text that is no
  -- JSON, give no dictionary but an error.
  pub data Arguments (text : String) : Option (Dict Json) → Option String → Type 0 where
    object :
        (ms : Members) → c.loads text ≡ decoded (obj ms) → Arguments text (some (dict_of ms)) none
    no_object :
        (j : Json)
        → c.loads text ≡ decoded j
        → is_object j ≡ false
        → Arguments text none (some "arguments is not a JSON object")
    no_json : (why : String) → c.loads text ≡ decode_error why → Arguments text none (some why)

  decided-Arguments :
      (text : String) (d : Decoded)
      → c.loads text ≡ d
      → Arguments text (decided c d).0 (decided c d).1
  decided-Arguments text (decoded (obj ms)) e = object ms e
  decided-Arguments text (decoded null) e = no_object null e refl
  decided-Arguments text (decoded (bool b)) e = no_object (bool b) e refl
  decided-Arguments text (decoded (num n)) e = no_object (num n) e refl
  decided-Arguments text (decoded (str s)) e = no_object (str s) e refl
  decided-Arguments text (decoded (arr is)) e = no_object (arr is) e refl
  decided-Arguments text (decode_error why) e = no_json why e

  -- The calls that the program works with: the ids and names that were sent, and what the texts of the
  -- arguments mean. No text at all stands for `{}`.
  abbrev pub Calls : List Written → List ToolCall → Type 0
  Calls [] [] = Unit
  Calls [] (t ∷ ts) = ⊥
  Calls (w ∷ ws) [] = ⊥
  Calls (w ∷ ws) (t ∷ ts) =
      (t.id ≡ w.id)
      × (t.name ≡ w.name)
      × Arguments (if w.arguments == "" then "{}" else w.arguments) t.arguments t.parse_error
      × Calls ws ts

  understood-Calls : (ws : List Written) → Calls ws (map understood ws)
  understood-Calls [] = tt
  understood-Calls (w ∷ ws) = (refl, refl, decided-Arguments _ _ refl, understood-Calls ws)

  -- A body with the members that OpenAI's protocol describes and no other (one choice, its message with a
  -- role, a content and tool calls, and the usage) is parsed: the content, the two counts, and for each
  -- call its id, its name, and the dictionary that its arguments' text means or the error in it; no text
  -- at all stands for `{}`.
  pub parse-Calls :
      (text : Option String) (ws : List Written) (prompt completion : ℕ)
      → (calls : List ToolCall) × Calls ws calls
        × (parse c (body_json text ws prompt completion)
            ≡ parsed (record {
              text = text;
              tool_calls = calls;
              usage = ("prompt_tokens", prompt) ∷ ("completion_tokens", completion) ∷ [];
            }))
  parse-Calls text ws prompt completion =
      (map understood ws, understood-Calls ws, parse-body_json text ws prompt completion)

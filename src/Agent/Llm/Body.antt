-- ===== src/Agent/Llm/Body.antt =====
-- agent/llm.py, `_parse`: the reply in the body of a response. The body is any JSON value, so each
-- subscript and each `get` can raise. `json.loads` is a parameter.
use cloudagentperform.Base.{
  ℕ, zero, suc, String, true, false, Option, none, some, List, [], ◌∷◌, ◌==◌, if◌then◌else◌, Dict,
  lookup,
}
use cloudagentperform.Models.{
  Json, null, bool, num, str, arr, obj, Items, no_items, item, Members, no_members, member,
}
use cloudagentperform.Agent.{ToolCall, ChatResult, Exc, key_error, type_error, other_error}

-- `json.loads`: a value, or the text of its `JSONDecodeError`.
pub data Decoded : Type 0 where
  decoded : Json → Decoded
  decode_error : String → Decoded

-- The reader of the library `json`.
pub record Codec : Type 0 where
  pub loads : String → Decoded

-- The result of a part of `_parse`. `untyped` stands for a value that is stored although its type is
-- not the protocol's, such as a name that is no text.
pub data Parse {ℓ} (A : Type ℓ) : Type ℓ where
  parsed : A → Parse A
  raises : Exc → Parse A
  untyped : Parse A

infixl 5 ◌>>=◌
abbrev pub ◌>>=◌ {ℓ κ} : {A : Type ℓ} {B : Type κ} → Parse A → (A → Parse B) → Parse B
parsed a >>= f = f a
raises e >>= f = raises e
untyped >>= f = untyped

-- The dictionary of an object.
unfoldable pub dict_of : Members → Dict Json
dict_of no_members = []
dict_of (member k v ms) = (k, v) ∷ dict_of ms

-- `dictionary[key]`
abbrev pub at_key : String → Option Json → Parse Json
at_key key none = raises (key_error key)
at_key key (some v) = parsed v

-- `value[key]`
unfoldable pub index : Json → String → Parse Json
index (obj ms) key = at_key key (lookup key (dict_of ms))
index null key = raises (type_error "'NoneType' object is not subscriptable")
index (bool b) key = raises (type_error "'bool' object is not subscriptable")
index (num n) key = raises (type_error "'int' object is not subscriptable")
index (str s) key = raises (type_error "string indices must be integers")
index (arr is) key = raises (type_error "list indices must be integers or slices, not str")

-- `value[0]`
unfoldable pub first : Json → Parse Json
first (arr no_items) = raises (other_error "IndexError: list index out of range")
first (arr (item j is)) = parsed j
first (obj ms) = raises (key_error "0")
first (str String.[]) = raises (other_error "IndexError: string index out of range")
first (str (String.◌∷◌ c s)) = parsed (str (String.◌∷◌ c String.[]))
first null = raises (type_error "'NoneType' object is not subscriptable")
first (bool b) = raises (type_error "'bool' object is not subscriptable")
first (num n) = raises (type_error "'int' object is not subscriptable")

-- `value.get(key, default)`
unfoldable pub get_or : Json → String → Json → Parse Json
unfolding lookup dict_of
get_or (obj ms) key default = elim (lookup key (dict_of ms)) [
  | none ↦ parsed default
  | some v ↦ parsed v
]
get_or _ key default = raises (other_error "AttributeError: no attribute 'get'")

-- `value or default`
abbrev pub or_else : Json → Json → Json
or_else null default = default
or_else (bool false) default = default
or_else (bool true) default = bool true
or_else (num zero) default = default
or_else (num (suc n)) default = num (suc n)
or_else (str s) default = if s == "" then default else str s
or_else (arr no_items) default = default
or_else (arr (item j is)) default = arr (item j is)
or_else (obj no_members) default = default
or_else (obj (member k v ms)) default = obj (member k v ms)

-- A value that is stored where the protocol has a text, a number or a text that may be missing.
abbrev pub text_of : Json → Parse String
text_of (str s) = parsed s
text_of _ = untyped

abbrev pub number_of : Json → Parse ℕ
number_of (num n) = parsed n
number_of _ = untyped

abbrev pub content_of : Json → Parse (Option String)
content_of null = parsed none
content_of (str s) = parsed (some s)
content_of _ = untyped

-- The values that a `for` loop runs over. (Those of a text and of a dictionary are texts.)
abbrev pub keys : Members → Items
keys no_members = no_items
keys (member k v ms) = item (str k) (keys ms)

abbrev pub characters : String → Items
characters String.[] = no_items
characters (String.◌∷◌ c s) = item (str (String.◌∷◌ c String.[])) (characters s)

unfoldable pub iterated : Json → Parse Items
iterated (arr is) = parsed is
iterated (obj ms) = parsed (keys ms)
iterated (str s) = parsed (characters s)
iterated null = raises (type_error "'NoneType' object is not iterable")
iterated (bool b) = raises (type_error "'bool' object is not iterable")
iterated (num n) = raises (type_error "'int' object is not iterable")

module _ (c : Codec) where
  -- The `try` around `json.loads`: the arguments, or the text of the error.
  abbrev pub decided : Decoded → Option (Dict Json) × Option String
  decided (decoded (obj ms)) = (some (dict_of ms), none)
  decided (decoded _) = (none, some "arguments is not a JSON object")
  decided (decode_error why) = (none, some why)

  unfoldable pub decode : Json → Parse (Option (Dict Json) × Option String)
  decode (str s) = parsed (decided (c.loads s))
  decode _ = raises (type_error "the JSON object must be str, bytes or bytearray")

  -- The body of the loop over the tool calls.
  unfoldable pub parse_call : Json → Parse ToolCall
  unfolding get_or decode
  parse_call tc = do
    fn ← get_or tc "function" (obj no_members)
    raw ← get_or fn "arguments" null
    outcome ← decode (or_else raw (str "{}"))
    id ← get_or tc "id" (str "")
    name ← get_or fn "name" (str "")
    id' ← text_of id
    name' ← text_of name
    parsed (record { id = id'; name = name'; arguments = outcome.0; parse_error = outcome.1 })

  unfoldable pub parse_calls : Items → Parse (List ToolCall)
  unfolding parse_call
  parse_calls no_items = parsed []
  parse_calls (item tc is) = do call ← parse_call tc; calls ← parse_calls is; parsed (call ∷ calls)

  -- `_parse`
  unfoldable pub parse : Json → Parse ChatResult
  unfolding index first get_or iterated parse_calls
  parse body = do
    choices ← index body "choices"
    choice ← first choices
    msg ← index choice "message"
    listed ← get_or msg "tool_calls" null
    is ← iterated (or_else listed (arr no_items))
    calls ← parse_calls is
    counted ← get_or body "usage" null
    content ← get_or msg "content" null
    prompt ← get_or (or_else counted (obj no_members)) "prompt_tokens" (num 0)
    completion ← get_or (or_else counted (obj no_members)) "completion_tokens" (num 0)
    text ← content_of content
    prompt' ← number_of prompt
    completion' ← number_of completion
    parsed (record {
      text = text;
      tool_calls = calls;
      usage = ("prompt_tokens", prompt') ∷ ("completion_tokens", completion') ∷ [];
    })

-- ===== src/Agent/Llm/Malformed.antt =====
-- Responses that `_parse` of agent/llm.py cannot read.
use cloudagentperform.Base.{ℕ, suc, ◌≡◌, refl, String, Bool, false, none, some, List, lookup, leb}
use cloudagentperform.Models.{Members, obj}
use cloudagentperform.Agent.{chat_raised, Message}
use cloudagentperform.Agent.Llm.{
  Provider, Request, Posted, response, chatted, judge, url, tries, chat, raised, judged_body,
}
use cloudagentperform.Agent.Llm.Body.{Codec, dict_of, parse, index}

judged_body_malformed :
    (c : Codec) (body : Members)
    → lookup "choices" (dict_of body) ≡ none
    → judged_body c (some (obj body)) ≡ raised "KeyError: choices"
unfolding parse index
judged_body_malformed c body none_there = rw (none_there) refl

-- If the first request is answered with a status below 400 and a JSON object without `choices`, `chat`
-- raises a `KeyError` instead of an `LLMError`: it does not try again, whatever `max_retries` says.
pub chat_malformed :
    {E : Type 0} (c : Codec) (p : Provider) (post : String → Request → E → Posted × E)
    (messages : List Message) (tools : Bool) (e : E) {left status : ℕ} {text : String}
    {body : Members} {e' : E}
    → p.max_retries ≡ suc left
    → leb 400 status ≡ false
    → lookup "choices" (dict_of body) ≡ none
    → post
        (url c p post (record { model = p.model; messages = messages; tools = tools }))
        (record { model = p.model; messages = messages; tools = tools })
        e
      ≡ (response status text (some (obj body)), e')
    → chat c p post messages tools e ≡ (chatted (chat_raised "KeyError: choices"), e')
unfolding chat tries judge
chat_malformed c p post messages tools e {body = body} m s none_there answered =
    rw (m, answered, s, judged_body_malformed c body none_there) refl

-- ===== src/Agent/Llm/Retries.antt =====
-- The retries of `chat` in agent/llm.py, against what the single tries come to.
use cloudagentperform.Base.{
  ℕ, zero, suc, ◌≤◌, ◌<◌, ◌≡◌, refl, ap, ◌∙◌, String, Bool, Option, none, some, List, [], ◌∷◌, leb,
  arith, Bool-cases, inl, inr,
}
use cloudagentperform.Models.{Json}
use cloudagentperform.Agent.{ChatResult, Exc, replied, llm_error, chat_raised, Message}
use cloudagentperform.Agent.Llm.{
  Provider, Request, Posted, transport_error, response, exc_text, judged, judged_body, Tried,
  accepted, again, raised, strange, Chatted, chatted, chatted_strange, judge, last_text, settled,
  url, tries, chat,
}
use cloudagentperform.Agent.Llm.Body.{Codec, Parse, parsed, raises, untyped, parse}
use cloudagentperform.Agent.Text.{decimal, take_chars}
use Prim.Native.String.{◌++◌}
use mathlib.Core.Path.{fun_ext}

-- The tries before the first that is not to be repeated, and the others.
abbrev pub repeated : List Tried → List Tried
repeated [] = []
repeated (again why ∷ l) = again why ∷ repeated l
repeated (accepted r ∷ l) = []
repeated (raised why ∷ l) = []
repeated (strange ∷ l) = []

abbrev pub final : List Tried → List Tried
final [] = []
final (again why ∷ l) = final l
final (accepted r ∷ l) = accepted r ∷ l
final (raised why ∷ l) = raised why ∷ l
final (strange ∷ l) = strange ∷ l

-- The reason of the last failure.
abbrev pub last_reason : Option String → List Tried → Option String
last_reason last [] = last
last_reason last (again why ∷ l) = last_reason (some why) l
last_reason last (accepted r ∷ l) = last_reason last l
last_reason last (raised why ∷ l) = last_reason last l
last_reason last (strange ∷ l) = last_reason last l

-- What the first try that is not to be repeated makes of the call, or their absence.
abbrev pub verdict : ℕ → Option String → List Tried → Chatted
verdict max last [] =
    chatted (llm_error ("llm failed after " ++ (decimal max ++ (" tries: " ++ last_text last))))
verdict max last (accepted r ∷ l) = chatted (replied r)
verdict max last (raised why ∷ l) = chatted (chat_raised why)
verdict max last (strange ∷ l) = chatted_strange
verdict max last (again why ∷ l) = chatted_strange

-- One request more than the repeated ones, if there is a final one.
abbrev pub posts : List Tried → ℕ
posts [] = 0
posts (again why ∷ l) = suc (posts l)
posts (accepted r ∷ l) = 1
posts (raised why ∷ l) = 1
posts (strange ∷ l) = 1

module _ {E : Type 0} (c : Codec) (p : Provider) (post : String → Request → E → Posted × E)
    (request : Request) where
  -- The server's state after so many requests, and what the first of them come to one by one.
  abbrev pub after : ℕ → E → E
  after zero e = e
  after (suc n) e = after n (post (url c p post request) request e).1

  abbrev pub answers : ℕ → E → List Tried
  answers zero e = []
  answers (suc n) e =
      judge c (post (url c p post request) request e).0
      ∷ answers n (post (url c p post request) request e).1

  -- One try, with the rest of the loop as it should be.
  settled_lem :
      (left : ℕ) (last : Option String) (t : Tried) (e : E)
      → settled t (post (url c p post request) request e).1 (λ why. (
        verdict p.max_retries
            (last_reason
              (some why)
              (repeated (answers left (post (url c p post request) request e).1)))
            (final (answers left (post (url c p post request) request e).1)),
        after
            (posts (answers left (post (url c p post request) request e).1))
            (post (url c p post request) request e).1,
      ))
        ≡ (
          verdict p.max_retries
              (last_reason last
                (repeated (t ∷ answers left (post (url c p post request) request e).1)))
              (final (t ∷ answers left (post (url c p post request) request e).1)),
          after (posts (t ∷ answers left (post (url c p post request) request e).1)) e,
        )
  settled_lem left last (accepted r) e = refl
  settled_lem left last (again why) e = refl
  settled_lem left last (raised why) e = refl
  settled_lem left last strange e = refl

  tries_lem :
      (left : ℕ) (last : Option String) (e : E)
      → tries c p post request left last e ≡ (
        verdict p.max_retries
            (last_reason last (repeated (answers left e)))
            (final (answers left e)),
        after (posts (answers left e)) e,
      )
  unfolding tries
  tries_lem zero last e = refl
  tries_lem (suc left) last e =
      let e' = (post (url c p post request) request e).1 in
      let t = judge c (post (url c p post request) request e).0 in
      ap (settled t e') (fun_ext (λ why. tries_lem left (some why) e')) ∙ settled_lem left last t e

-- `chat` in terms of what `judge` makes of the tries.
chat_lem :
    {E : Type 0} (c : Codec) (p : Provider) (post : String → Request → E → Posted × E)
    (messages : List Message) (tools : Bool) (e : E)
    → let request : Request = record { model = p.model; messages = messages; tools = tools } in
      let tried = answers c p post request p.max_retries e in
      chat c p post messages tools e ≡ (
        verdict p.max_retries (last_reason none (repeated tried)) (final tried),
        after c p post request (posts tried) e,
      )
unfolding chat
chat_lem c p post messages tools e = tries_lem c p post _ p.max_retries none e

-- What a try comes to, by what the server answered to it. A failure in the transport and an error status
-- are tried again; a body that is not JSON, or that `_parse` does not take, is an exception of the call.
pub data Comes (c : Codec) : Posted → Tried → Type 0 where
  broken : (why : String) → Comes c (transport_error why) (again why)
  refused :
      (status : ℕ) (text : String) (body : Option Json)
      → 400 ≤ status
      → Comes c
          (response status text body)
          (again ("status " ++ (decimal status ++ (": " ++ take_chars 200 text))))
  no_json :
      (status : ℕ) (text : String)
      → status < 400
      → Comes c (response status text none) (raised "JSONDecodeError")
  taken_in :
      (status : ℕ) (text : String) (body : Json) (reply : ChatResult)
      → status < 400
      → parse c body ≡ parsed reply
      → Comes c (response status text (some body)) (accepted reply)
  not_taken :
      (status : ℕ) (text : String) (body : Json) (e : Exc)
      → status < 400
      → parse c body ≡ raises e
      → Comes c (response status text (some body)) (raised (exc_text e))
  odd :
      (status : ℕ) (text : String) (body : Json)
      → status < 400
      → parse c body ≡ untyped
      → Comes c (response status text (some body)) strange

judged-Comes :
    (c : Codec) (status : ℕ) (text : String) (body : Json) (p : Parse ChatResult)
    → status < 400
    → parse c body ≡ p
    → Comes c (response status text (some body)) (judged p)
judged-Comes c status text body (parsed r) low e = taken_in status text body r low e
judged-Comes c status text body (raises x) low e = not_taken status text body x low e
judged-Comes c status text body untyped low e = odd status text body low e

body-Comes :
    (c : Codec) (status : ℕ) (text : String) (body : Option Json)
    → status < 400
    → Comes c (response status text body) (judged_body c body)
body-Comes c status text none low = no_json status text low
body-Comes c status text (some body) low = judged-Comes c status text body (parse c body) low refl

judge-Comes : (c : Codec) (a : Posted) → Comes c a (judge c a)
unfolding judge
judge-Comes c (transport_error why) = broken why
judge-Comes c (response status text body) = elim (Bool-cases (leb 400 status)) [
  | inl high ↦ rw high (refused status text body (ground (arith, high)))
  | inr low ↦ rw low (body-Comes c status text body (ground (arith, low)))
]

module _ {E : Type 0} (c : Codec) (p : Provider) (post : String → Request → E → Posted × E)
    (request : Request) where
  -- The tries that so many requests, sent one after the other, come to.
  abbrev pub Trials : ℕ → E → List Tried → Type 0
  Trials zero e [] = Unit
  Trials zero e (t ∷ ts) = ⊥
  Trials (suc n) e [] = ⊥
  Trials (suc n) e (t ∷ ts) =
      Comes c (post (url c p post request) request e).0 t
      × Trials n (post (url c p post request) request e).1 ts

  answers-Trials : (n : ℕ) (e : E) → Trials n e (answers c p post request n e)
  answers-Trials zero e = tt
  answers-Trials (suc n) e = (
    judge-Comes c (post (url c p post request) request e).0,
    answers-Trials n (post (url c p post request) request e).1,
  )

-- Let each of `max_retries` requests, sent one after the other, come to what its answer calls for: to be
-- tried again after a failure in the transport or a status of 400 or more; an exception if the body is no
-- JSON or `_parse` raises; an outcome of its own if `_parse` stores values of other types than the
-- protocol's; else the reply. Then `chat` does what the first of them does that is not to be tried again;
-- if there is none, it raises `LLMError` with the reason of the last one. It sends one request for each
-- try up to that one, and no other.
pub chat-Trials :
    {E : Type 0} (c : Codec) (p : Provider) (post : String → Request → E → Posted × E)
    (messages : List Message) (tools : Bool) (e : E)
    → let request : Request = record { model = p.model; messages = messages; tools = tools } in
      (tried : List Tried) × Trials c p post request p.max_retries e tried
      × (chat c p post messages tools e ≡ (
        verdict p.max_retries (last_reason none (repeated tried)) (final tried),
        after c p post request (posts tried) e,
      ))
chat-Trials c p post messages tools e =
    let request : Request = record { model = p.model; messages = messages; tools = tools } in
    (
      answers c p post request p.max_retries e,
      answers-Trials c p post request p.max_retries e,
      chat_lem c p post messages tools e,
    )

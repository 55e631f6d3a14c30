-- ===== src/Agent/Recording/Simulation.antt =====
-- Two runs of agent/loop.py over one sandbox whose providers give the same replies but for the ids of the
-- tool calls: they go the same way.
use mathlib.Core.List.{◌++◌ as ◌+++◌, map-append}
use cloudagentperform.Base.{
  ◌≡◌, sym, ap, ◌∙◌, Bool, true, false, ℕ, ◌+◌, String, ◌==◌, if◌then◌else◌, Option, none, some,
  List, [], ◌∷◌, map, Dict,
}
use cloudagentperform.Models.{Json}
use cloudagentperform.Agent.{ToolCall, Message, system, user, assistant, tool}
use cloudagentperform.Agent.Loop.{
  Emission, Outcome, Ended, returned, stopped, escaped, Agent, and_then,
}

-- A dictionary without a key.
abbrev pub drop_key : String → Dict Json → Dict Json
drop_key k [] = []
drop_key k ((j, v) ∷ d) = let rest = drop_key k d in if j == k then rest else (j, v) ∷ rest

-- What is emitted and said, but for the ids of the tool calls.
abbrev pub unnumbered : Emission → Emission
unnumbered (type, payload) = (type, drop_key "call_id" payload)

abbrev pub anonymous : ToolCall → ToolCall
anonymous c = record c { id = ""; parse_error = none }

abbrev pub nameless : Message → Message
nameless (system s) = system s
nameless (user s) = user s
nameless (assistant s calls) = assistant s (map anonymous calls)
nameless (tool i payload) = tool "" payload

-- Two outcomes that differ in the ids of the tool calls alone.
pub record Echo (o o' : Outcome) : Type 0 where
  pub status : o.status ≡ o'.status
  pub reason : o.reason ≡ o'.reason
  pub summary : o.summary ≡ o'.summary
  pub usage : o.usage ≡ o'.usage
  pub transcript : map nameless o.transcript ≡ map nameless o'.transcript

abbrev pub SameEnd : Option Ended → Option Ended → Type 0
SameEnd none none = Unit
SameEnd (some (returned o)) (some (returned o')) = Echo o o'
SameEnd (some (stopped why)) (some (stopped why')) = why ≡ why'
SameEnd (some (escaped x)) (some (escaped x')) = x ≡ x'
SameEnd x y = ⊥

-- Two runs in corresponding states, with the providers' states related by `Rel`.
pub record Sim {M M' S : Type 0} (Rel : M → M' → Type 0) (a : Agent (M × S)) (b : Agent (M' × S))
    : Type 0 where
  pub models : Rel a.env.0 b.env.0
  pub world : a.env.1 ≡ b.env.1
  pub emitted : map unnumbered a.emitted ≡ map unnumbered b.emitted
  pub messages : map nameless a.messages ≡ map nameless b.messages
  pub prompt_tokens : a.prompt_tokens ≡ b.prompt_tokens
  pub completion_tokens : a.completion_tokens ≡ b.completion_tokens

map-grown :
    {A : Type 0} (f : A → A) (xs ys us vs : List A)
    → map f xs ≡ map f ys
    → map f us ≡ map f vs
    → map f (xs +++ us) ≡ map f (ys +++ vs)
map-grown f xs ys us vs h e =
    map-append f xs us
    ∙ (ap (λ l. l +++ map f us) h ∙ (ap (λ l. map f ys +++ l) e ∙ sym (map-append f ys vs)))

module _ {M M' S : Type 0} (Rel : M → M' → Type 0) where
  abbrev pub Same : Option Ended × Agent (M × S) → Option Ended × Agent (M' × S) → Type 0
  Same p q = SameEnd p.0 q.0 × Sim Rel p.1 q.1

  pub and_then-Same :
      (p : Option Ended × Agent (M × S)) (q : Option Ended × Agent (M' × S))
      (f : Agent (M × S) → Option Ended × Agent (M × S))
      (g : Agent (M' × S) → Option Ended × Agent (M' × S))
      → Same p q
      → ((a : Agent (M × S)) (b : Agent (M' × S)) → Sim Rel a b → Same (f a) (g b))
      → Same (and_then p f) (and_then q g)
  and_then-Same (none, a) (none, b) f g h k = k a b h.1
  and_then-Same (some x, a) (some y, b) f g h k = h
  and_then-Same (none, a) (some (returned o), b) f g h k = absurd h.0
  and_then-Same (none, a) (some (stopped o), b) f g h k = absurd h.0
  and_then-Same (none, a) (some (escaped o), b) f g h k = absurd h.0
  and_then-Same (some (returned o), a) (none, b) f g h k = absurd h.0
  and_then-Same (some (stopped o), a) (none, b) f g h k = absurd h.0
  and_then-Same (some (escaped o), a) (none, b) f g h k = absurd h.0

  -- Both runs emit, or say, something that differs in call ids alone.
  pub emits :
      (a : Agent (M × S)) (b : Agent (M' × S)) (x y : Emission)
      → Sim Rel a b
      → unnumbered x ≡ unnumbered y
      → Sim Rel
          (record a { emitted = a.emitted +++ x ∷ [] })
          (record b { emitted = b.emitted +++ y ∷ [] })
  emits a b x y s e = record {
    models = s.models;
    world = s.world;
    emitted =
        map-grown unnumbered a.emitted b.emitted (x ∷ []) (y ∷ []) s.emitted (ap (λ z. z ∷ []) e);
    messages = s.messages;
    prompt_tokens = s.prompt_tokens;
    completion_tokens = s.completion_tokens;
  }

  pub says :
      (a : Agent (M × S)) (b : Agent (M' × S)) (xs ys : List Message)
      → Sim Rel a b
      → map nameless xs ≡ map nameless ys
      → Sim Rel
          (record a { messages = a.messages +++ xs })
          (record b { messages = b.messages +++ ys })
  says a b xs ys s e = record {
    models = s.models;
    world = s.world;
    emitted = s.emitted;
    messages = map-grown nameless a.messages b.messages xs ys s.messages e;
    prompt_tokens = s.prompt_tokens;
    completion_tokens = s.completion_tokens;
  }

  -- The sandbox moves on in both.
  pub moves :
      (a : Agent (M × S)) (b : Agent (M' × S)) (e e' : S)
      → Sim Rel a b
      → e ≡ e'
      → Sim Rel (record a { env = (a.env.0, e) }) (record b { env = (b.env.0, e') })
  moves a b e e' s h = record {
    models = s.models;
    world = h;
    emitted = s.emitted;
    messages = s.messages;
    prompt_tokens = s.prompt_tokens;
    completion_tokens = s.completion_tokens;
  }

  pub if-Same :
      (c : Bool) (p q : Option Ended × Agent (M × S)) (p' q' : Option Ended × Agent (M' × S))
      → Same p p'
      → Same q q'
      → Same (if c then p else q) (if c then p' else q')
  if-Same true p q p' q' h k = h
  if-Same false p q p' q' h k = k

  pub if-Sim :
      (c : Bool) (a b : Agent (M × S)) (a' b' : Agent (M' × S))
      → Sim Rel a a'
      → Sim Rel b b'
      → Sim Rel (if c then a else b) (if c then a' else b')
  if-Sim true a b a' b' h k = h
  if-Sim false a b a' b' h k = k

  -- Both count the tokens of a reply.
  pub counts :
      (a : Agent (M × S)) (b : Agent (M' × S)) (m n : ℕ)
      → Sim Rel a b
      → Sim Rel
          (record a {
            prompt_tokens = a.prompt_tokens + m;
            completion_tokens = a.completion_tokens + n;
          })
          (record b {
            prompt_tokens = b.prompt_tokens + m;
            completion_tokens = b.completion_tokens + n;
          })
  counts a b m n s = record {
    models = s.models;
    world = s.world;
    emitted = s.emitted;
    messages = s.messages;
    prompt_tokens = ap (λ k. k + m) s.prompt_tokens;
    completion_tokens = ap (λ k. k + n) s.completion_tokens;
  }

-- ===== src/Agent/Recording/Turns.antt =====
-- What follows a reply in agent/loop.py, under two providers over one sandbox.
use Prim.Native.String.{String, ◌++◌}
use cloudagentperform.Base.{
  ◌≡◌, refl, sym, ap, ◌∙◌, subst, Bool, true, false, ◌||◌, ℕ, suc, ◌==◌, Option, none, some, List,
  [], ◌∷◌, map, any,
}
use cloudagentperform.Models.{Status, succeeded, ev_message}
use cloudagentperform.Agent.{
  Env, ToolCall, ChatResult, ChatReply, Try, done, raised, Message, assistant, tool,
}
use cloudagentperform.Agent.Text.{strip_reasoning, decimal}
use cloudagentperform.Agent.Tools.{ToolResult}
use cloudagentperform.Agent.Loop.{
  stopped, Agent, truthy, payload_of, check, tool_result, record_result, run_call, run_calls,
  outcome, message_payload, answer, act, follow, respond, used,
}
use cloudagentperform.Agent.Replay.{is_malformed}
use cloudagentperform.Agent.Replay.RoundTrip.{renamed}
use cloudagentperform.Agent.Recording.{lift, with_model}
use cloudagentperform.Agent.Recording.Lifted.{tool_result-lift}
use cloudagentperform.Agent.Recording.Simulation.{
  anonymous, SameEnd, Sim, Same, and_then-Same, emits, says, moves, if-Same, if-Sim, counts,
}

-- The call under another id.
abbrev pub called : String → ToolCall → ToolCall
called i call = record call { id = i; parse_error = none }

renamed-anonymous :
    (i j : ℕ) (calls : List ToolCall) → map anonymous calls ≡ map anonymous (renamed i j calls)
renamed-anonymous i j [] = refl
renamed-anonymous i j (c ∷ calls) = ap (λ l. anonymous c ∷ l) (renamed-anonymous i (suc j) calls)

-- A call that parsed runs its tool.
tool_result-called :
    (v : Env) (timeout : ℕ) (call : ToolCall) (i : String) (e : v.E)
    → truthy call.parse_error ≡ none
    → tool_result v timeout (called i call) e ≡ tool_result v timeout call e
unfolding tool_result
tool_result-called v timeout call i e h = rw (h, tool_result) refl

clean-cons :
    (o : Option String) (b : Bool)
    → ((elim o [ none ↦ false | some why ↦ true ]) || b) ≡ false
    → (o ≡ none) × (b ≡ false)
clean-cons none b h = (refl, h)
clean-cons (some why) b h = cc h

SameEnd-stops :
    (o : Option String)
    → SameEnd
        (elim o [ none ↦ none | some why ↦ some (stopped why) ])
        (elim o [ none ↦ none | some why ↦ some (stopped why) ])
SameEnd-stops none = tt
SameEnd-stops (some why) = refl

module _ (v : Env) (timeout : ℕ) {M N : Type 0} (chat : List Message → M → ChatReply × M)
    (chat' : List Message → N → ChatReply × N) (Rel : M → N → Type 0) where
  abbrev w : Env
  w = with_model v chat

  abbrev w' : Env
  w' = with_model v chat'

  pub check-Same :
      (a : Agent w.E) (b : Agent w'.E)
      → Sim Rel a b
      → Same Rel (check w timeout a) (check w' timeout b)
  unfolding check
  check-Same a b s =
      subst
        (λ (q : Option String × v.E). Same Rel (check w timeout a) (
          elim (truthy q.0) [ none ↦ none | some why ↦ some (stopped why) ],
          record b { env = (b.env.0, q.1) },
        ))
        (ap v.should_stop s.world)
        (SameEnd-stops (truthy (v.should_stop a.env.1).0), moves Rel a b _ _ s refl)

  record_result-Same :
      (call : ToolCall) (i : String) (p : Try ToolResult × v.E) (a : Agent w.E) (b : Agent w'.E)
      → Sim Rel a b
      → Same Rel
          (record_result w timeout call (lift a.env.0 p) a)
          (record_result w' timeout (called i call) (lift b.env.0 p) b)
  record_result-Same call i (done r, e) a b s = (
    tt,
    says Rel _ _ (tool call.id (payload_of r) ∷ []) _
        (emits Rel _ _ _ _ (moves Rel a b e e s refl) refl) refl,
  )
  record_result-Same call i (raised x, e) a b s = (refl, moves Rel a b e e s refl)

  run_call-Same :
      (call : ToolCall) (i : String) (a : Agent w.E) (b : Agent w'.E)
      → truthy call.parse_error ≡ none
      → Sim Rel a b
      → Same Rel (run_call w timeout call a) (run_call w' timeout (called i call) b)
  unfolding run_call
  run_call-Same call i a b h s =
      and_then-Same Rel (check w timeout a) (check w' timeout b) _ _ (check-Same a b s) λ a b s.
        let q =
          tool_result-lift v chat' b.env.0 timeout (called i call) b.env.1
          ∙ ap (lift b.env.0) (
              tool_result-called v timeout call i b.env.1 h
              ∙ ap (tool_result v timeout call) (sym s.world)) in
        rw (tool_result-lift v chat a.env.0 timeout call a.env.1, q)
          (record_result-Same call i (tool_result v timeout call a.env.1) _ _
            (emits Rel a b _ _ s refl))

  run_calls-Same :
      (calls : List ToolCall) (i j : ℕ) (a : Agent w.E) (b : Agent w'.E)
      → any is_malformed calls ≡ false
      → Sim Rel a b
      → Same Rel (run_calls w timeout calls a) (run_calls w' timeout (renamed i j calls) b)
  unfolding run_calls
  run_calls-Same [] i j a b h s = (tt, s)
  run_calls-Same (c ∷ calls) i j a b h s =
      let (clean, rest) = clean-cons (truthy c.parse_error) (any is_malformed calls) h in
      and_then-Same Rel (run_call w timeout c a)
        (run_call w' timeout (called ("replay-" ++ (decimal i ++ ("-" ++ decimal j))) c) b) _ _
        (run_call-Same c _ a b clean s) (λ a b s. run_calls-Same calls i (suc j) a b rest s)

  pub outcome-Same :
      (status : Status) (reason : Option String) (summary : String) (a : Agent w.E) (b : Agent w'.E)
      → Sim Rel a b
      → Same Rel
          (outcome w timeout status reason summary a)
          (outcome w' timeout status reason summary b)
  outcome-Same status reason summary a b s = (
    record {
      status = refl;
      reason = refl;
      summary = refl;
      usage =
          ap (λ n. ("prompt_tokens", n) ∷ ("completion_tokens", a.completion_tokens) ∷ [])
            s.prompt_tokens
          ∙ ap (λ n. ("prompt_tokens", b.prompt_tokens) ∷ ("completion_tokens", n) ∷ [])
              s.completion_tokens;
      transcript = s.messages;
    },
    s,
  )

  answer-Same :
      (text : String) (a : Agent w.E) (b : Agent w'.E)
      → Sim Rel a b
      → Same Rel (answer w timeout text a) (answer w' timeout text b)
  unfolding answer
  answer-Same text a b s =
      if-Same Rel (text == "") _ _ _ _ (tt, says Rel a b _ _ s refl)
        (outcome-Same succeeded none text _ _
          (emits Rel _ _ _ _ (says Rel a b (assistant text [] ∷ []) _ s refl) refl))

  act-Same :
      (text : String) (calls : List ToolCall) (i : ℕ) (a : Agent w.E) (b : Agent w'.E)
      → any is_malformed calls ≡ false
      → Sim Rel a b
      → Same Rel (act w timeout text calls a) (act w' timeout text (renamed i 0 calls) b)
  unfolding act
  act-Same text calls i a b h s =
      let said =
        says Rel a b (assistant text calls ∷ []) (assistant text (renamed i 0 calls) ∷ []) s
          (ap (λ l. assistant text l ∷ []) (renamed-anonymous i 0 calls)) in
      run_calls-Same calls i 0 _ _ h (
        if-Sim Rel (text == "") _ _ _ _ said
          (emits Rel _ _ (ev_message, message_payload w timeout text false) _ said refl))

  follow-Same :
      (text : String) (calls : List ToolCall) (i : ℕ) (a : Agent w.E) (b : Agent w'.E)
      → any is_malformed calls ≡ false
      → Sim Rel a b
      → Same Rel (follow w timeout text calls a) (follow w' timeout text (renamed i 0 calls) b)
  unfolding follow
  follow-Same text [] i a b h s = answer-Same text a b s
  follow-Same text (c ∷ calls) i a b h s = act-Same text (c ∷ calls) i a b h s

  pub respond-Same :
      (result : ChatResult) (i : ℕ) (a : Agent w.E) (b : Agent w'.E)
      → any is_malformed result.tool_calls ≡ false
      → Sim Rel a b
      → Same Rel
          (respond w timeout result a)
          (respond w' timeout (record result { tool_calls = renamed i 0 result.tool_calls }) b)
  unfolding respond
  respond-Same result i a b h s =
      follow-Same (strip_reasoning result.text) result.tool_calls i _ _ h (
        counts Rel a b (used "prompt_tokens" result.usage) (used "completion_tokens" result.usage)
          s)

-- ===== src/Agent/Recording/Echoes.antt =====
-- A run of agent/loop.py that was recorded is repeated by the replay of its steps.
use mathlib.Core.List.{◌++◌ as ◌+++◌, append_assoc, append-nil}
use cloudagentperform.Base.{
  ◌≡◌, ◌≢◌, refl, sym, ap, ◌∙◌, subst, inl, inr, false, ℕ, zero, suc, ◌+◌, String, Bool-cases,
  Option, none, some, List, [], ◌∷◌, any, length, length-append, arith,
}
use cloudagentperform.Models.{failed, r_model, r_max_steps}
use cloudagentperform.Agent.{Env, ChatResult, ChatReply, replied, llm_error, chat_raised, Message}
use cloudagentperform.Agent.Loop.{
  Ended, returned, stopped, escaped, Agent, and_then, check, on_reply, respond, step, steps, start,
  run_agent,
}
use cloudagentperform.Agent.Replay.{Step, is_malformed, recorded, record_chat, replay_chat}
use cloudagentperform.Agent.Replay.RoundTrip.{replay_chat-append}
use cloudagentperform.Agent.Recording.{recording, recording_chat, replaying}
use cloudagentperform.Agent.Recording.Simulation.{Sim, Same}
use cloudagentperform.Agent.Recording.Turns.{check-Same, respond-Same, outcome-Same}
use cloudagentperform.Agent.Recording.Growth.{Grows, and_then-Grows, steps-Grows}

-- The run did not end with a failure of the provider, nor with an exception.
abbrev pub Repeatable : Option Ended → Type 0
Repeatable none = Unit
Repeatable (some (returned o)) = o.reason ≢ some r_model
Repeatable (some (stopped why)) = Unit
Repeatable (some (escaped x)) = ⊥

-- The same correspondence, with the providers' states related otherwise.
related :
    {M N S : Type 0} {Rel Rel' : M → N → Type 0} (a : Agent (M × S)) (b : Agent (N × S))
    → Sim Rel a b
    → Rel' a.env.0 b.env.0
    → Sim Rel' a b
related a b s r = record {
  models = r;
  world = s.world;
  emitted = s.emitted;
  messages = s.messages;
  prompt_tokens = s.prompt_tokens;
  completion_tokens = s.completion_tokens;
}

-- The cursor counts the steps.
abbrev pub Kept : {M : Type 0} → List Step × M → ℕ → Type 0
Kept s i = i ≡ length s.0

module _ (v : Env) (timeout : ℕ) {M : Type 0} (inner : List Message → M → ChatReply × M) where
  abbrev live : Env
  live = recording inner v

  -- What follows a reply that was recorded.
  respond-Echo :
      (result : ChatResult) (m : M) (a : Agent live.E) (b : Agent (ℕ × v.E)) (kept more : List Step)
      → any is_malformed result.tool_calls ≡ false
      → Sim Kept a b
      → let p =
          respond live timeout result
            (record a { env = ((a.env.0.0 +++ recorded result ∷ [], m), a.env.1) }) in
        kept ≡ p.1.env.0.0 +++ more
        → Same Kept p
            (on_reply (replaying kept v) timeout ((replaying kept v).chat b.messages b.env) b)
  respond-Echo result m a b kept more clean s all =
      let after : List Step × M = (a.env.0.0 +++ recorded result ∷ [], m) in
      let cursor : b.env.0 + 1 ≡ length after.0 =
        omega (arith, s.models, length-append a.env.0.0 (recorded result ∷ [])) in
      let same =
        respond-Same v timeout (recording_chat inner) (λ ms i. replay_chat kept i)
          (λ t i. (t ≡ after) × (i ≡ b.env.0 + 1)) result (b.env.0 + 1) _ _ clean
          (record {
            models = (refl, refl);
            world = s.world;
            emitted = s.emitted;
            messages = s.messages;
            prompt_tokens = s.prompt_tokens;
            completion_tokens = s.completion_tokens;
          }) in
      let found =
        ap (λ l. replay_chat l b.env.0)
          (all
            ∙ (ap (λ (t : List Step × M). t.0 +++ more) same.1.models.0
                ∙ append_assoc a.env.0.0 (recorded result ∷ []) more))
        ∙ replay_chat-append a.env.0.0 more result b.env.0 s.models in
      subst
        (λ (c : ChatReply × ℕ).
          Same Kept (respond live timeout result (record a { env = (after, a.env.1) }))
            (on_reply (replaying kept v) timeout (c.0, (c.1, b.env.1)) b))
        (sym found)
        (
          same.0,
          related _ _ same.1 (
              same.1.models.1
              ∙ (cursor ∙ ap (λ (t : List Step × M). length t.0) (sym same.1.models.0))),
        )

  -- What follows the model's reply, recorded and replayed.
  reply-Echo :
      (r : ChatReply) (m : M) (a : Agent live.E) (b : Agent (ℕ × v.E)) (kept more : List Step)
      → Sim Kept a b
      → let k = record_chat r a.env.0.0 in
        let p = on_reply live timeout (k.0, ((k.1, m), a.env.1)) a in
        Repeatable p.0
        → kept ≡ p.1.env.0.0 +++ more
        → Same Kept p
            (on_reply (replaying kept v) timeout ((replaying kept v).chat b.messages b.env) b)
  unfolding record_chat
  reply-Echo (replied result) m a b kept more s good all =
      elim (Bool-cases (any is_malformed result.tool_calls)) [
        | inl e ↦ absurd (rw (e, record_chat) at good)
        | inr e ↦
            rw (e, record_chat)
              (respond-Echo result m a b kept more e s (rw (e, record_chat) at all))
      ]
  reply-Echo (llm_error why) m a b kept more s good all = absurd (good refl)
  reply-Echo (chat_raised why) m a b kept more s good all = absurd good

  module _ (kept : List Step) where
    abbrev again : Env
    again = replaying kept v

    then-Echo :
        (p : Option Ended × Agent live.E) (q : Option Ended × Agent again.E)
        (f : Agent live.E → Option Ended × Agent live.E)
        (g : Agent again.E → Option Ended × Agent again.E) (more : List Step)
        → Same Kept p q
        → ((a : Agent live.E) (b : Agent again.E)
            → Sim Kept a b
            → Repeatable (f a).0
            → kept ≡ (f a).1.env.0.0 +++ more
            → Same Kept (f a) (g b))
        → Repeatable (and_then p f).0
        → kept ≡ (and_then p f).1.env.0.0 +++ more
        → Same Kept (and_then p f) (and_then q g)
    then-Echo (none, a) (none, b) f g more h k good all = k a b h.1 good all
    then-Echo (some x, a) (some y, b) f g more h k good all = h
    then-Echo (none, a) (some (returned o), b) f g more h k good all = absurd h.0
    then-Echo (none, a) (some (stopped o), b) f g more h k good all = absurd h.0
    then-Echo (none, a) (some (escaped o), b) f g more h k good all = absurd h.0
    then-Echo (some (returned o), a) (none, b) f g more h k good all = absurd h.0
    then-Echo (some (stopped o), a) (none, b) f g more h k good all = absurd h.0
    then-Echo (some (escaped o), a) (none, b) f g more h k good all = absurd h.0

    step-Echo :
        (a : Agent live.E) (b : Agent again.E) (more : List Step)
        → Sim Kept a b
        → Repeatable (step live timeout a).0
        → kept ≡ (step live timeout a).1.env.0.0 +++ more
        → Same Kept (step live timeout a) (step again timeout b)
    unfolding step recording_chat
    step-Echo a b more s good all =
        then-Echo (check live timeout a) (check again timeout b) _ _ more
          (check-Same v timeout (recording_chat inner) (λ ms i. replay_chat kept i) Kept a b s)
          (λ a b s good all.
            reply-Echo (inner a.messages a.env.0.1).0 (inner a.messages a.env.0.1).1 a b kept more s
              good all)
          good all

    head_Repeatable :
        (p : Option Ended × Agent live.E) (f : Agent live.E → Option Ended × Agent live.E)
        → Repeatable (and_then p f).0
        → Repeatable p.0
    head_Repeatable (none, a) f h = tt
    head_Repeatable (some x, a) f h = h

    -- One part of a run, and then the rest, which adds steps.
    chain-Echo :
        (p : Option Ended × Agent live.E) (q : Option Ended × Agent again.E)
        (f : Agent live.E → Option Ended × Agent live.E)
        (g : Agent again.E → Option Ended × Agent again.E) (more : List Step)
        → ((rest : List Step) → Repeatable p.0 → kept ≡ p.1.env.0.0 +++ rest → Same Kept p q)
        → ((a : Agent live.E) → Grows v timeout inner a.env.0.0 (f a))
        → ((a : Agent live.E) (b : Agent again.E)
            → Sim Kept a b
            → Repeatable (f a).0
            → kept ≡ (f a).1.env.0.0 +++ more
            → Same Kept (f a) (g b))
        → Repeatable (and_then p f).0
        → kept ≡ (and_then p f).1.env.0.0 +++ more
        → Same Kept (and_then p f) (and_then q g)
    chain-Echo p q f g more first grows rest good all =
        let (extra, e) =
          and_then-Grows v timeout inner p.1.env.0.0 p f ([], sym (append-nil p.1.env.0.0)) grows in
        then-Echo p q f g more
          (first (extra +++ more) (head_Repeatable p f good)
            (all ∙ (ap (λ l. l +++ more) e ∙ append_assoc p.1.env.0.0 extra more)))
          rest good all

    steps-Echo :
        (n : ℕ) (a : Agent live.E) (b : Agent again.E) (more : List Step)
        → Sim Kept a b
        → Repeatable (steps live timeout n a).0
        → kept ≡ (steps live timeout n a).1.env.0.0 +++ more
        → Same Kept (steps live timeout n a) (steps again timeout n b)
    unfolding steps
    steps-Echo zero a b more s good all = (tt, s)
    steps-Echo (suc n) a b more s good all =
        chain-Echo (step live timeout a) (step again timeout b) _ _ more
          (λ rest. step-Echo a b rest s) (steps-Grows v timeout inner n)
          (λ a b s. steps-Echo n a b more s) good all

  -- The recorded run.
  abbrev pub first_run : String → ℕ → M → v.E → Option Ended × Agent (recording inner v).E
  first_run prompt max_steps m e =
      run_agent (recording inner v) timeout prompt max_steps (([], m), e)

  -- A run whose replies are recorded, and which ends neither with a failure of the provider nor with an
  -- exception, is repeated by the replay of what was recorded over the same sandbox and stop flag: the
  -- same end with the same status, reason, summary and usage, the same transcript and events but for the
  -- ids of the tool calls, and the same state of the sandbox; and each recorded step has been used.
  pub run_agent-Same :
      (prompt : String) (max_steps : ℕ) (m : M) (e : v.E)
      → Repeatable (first_run prompt max_steps m e).0
      → Same Kept (first_run prompt max_steps m e) (
          run_agent
            (replaying (first_run prompt max_steps m e).1.env.0.0 v)
            timeout
            prompt
            max_steps
            (0, e))
  unfolding run_agent
  run_agent-Same prompt max_steps m e good =
      let kept = (first_run prompt max_steps m e).1.env.0.0 in
      chain-Echo kept (steps live timeout max_steps (start live timeout prompt (([], m), e)))
        (steps (again kept) timeout max_steps (start (again kept) timeout prompt (0, e))) _ _ []
        (λ rest. steps-Echo kept max_steps _ _ rest (record {
          models = refl;
          world = refl;
          emitted = refl;
          messages = refl;
          prompt_tokens = refl;
          completion_tokens = refl;
        }))
        (λ a. ([], sym (append-nil a.env.0.0)))
        (λ a b s good all.
          outcome-Same v timeout (recording_chat inner) (λ ms i. replay_chat kept i) Kept failed
            (some r_max_steps) _ a b s)
        good (sym (append-nil kept))

-- ===== src/Agent/Recording/Growth.antt =====
-- A run of agent/loop.py under a recording adds steps to those that are kept already.
use mathlib.Core.List.{◌++◌ as ◌+++◌, append_assoc, append-nil}
use cloudagentperform.Base.{
  ◌≡◌, refl, sym, ap, ◌∙◌, inl, inr, false, ℕ, zero, suc, Bool-cases, Option, none, some, List, [],
  ◌∷◌, any,
}
use cloudagentperform.Agent.{Env, ChatResult, ChatReply, replied, llm_error, chat_raised, Message}
use cloudagentperform.Agent.Loop.{Ended, Agent, and_then, check, on_reply, respond, step, steps}
use cloudagentperform.Agent.Replay.{Step, is_malformed, recorded, record_chat}
use cloudagentperform.Agent.Recording.{recording, recording_chat}
use cloudagentperform.Agent.Recording.Turns.{respond-Same}

module _ (v : Env) (timeout : ℕ) {M : Type 0} (inner : List Message → M → ChatReply × M) where
  abbrev live : Env
  live = recording inner v

  -- The steps of `p` extend `kept`.
  abbrev pub Grows : List Step → Option Ended × Agent live.E → Type 0
  Grows kept p = (more : List Step) × (p.1.env.0.0 ≡ kept +++ more)

  pub respond_keeps :
      (result : ChatResult) (a : Agent live.E)
      → any is_malformed result.tool_calls ≡ false
      → (respond live timeout result a).1.env.0 ≡ a.env.0
  respond_keeps result a h =
      let same =
        respond-Same v timeout (recording_chat inner) (recording_chat inner) (λ s t. s ≡ a.env.0)
          result 0 a a h
          (record {
            models = refl;
            world = refl;
            emitted = refl;
            messages = refl;
            prompt_tokens = refl;
            completion_tokens = refl;
          }) in
      same.1.models

  kept_Grows :
      (r : ChatReply) (m : M) (a : Agent live.E)
      → Grows a.env.0.0 (
          on_reply live timeout
            ((record_chat r a.env.0.0).0, (((record_chat r a.env.0.0).1, m), a.env.1))
            a)
  unfolding record_chat
  kept_Grows (replied result) m a = elim (Bool-cases (any is_malformed result.tool_calls)) [
    | inl e ↦ rw (e, record_chat) ([], sym (append-nil a.env.0.0))
    | inr e ↦
        rw (e, record_chat)
          (recorded result ∷ [], ap (λ (s : List Step × M). s.0) (respond_keeps result _ e))
  ]
  kept_Grows (llm_error why) m a = ([], sym (append-nil a.env.0.0))
  kept_Grows (chat_raised why) m a = ([], sym (append-nil a.env.0.0))

  pub and_then-Grows :
      (kept : List Step) (p : Option Ended × Agent live.E)
      (f : Agent live.E → Option Ended × Agent live.E)
      → Grows kept p
      → ((a : Agent live.E) → Grows a.env.0.0 (f a))
      → Grows kept (and_then p f)
  and_then-Grows kept (none, a) f g h =
      (g.0 +++ (h a).0, (h a).1 ∙ (ap (λ l. l +++ (h a).0) g.1 ∙ append_assoc kept g.0 (h a).0))
  and_then-Grows kept (some x, a) f g h = g

  step-Grows : (a : Agent live.E) → Grows a.env.0.0 (step live timeout a)
  unfolding step check recording_chat
  step-Grows a =
      and_then-Grows a.env.0.0 (check live timeout a) _ ([], sym (append-nil a.env.0.0))
        λ a. kept_Grows (inner a.messages a.env.0.1).0 (inner a.messages a.env.0.1).1 a

  pub steps-Grows : (n : ℕ) (a : Agent live.E) → Grows a.env.0.0 (steps live timeout n a)
  unfolding steps
  steps-Grows zero a = ([], sym (append-nil a.env.0.0))
  steps-Grows (suc n) a =
      and_then-Grows a.env.0.0 (step live timeout a) _ (step-Grows a) (λ a. steps-Grows n a)

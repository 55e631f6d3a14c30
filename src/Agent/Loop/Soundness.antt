-- ===== src/Agent/Loop/Soundness.antt =====
-- The outcomes of `run_agent` (agent/loop.py), step by step.
use Prim.Native.String.{String}
use mathlib.Core.List.{◌++◌ as ◌+++◌}
use cloudagentperform.Base.{
  ℕ, zero, suc, ◌+◌, ◌≤◌, ◌≡◌, ◌≢◌, refl, ◌∙◌, ◌⊎◌, inl, inr, true, false, ◌==◌, Option, none, some,
  List, [], ◌∷◌, Dict, arith, eq_iff, count_if, count_if-append, Bool-cases,
}
use cloudagentperform.Models.{
  Status, succeeded, failed, Json, ev_message, ev_tool_call, ev_tool_result, r_model, r_max_steps,
}
use cloudagentperform.Agent.{
  Env, ToolCall, ChatResult, ChatReply, replied, llm_error, chat_raised, Message, user, assistant,
}
use cloudagentperform.Agent.Loop.{
  Emission, Ended, returned, stopped, escaped, Agent, nudge, check, outcome, message_payload,
  answer, act, follow, respond, on_reply, step, steps, start, run_agent,
}
use cloudagentperform.Agent.Loop.Counts.{
  pending, pending-append, is_assistant, of_type, Steady, Ensures, Ensures-and_then, Steady-mono,
  run_calls-Ensures, check-Ensures,
}

Ensures-mono :
    {E : Type 0} (m n : ℕ) (P Q : Agent E → Type 0) (r : Option Ended × Agent E)
    → m ≤ n
    → ((a : Agent E) → P a → Q a)
    → Ensures m P r
    → Ensures n Q r
Ensures-mono m n P Q (none, a) le k h = k a h
Ensures-mono m n P Q (some (returned o), a) le k h = record {
  transcript = h.transcript;
  steady = Steady-mono m n a le h.steady;
  verdict = h.verdict;
}
Ensures-mono m n P Q (some (stopped why), a) le k h = tt
Ensures-mono m n P Q (some (escaped x), a) le k h = tt

message_paired :
    (p : Dict Json) (es : List Emission)
    → count_if (of_type ev_tool_call) es ≡ count_if (of_type ev_tool_result) es
    → count_if (of_type ev_tool_call) (es +++ (ev_message, p) ∷ [])
      ≡ count_if (of_type ev_tool_result) (es +++ (ev_message, p) ∷ [])
message_paired p es h = omega (
  arith,
  count_if-append (of_type ev_tool_call) es ((ev_message, p) ∷ []),
  count_if-append (of_type ev_tool_result) es ((ev_message, p) ∷ []),
)

assistant_turn :
    (i : ℕ) (text : String) (calls : List ToolCall) (ms : List Message)
    → count_if is_assistant ms ≤ i
    → count_if is_assistant (ms +++ assistant text calls ∷ []) ≤ suc i
assistant_turn i text calls ms h =
    omega (arith, h, count_if-append is_assistant ms (assistant text calls ∷ []))

module _ (v : Env) (tool_timeout : ℕ) where
  open v use {E}

  outcome-Sound :
      (n : ℕ) (status : Status) (reason : Option String) (summary : String) (a : Agent E)
      → Steady n a
      → ((status ≡ succeeded) × (reason ≡ none) × (summary ≢ ""))
        ⊎ ((status ≡ failed) × ((reason ≡ some r_model) ⊎ (reason ≡ some r_max_steps)))
      → Ensures n (Steady n) (outcome v tool_timeout status reason summary a)
  outcome-Sound n status reason summary a h (inl (s, r, m)) = record {
    transcript = refl;
    steady = h;
    verdict = inl (s, r, λ e. m (ground arith));
  }
  outcome-Sound n status reason summary a h (inr w) = record {
    transcript = refl;
    steady = h;
    verdict = inr w;
  }

  answer-Ensures :
      (i : ℕ) (text : String) (a : Agent E)
      → Steady i a
      → Ensures (suc i) (Steady (suc i)) (answer v tool_timeout text a)
  unfolding answer
  answer-Ensures i text a h = elim (Bool-cases (text == "")) [
    | inl empty ↦ rw empty (record {
      answered =
          pending-append [] [] a.messages (assistant "" [] ∷ user nudge ∷ []) h.answered
          ∙ (unfold pending in refl);
      paired = h.paired;
      turns = omega (
        arith,
        h.turns,
        count_if-append is_assistant a.messages (assistant "" [] ∷ user nudge ∷ []),
      );
    })
    | inr final ↦ rw final (
        outcome-Sound (suc i) succeeded none text
          (record a {
            emitted = a.emitted +++ (ev_message, message_payload v tool_timeout text true) ∷ [];
            messages = a.messages +++ assistant text [] ∷ [];
          })
          (record {
            answered =
                pending-append [] [] a.messages (assistant text [] ∷ []) h.answered
                ∙ (unfold pending in refl);
            paired = message_paired (message_payload v tool_timeout text true) a.emitted h.paired;
            turns =
                omega (
                  arith,
                  h.turns,
                  count_if-append is_assistant a.messages (assistant text [] ∷ []),
                );
          })
          (inl (refl, refl, λ e. ground (arith, eq_iff text ""))))
  ]

  act-Ensures :
      (i : ℕ) (text : String) (calls : List ToolCall) (a : Agent E)
      → Steady i a
      → Ensures (suc i) (Steady (suc i)) (act v tool_timeout text calls a)
  unfolding act
  act-Ensures i text calls a h = elim (Bool-cases (text == "")) [
    | inl empty ↦ rw empty (
        run_calls-Ensures v tool_timeout (suc i) calls _ (record {
          waiting =
              pending-append [] [] a.messages (assistant text calls ∷ []) h.answered
              ∙ (unfold pending in refl);
          paired = h.paired;
          turns = assistant_turn i text calls a.messages h.turns;
        }))
    | inr spoken ↦ rw spoken (
        run_calls-Ensures v tool_timeout (suc i) calls _ (record {
          waiting =
              pending-append [] [] a.messages (assistant text calls ∷ []) h.answered
              ∙ (unfold pending in refl);
          paired = message_paired (message_payload v tool_timeout text false) a.emitted h.paired;
          turns = assistant_turn i text calls a.messages h.turns;
        }))
  ]

  follow-Ensures :
      (i : ℕ) (text : String) (calls : List ToolCall) (a : Agent E)
      → Steady i a
      → Ensures (suc i) (Steady (suc i)) (follow v tool_timeout text calls a)
  unfolding follow
  follow-Ensures i text [] a h = answer-Ensures i text a h
  follow-Ensures i text (call ∷ calls) a h = act-Ensures i text (call ∷ calls) a h

  respond-Ensures :
      (i : ℕ) (result : ChatResult) (a : Agent E)
      → Steady i a
      → Ensures (suc i) (Steady (suc i)) (respond v tool_timeout result a)
  unfolding respond
  respond-Ensures i result a h =
      follow-Ensures i _ result.tool_calls _
        (record { answered = h.answered; paired = h.paired; turns = h.turns })

  on_reply-Ensures :
      (i : ℕ) (r : ChatReply × E) (a : Agent E)
      → Steady i a
      → Ensures (suc i) (Steady (suc i)) (on_reply v tool_timeout r a)
  on_reply-Ensures i (replied result, e) a h =
      respond-Ensures i result _
        (record { answered = h.answered; paired = h.paired; turns = h.turns })
  on_reply-Ensures i (llm_error why, e) a h =
      outcome-Sound (suc i) failed (some r_model) why (record a { env = e })
        (record { answered = h.answered; paired = h.paired; turns = omega (arith, h.turns) })
        (inr (refl, inl refl))
  on_reply-Ensures i (chat_raised why, e) a h = tt

  step-Ensures :
      (i : ℕ) (a : Agent E) → Steady i a → Ensures (suc i) (Steady (suc i)) (step v tool_timeout a)
  unfolding step
  step-Ensures i a h =
      Ensures-and_then (suc i) (Steady i) (Steady (suc i)) (check v tool_timeout a) _
        (check-Ensures v tool_timeout (suc i) (Steady i) a
          (λ e. record { answered = h.answered; paired = h.paired; turns = h.turns }))
        (λ a' h'. on_reply-Ensures i (v.chat a'.messages a'.env) a' h')

  steps-Ensures :
      (n k i : ℕ) (a : Agent E)
      → i + k ≤ n
      → Steady i a
      → Ensures n (Steady n) (steps v tool_timeout k a)
  unfolding steps
  steps-Ensures n zero i a le h = Steady-mono i n a (omega (arith, le)) h
  steps-Ensures n (suc k) i a le h =
      Ensures-and_then n (Steady (suc i)) (Steady n) (step v tool_timeout a) _
        (Ensures-mono (suc i) n (Steady (suc i)) (Steady (suc i)) _ (omega (arith, le))
          (λ a'. λ h'. h') (step-Ensures i a h))
        (λ a' h'. steps-Ensures n k (suc i) a' (omega (arith, le)) h')

  -- For every model, tool and stop flag, `run_agent` ends; and where it returns an outcome, its transcript is the
  -- conversation, in which each tool call of the model is answered, in the order of the calls and
  -- before anything else is said; as many `tool.call` as `tool.result` events are emitted; the model
  -- speaks at most `max_steps` times; and the outcome is a success with a text that is not empty and
  -- no reason, or a failure with the reason model_error or max_steps.
  pub run_agent-Sound :
      (prompt : String) (max_steps : ℕ) (e : E)
      → Ensures max_steps (λ a. ⊥) (run_agent v tool_timeout prompt max_steps e)
  unfolding run_agent
  run_agent-Sound prompt max_steps e =
      Ensures-and_then max_steps (Steady max_steps) (λ a. ⊥)
        (steps v tool_timeout max_steps (start v tool_timeout prompt e)) _
        (steps-Ensures max_steps max_steps 0 (start v tool_timeout prompt e) (omega arith)
          (record { answered = unfold pending in refl; paired = refl; turns = omega arith }))
        (λ a h. outcome-Sound max_steps failed (some r_max_steps) _ a h (inr (refl, inr refl)))

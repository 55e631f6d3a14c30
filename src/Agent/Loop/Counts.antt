-- ===== src/Agent/Loop/Counts.antt =====
-- What `run_agent` of agent/loop.py leaves in the transcript and in the event stream.
use Prim.Native.String.{String}
use mathlib.Core.List.{◌++◌ as ◌+++◌}
use cloudagentperform.Base.{
  ℕ, ◌≤◌, ◌≡◌, ◌≢◌, ap, ◌∙◌, ◌⊎◌, inl, inr, Bool, true, false, ◌==◌, if◌then◌else◌, Option, none,
  some, List, [], ◌∷◌, map, arith, eq_refl, count_if, count_if-append, Option-cases,
}
use cloudagentperform.Models.{succeeded, failed, ev_tool_call, ev_tool_result, r_model, r_max_steps}
use cloudagentperform.Agent.{
  Env, ToolCall, Try, done, raised, Message, system, user, assistant, tool,
}
use cloudagentperform.Agent.Tools.{ToolResult}
use cloudagentperform.Agent.Loop.{
  Emission, Outcome, Ended, returned, stopped, escaped, Agent, emit, truthy, and_then, check,
  tool_result, record_result, call_payload, result_payload, payload_of, run_call, run_calls,
}

-- Reads a transcript with the ids of the tool calls that wait for an answer: `some` with those that
-- still wait at its end, `none` if an answer comes unasked or something else comes before it.
unfoldable pub pending : List String → List Message → Option (List String)
pending ids [] = some ids
pending [] (tool i p ∷ ms) = none
pending [] (system s ∷ ms) = pending [] ms
pending [] (user s ∷ ms) = pending [] ms
pending [] (assistant s calls ∷ ms) = pending (map (λ (c : ToolCall). c.id) calls) ms
pending (i ∷ ids) (tool j p ∷ ms) = let rest = pending ids ms in if i == j then rest else none
pending (i ∷ ids) (system s ∷ ms) = none
pending (i ∷ ids) (user s ∷ ms) = none
pending (i ∷ ids) (assistant s calls ∷ ms) = none

pub pending-append :
    (ids ids' : List String) (xs ys : List Message)
    → pending ids xs ≡ some ids'
    → pending ids (xs +++ ys) ≡ pending ids' ys
unfolding pending
pending-append ids ids' [] ys h =
    ap (λ o. elim o [ none ↦ pending ids ys | some i ↦ pending i ys ]) h
pending-append [] ids' (tool i p ∷ ms) ys h = cc
pending-append [] ids' (system s ∷ ms) ys h = pending-append [] ids' ms ys h
pending-append [] ids' (user s ∷ ms) ys h = pending-append [] ids' ms ys h
pending-append [] ids' (assistant s calls ∷ ms) ys h = pending-append _ ids' ms ys h
pending-append (i ∷ ids) ids' (tool j p ∷ ms) ys h = ground (arith, pending-append ids ids' ms ys)
pending-append (i ∷ ids) ids' (system s ∷ ms) ys h = cc
pending-append (i ∷ ids) ids' (user s ∷ ms) ys h = cc
pending-append (i ∷ ids) ids' (assistant s calls ∷ ms) ys h = cc

abbrev pub is_assistant : Message → Bool
is_assistant (assistant s calls) = true
is_assistant (system s) = false
is_assistant (user s) = false
is_assistant (tool i p) = false

abbrev pub of_type : String → Emission → Bool
of_type t e = e.0 == t

-- The state between two steps, with `n` calls of the model behind it.
pub record Steady {E : Type 0} (n : ℕ) (a : Agent E) : Type 0 where
  pub answered : pending [] a.messages ≡ some []
  pub paired :
      count_if (of_type ev_tool_call) a.emitted ≡ count_if (of_type ev_tool_result) a.emitted
  pub turns : count_if is_assistant a.messages ≤ n

-- How an outcome comes about: the model's answer in words, its failure, or the end of the steps.
abbrev pub Verdict : Outcome → Type 0
Verdict o =
    ((o.status ≡ succeeded) × (o.reason ≡ none) × (o.summary ≢ some ""))
    ⊎ ((o.status ≡ failed) × ((o.reason ≡ some r_model) ⊎ (o.reason ≡ some r_max_steps)))

pub record Sound {E : Type 0} (n : ℕ) (o : Outcome) (a : Agent E) : Type 0 where
  pub transcript : o.transcript ≡ a.messages
  pub steady : Steady n a
  pub verdict : Verdict o

-- `P` of the state where the run goes on, and soundness where it returns.
abbrev pub Ensures : {E : Type 0} → ℕ → (Agent E → Type 0) → Option Ended × Agent E → Type 0
Ensures n P (none, a) = P a
Ensures n P (some (returned o), a) = Sound n o a
Ensures n P (some (stopped why), a) = Unit
Ensures n P (some (escaped x), a) = Unit

pub Ensures-and_then :
    {E : Type 0} (n : ℕ) (P Q : Agent E → Type 0) (m : Option Ended × Agent E)
    (rest : Agent E → Option Ended × Agent E)
    → Ensures n P m
    → ((a : Agent E) → P a → Ensures n Q (rest a))
    → Ensures n Q (and_then m rest)
Ensures-and_then n P Q (none, a) rest h k = k a h
Ensures-and_then n P Q (some (returned o), a) rest h k = h
Ensures-and_then n P Q (some (stopped why), a) rest h k = tt
Ensures-and_then n P Q (some (escaped x), a) rest h k = tt

-- The state in the middle of a turn: these calls wait for their answers.
pub record Waiting {E : Type 0} (n : ℕ) (calls : List ToolCall) (a : Agent E) : Type 0 where
  pub waiting : pending [] a.messages ≡ some (map (λ (c : ToolCall). c.id) calls)
  pub paired :
      count_if (of_type ev_tool_call) a.emitted ≡ count_if (of_type ev_tool_result) a.emitted
  pub turns : count_if is_assistant a.messages ≤ n

pub Steady-mono : {E : Type 0} (m n : ℕ) (a : Agent E) → m ≤ n → Steady m a → Steady n a
Steady-mono m n a le h = record {
  answered = h.answered;
  paired = h.paired;
  turns = omega (arith, h.turns);
}

module _ (v : Env) (tool_timeout : ℕ) (n : ℕ) where
  open v use {E}

  pub check-Ensures :
      (P : Agent E → Type 0) (a : Agent E)
      → ((e : E) → P (record a { env = e }))
      → Ensures n P (check v tool_timeout a)
  unfolding check
  check-Ensures P a h = elim (Option-cases (truthy (v.should_stop a.env).0)) [
    | inl go_on ↦ rw (go_on, check) (h (v.should_stop a.env).1)
    | inr (why, stop) ↦ rw (stop, check) tt
  ]

  result-Ensures :
      (call : ToolCall) (calls : List ToolCall) (r : Try ToolResult × E) (a : Agent E)
      → Waiting n (call ∷ calls) a
      → Ensures n
          (Waiting n calls)
          (record_result v tool_timeout call r (emit ev_tool_call (call_payload call) a))
  result-Ensures call calls (raised x, e) a h = tt
  result-Ensures call calls (done r, e) a h = record {
    waiting =
        pending-append [] _ a.messages (tool call.id (payload_of r) ∷ []) h.waiting
        ∙ (unfold pending in rw (eq_refl call.id));
    paired = ground (
      arith,
      h.paired,
      count_if-append (of_type ev_tool_call) a.emitted ((ev_tool_call, call_payload call) ∷ []),
      count_if-append (of_type ev_tool_result) a.emitted ((ev_tool_call, call_payload call) ∷ []),
      count_if-append (of_type ev_tool_call) (a.emitted +++ (ev_tool_call, call_payload call) ∷ [])
          ((ev_tool_result, result_payload call r) ∷ []),
      count_if-append (of_type ev_tool_result)
          (a.emitted +++ (ev_tool_call, call_payload call) ∷ [])
          ((ev_tool_result, result_payload call r) ∷ []),
    );
    turns = omega (
      arith,
      h.turns,
      count_if-append is_assistant a.messages (tool call.id (payload_of r) ∷ []),
    );
  }

  run_call-Ensures :
      (call : ToolCall) (calls : List ToolCall) (a : Agent E)
      → Waiting n (call ∷ calls) a
      → Ensures n (Waiting n calls) (run_call v tool_timeout call a)
  unfolding run_call
  run_call-Ensures call calls a h =
      Ensures-and_then n (Waiting n (call ∷ calls)) (Waiting n calls) (check v tool_timeout a) _
        (check-Ensures (Waiting n (call ∷ calls)) a
          (λ e. record { waiting = h.waiting; paired = h.paired; turns = h.turns }))
        (λ a' h'. result-Ensures call calls (tool_result v tool_timeout call a'.env) a' h')

  pub run_calls-Ensures :
      (calls : List ToolCall) (a : Agent E)
      → Waiting n calls a
      → Ensures n (Steady n) (run_calls v tool_timeout calls a)
  unfolding run_calls
  run_calls-Ensures [] a h = record { answered = h.waiting; paired = h.paired; turns = h.turns }
  run_calls-Ensures (call ∷ calls) a h =
      Ensures-and_then n (Waiting n calls) (Steady n) (run_call v tool_timeout call a) _
        (run_call-Ensures call calls a h) (λ a' h'. run_calls-Ensures calls a' h')

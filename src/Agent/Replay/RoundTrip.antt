-- ===== src/Agent/Replay/RoundTrip.antt =====
-- What comes back when a recorded run is replayed.
use Prim.Native.String.{◌++◌}
use mathlib.Core.List.{◌++◌ as ◌+++◌, append_assoc, append-nil}
use cloudagentperform.Base.{
  ℕ, suc, ◌+◌, ◌≡◌, refl, sym, ap, ◌∙◌, subst, false, none, some, List, [], ◌∷◌, map, any, length,
  length-append, All, arith,
}
use cloudagentperform.Agent.{ToolCall, ChatResult, ChatReply, replied, chat_raised}
use cloudagentperform.Agent.Text.{decimal}
use cloudagentperform.Agent.Replay.{
  Step, is_malformed, recorded, record_chat, step_at, replay_calls, replay_chat, record_run,
  replay_run,
}

-- The calls under the names that the replay gives them: the `j`-th call of the `i`-th reply.
abbrev pub renamed : ℕ → ℕ → List ToolCall → List ToolCall
renamed i j [] = []
renamed i j (c ∷ calls) =
    record c { id = "replay-" ++ (decimal i ++ ("-" ++ decimal j)); parse_error = none }
    ∷ renamed i (suc j) calls

abbrev pub echoes : ℕ → List ChatResult → List ChatReply
echoes i [] = []
echoes i (r ∷ rs) =
    replied (record r { tool_calls = renamed (i + 1) 0 r.tool_calls }) ∷ echoes (i + 1) rs

abbrev pub IsClean : ChatResult → Type 0
IsClean r = any is_malformed r.tool_calls ≡ false

replay_calls-map :
    (i j : ℕ) (calls : List ToolCall)
    → replay_calls i j (map (λ (c : ToolCall). (c.name, c.arguments)) calls) ≡ renamed i j calls
replay_calls-map i j [] = refl
replay_calls-map i j (c ∷ calls) =
    ap
      (λ l.
        record c { id = "replay-" ++ (decimal i ++ ("-" ++ decimal j)); parse_error = none } ∷ l)
      (replay_calls-map i (suc j) calls)

record_run-map :
    (rs : List ChatResult) (steps : List Step)
    → All IsClean rs
    → record_run (map replied rs) steps ≡ steps +++ map recorded rs
unfolding record_run record_chat
record_run-map [] steps h = sym (append-nil steps)
record_run-map (r ∷ rs) steps h =
    rw (h.0, record_run)
      (record_run-map rs (steps +++ recorded r ∷ []) h.1
        ∙ append_assoc steps (recorded r ∷ []) (map recorded rs))

step_at-append :
    (pre post : List Step) (s : Step) → step_at (length pre) (pre +++ s ∷ post) ≡ some s
unfolding step_at
step_at-append [] post s = refl
step_at-append (x ∷ pre) post s = step_at-append pre post s

step_at-length : (steps : List Step) → step_at (length steps) steps ≡ none
unfolding step_at
step_at-length [] = refl
step_at-length (s ∷ steps) = step_at-length steps

pub replay_chat-append :
    (pre post : List Step) (r : ChatResult) (i : ℕ)
    → i ≡ length pre
    → replay_chat (pre +++ recorded r ∷ post) i
      ≡ (replied (record r { tool_calls = renamed (i + 1) 0 r.tool_calls }), i + 1)
unfolding replay_chat
replay_chat-append pre post r i e =
    let found =
      subst (λ n. step_at n (pre +++ recorded r ∷ post) ≡ some (recorded r)) (sym e)
        (step_at-append pre post (recorded r)) in
    rw (found, replay_chat)
      (ap (λ calls. (replied (record r { tool_calls = calls }), i + 1))
        (replay_calls-map (i + 1) 0 r.tool_calls))

replay_run-append :
    (pre : List Step) (rs : List ChatResult) (i : ℕ)
    → i ≡ length pre
    → replay_run (pre +++ map recorded rs) (length rs) i ≡ (echoes i rs, i + length rs)
unfolding replay_run
replay_run-append pre [] i e = ap (λ n. ([], n)) (omega arith)
replay_run-append pre (r ∷ rs) i e =
    let rest : replay_run (pre +++ recorded r ∷ map recorded rs) (length rs) (i + 1)
        ≡ (echoes (i + 1) rs, (i + 1) + length rs) =
      ap (λ l. replay_run l (length rs) (i + 1))
        (sym (append_assoc pre (recorded r ∷ []) (map recorded rs)))
      ∙ replay_run-append (pre +++ recorded r ∷ []) rs (i + 1)
          (omega (arith, e, length-append pre (recorded r ∷ []))) in
    let n : (i + 1) + length rs ≡ i + suc (length rs) = omega arith in
    rw (replay_chat-append pre (map recorded rs) r i e) (
      ap
        (λ (p : List ChatReply × ℕ).
          (replied (record r { tool_calls = renamed (i + 1) 0 r.tool_calls }) ∷ p.0, p.1))
        (rest ∙ ap (λ k. (echoes (i + 1) rs, k)) n))

length-recorded : (rs : List ChatResult) → length (map recorded rs) ≡ length rs
length-recorded [] = refl
length-recorded (r ∷ rs) = ap suc (length-recorded rs)

exhausted :
    (rs : List ChatResult)
    → (replay_chat (map recorded rs) (length rs)).0
      ≡ chat_raised "trajectory exhausted: live run took more steps than the recording"
unfolding replay_chat
exhausted rs = rw (
  subst (λ n. step_at n (map recorded rs) ≡ none) (length-recorded rs)
      (step_at-length (map recorded rs)),
  replay_chat,
)

-- A run whose replies are all well formed is replayed: the recording's replay gives the same replies
-- in the same order, with each call's name and arguments, under new call ids; and one more call of it
-- raises the mismatch.
pub replay-record :
    (rs : List ChatResult)
    → All IsClean rs
    → (replay_run (record_run (map replied rs) []) (length rs) 0 ≡ (echoes 0 rs, length rs))
      × ((replay_chat (record_run (map replied rs) []) (length rs)).0
          ≡ chat_raised "trajectory exhausted: live run took more steps than the recording")
unfolding replay_chat
replay-record rs h =
    rw (record_run-map rs [] h)
      (replay_run-append [] rs 0 refl ∙ ap (λ n. (echoes 0 rs, n)) (omega arith), exhausted rs)

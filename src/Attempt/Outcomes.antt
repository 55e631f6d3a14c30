-- ===== src/Attempt/Outcomes.antt =====
-- The outcomes that an attempt can have (worker/attempt.py).
use cloudagentperform.Base.{
  ℕ, ◌≡◌, refl, inl, inr, String, Bool, true, false, Option, none, some, ◌==◌, Bool-cases,
}
use cloudagentperform.Models.{is_terminal, r_cancelled}
use cloudagentperform.Agent.{key_error, type_error, file_not_found, sandbox_died, other_error}
use cloudagentperform.Agent.Loop.{Outcome, Ended, returned, stopped, escaped, Agent}
use cloudagentperform.Agent.Loop.Counts.{Ensures, Verdict}
use cloudagentperform.Attempt.{conclude, stop_outcome}

stop_status : (reason : String) → is_terminal (stop_outcome reason).status ≡ true
stop_status reason = elim (Bool-cases (reason == r_cancelled)) [
  | inl asked ↦ rw asked refl
  | inr other ↦ rw other refl
]

Verdict-status : (o : Outcome) → Verdict o → is_terminal o.status ≡ true
Verdict-status o (inl (s, _, _)) = rw s refl
Verdict-status o (inr (s, _)) = rw s refl

pub conclude_status :
    {E : Type 0} (n : ℕ) (P : Agent E → Type 0) (reason : Option String) (oom : Bool) (end : Ended)
    (a : Agent E) {o : Outcome}
    → Ensures n P (some end, a)
    → conclude reason oom end ≡ some o
    → is_terminal o.status ≡ true
unfolding conclude
conclude_status n P reason oom (returned o') a {o} h e = cc (e, Verdict-status o' h.verdict)
conclude_status n P reason oom (stopped why) a {o} h e = cc (e, stop_status why)
conclude_status n P (some why) oom (escaped (sandbox_died m)) a {o} h e = cc (e, stop_status why)
conclude_status n P none true (escaped (sandbox_died m)) a {o} h e = cc e
conclude_status n P none false (escaped (sandbox_died m)) a {o} h e = cc e
conclude_status n P reason oom (escaped (key_error k)) a {o} h e = cc e
conclude_status n P reason oom (escaped (type_error m)) a {o} h e = cc e
conclude_status n P reason oom (escaped file_not_found) a {o} h e = cc e
conclude_status n P reason oom (escaped (other_error m)) a {o} h e = cc e

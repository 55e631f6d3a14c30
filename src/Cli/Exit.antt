-- ===== src/Cli/Exit.antt =====
-- `_exit_code` of cli/main.py on the events that end a task (core/store.py, worker/attempt.py).
use cloudagentperform.Base.{
  ℕ, String, Bool, true, false, ◌≡◌, Option, none, some, List, if◌then◌else◌,
}
use cloudagentperform.Models.{Status, succeeded, failed, cancelled, Event}
use cloudagentperform.Store.Table.{Store, Result, ok}
use cloudagentperform.Store.{finish, fail_exhausted, cancel_queued}
use cloudagentperform.Agent.Loop.{Outcome}
use cloudagentperform.Attempt.{ending_of}

-- What the command's exit code says: 0 for success, 2 for a cancelled task, 1 for a failed one.
abbrev pub code_of : Status → ℕ
code_of succeeded = 0
code_of cancelled = 2
code_of _ = 1

-- The event that a transaction logs when it ends a task with this status: an attempt's own end, the
-- repair pass, or a cancel.
pub data Ends (s : Store) (ev : Event) : Status → Type 0 where
  by_attempt :
      (tid : String) (attempt : ℕ) (o : Outcome) (artifacts : List String) (now ts : String)
      {s' : Store}
      → finish tid attempt (ending_of o artifacts) now ts s ≡ (ok (some ev), s')
      → Ends s ev o.status
  by_repair :
      (tid : String) (attempt : ℕ) (now ts : String) {s' : Store}
      → fail_exhausted tid attempt now ts s ≡ (ok (some ev), s')
      → Ends s ev failed
  by_cancel :
      (tid now ts : String) {s' : Store}
      → cancel_queued tid now ts s ≡ (ok (some ev), s')
      → Ends s ev cancelled

event_of :
    (b : Bool) (s₁ s₂ : Store) {ev ev' : Event} {s' : Store}
    → ◌≡◌ {A = Result (Option Event) × Store}
        (if b then (ok (some ev), s₁) else (ok none, s₂))
        (ok (some ev'), s')
    → ev ≡ ev'
event_of true s₁ s₂ h = cc h
event_of false s₁ s₂ h = cc h

-- ===== src/Store/History/Distinct.antt =====
-- The ids of the table `tasks` of core/store.py along a history.
use cloudagentperform.Base.{
  ℕ, ◌≡◌, refl, subst, sym, inl, inr, String, Bool, Option, List, [], ◌∷◌, nat_eq, Dict, Bool-cases,
  Option-cases, any,
}
use cloudagentperform.Models.{
  cancelled, failed, is_terminal, in_event_types, r_retries, r_cancelled, Task, Event,
}
use cloudagentperform.Store.Table.{Store, select_id, matching, update_tasks, rowcount, clashes}
use cloudagentperform.Store.Rows.{
  Unique, hits, Unique-update_rows, Unique-append, absent_of_no_clash,
}
use cloudagentperform.Store.{
  Ending, create_task, row_with_key, new_row, claim, claimed, claimable, append_event, finish,
  requeue, request_cancel, add_usage, get, finished, runs_attempt, requeued, ended, waits, is_live,
  flagged, any_row, add_counts,
}
use cloudagentperform.Store.Endings.{
  ending, finish-ending, fail_exhausted-ending, cancel_queued-ending,
}
use cloudagentperform.Store.History.{
  started, message, tool_call, tool_result, Txn, creates, claims, emits, finishes, requeues, fails,
  cancels, requests, uses, exec, run,
}

update-Unique :
    (tid : String) (guard : Task → Bool) (f : Task → Task) (s : Store)
    → ((t : Task) → (f t).id ≡ t.id)
    → Unique s.tasks
    → Unique (update_tasks tid guard f s).tasks
unfolding update_tasks
update-Unique tid guard f s same u = Unique-update_rows f same (matching tid guard) s.tasks u

ending-Unique :
    (tid : String) (guard : Task → Bool) (f : Task → Task) (ev : Event) (s : Store)
    → ((t : Task) → (f t).id ≡ t.id)
    → Unique s.tasks
    → Unique (ending tid guard f ev s).1.tasks
ending-Unique tid guard f ev s same u = elim (Bool-cases (hits guard (select_id tid s.tasks))) [
  | inl hit ↦ rw hit (update-Unique tid guard f s same u)
  | inr miss ↦ rw miss u
]

-- The ids stay distinct in the tables that a method returns.
abbrev Keeps {ℓ} : {A : Type ℓ} → A × Store → Type 0
Keeps r = Unique r.1.tasks

create-Unique :
    (tid now prompt : String) (key : Option String) (max : ℕ) (s : Store)
    → Unique s.tasks
    → Keeps (create_task tid now prompt key max s)
unfolding create_task
create-Unique tid now prompt key max s u = elim (Option-cases (row_with_key key s.tasks)) [
  | inl e ↦ elim (Bool-cases (any (clashes (new_row tid now prompt key max)) s.tasks)) [
    | inl clash ↦ rw (e, Unique, create_task, clash) u
    | inr free ↦
        rw (e, Unique, create_task, free)
          (Unique-append (new_row tid now prompt key max) s.tasks
            (absent_of_no_clash (new_row tid now prompt key max) s.tasks free) u)
  ]
  | inr (row, e) ↦ rw (e, Unique, create_task) u
]

claim-Unique :
    (tid worker now : String) (s : Store) → Unique s.tasks → Keeps (claim tid worker now s)
unfolding claim
claim-Unique tid worker now s u = elim (Bool-cases (nat_eq (rowcount tid claimable s) 1)) [
  | inl hit ↦ rw (Unique, hit) (update-Unique tid claimable (claimed worker now) s (λ t. refl) u)
  | inr miss ↦ rw (Unique, miss) (update-Unique tid claimable (claimed worker now) s (λ t. refl) u)
]

use-Unique :
    (tid : String) (usage : Dict ℕ) (now : String) (s : Store)
    → Unique s.tasks
    → Keeps (add_usage tid usage now s)
unfolding add_usage
use-Unique tid usage now s u = elim (Option-cases (get tid s)) [
  | inl e ↦ rw (e, Unique, add_usage) u
  | inr (row, e) ↦
      rw (e, Unique, add_usage)
        (update-Unique tid any_row
          (λ t. record t { usage = add_counts row.usage usage; updated_at = now }) s (λ t. refl) u)
]

finish-Unique :
    (tid : String) (attempt : ℕ) (e : Ending) (now ts : String) (s : Store)
    → Unique s.tasks
    → Keeps (finish tid attempt e now ts s)
finish-Unique tid attempt e now ts s u = elim (Bool-cases (is_terminal e.status)) [
  | inl final ↦ subst Keeps (sym (finish-ending tid attempt e now ts s u final)) (
      ending-Unique tid (runs_attempt attempt) (finished e.status e.reason e.summary now) _ s
        (λ t. refl) u)
  | inr live ↦ unfold finish in rw (Unique, live) u
]

pub exec-Unique : (x : Txn) (s : Store) → Unique s.tasks → Unique (exec x s).tasks
unfolding exec
exec-Unique (creates tid now prompt key max) s u = create-Unique tid now prompt key max s u
exec-Unique (claims tid worker now) s u = claim-Unique tid worker now s u
exec-Unique (emits tid attempt started ts payload) s u = unfold append_event in_event_types in u
exec-Unique (emits tid attempt message ts payload) s u = unfold append_event in_event_types in u
exec-Unique (emits tid attempt tool_call ts payload) s u = unfold append_event in_event_types in u
exec-Unique (emits tid attempt tool_result ts payload) s u = unfold append_event in_event_types in u
exec-Unique (finishes tid attempt e now ts) s u = finish-Unique tid attempt e now ts s u
exec-Unique (requeues tid attempt now) s u =
    unfold requeue in update-Unique tid (runs_attempt attempt) (requeued now) s (λ t. refl) u
exec-Unique (fails tid attempt now ts) s u =
    subst Keeps (sym (fail_exhausted-ending tid attempt now ts s u))
      (ending-Unique tid (runs_attempt attempt) (ended failed r_retries now) _ s (λ t. refl) u)
exec-Unique (cancels tid now ts) s u =
    subst Keeps (sym (cancel_queued-ending tid now ts s u))
      (ending-Unique tid waits (ended cancelled r_cancelled now) _ s (λ t. refl) u)
exec-Unique (requests tid now) s u =
    unfold request_cancel in update-Unique tid is_live (flagged now) s (λ t. refl) u
exec-Unique (uses tid usage now) s u = use-Unique tid usage now s u

-- Whatever transactions run, the ids of the tasks stay distinct.
pub run-Unique : (xs : List Txn) (s : Store) → Unique s.tasks → Unique (run xs s).tasks
unfolding run
run-Unique [] s u = u
run-Unique (x ∷ xs) s u = run-Unique xs (exec x s) (exec-Unique x s u)

-- ===== src/Store/History/Log.antt =====
-- The table `events` of core/store.py over a history, and `events_after`, from which GET
-- /tasks/{id}/events of api/main.py replays.
use cloudagentperform.Base.{
  ℕ, ◌+◌, ◌≤◌, ◌<◌, ◌≡◌, refl, ap, ◌∙◌, sym, inl, inr, String, Bool, Option, List, [], ◌∷◌, ◌++◌,
  arith, Bool-cases, Option-cases, any, nat_eq, Dict,
}
use mathlib.Core.List.{append-nil, append_assoc}
use cloudagentperform.Models.{
  is_terminal, in_event_types, ev_started, ev_message, ev_tool_call, ev_tool_result, r_retries,
  r_cancelled, failed, cancelled, Task, Event,
}
use cloudagentperform.Store.Table.{Store, select_id, clashes, update_tasks, rowcount}
use cloudagentperform.Store.Rows.{Unique, hits}
use cloudagentperform.Store.{
  get, create_task, row_with_key, new_row, claim, claimable, append_event, finish, requeue,
  request_cancel, add_usage, finished, runs_attempt, Ending, ended, waits,
}
use cloudagentperform.Store.Endings.{
  ending, logged, next_event, finish-ending, fail_exhausted-ending, cancel_queued-ending,
}
use cloudagentperform.Store.History.{
  started, message, tool_call, tool_result, Txn, creates, claims, emits, finishes, requeues, fails,
  cancels, requests, uses, exec, run,
}
use cloudagentperform.Store.History.Distinct.{exec-Unique}

-- The ids increase strictly, from above `lo` to `hi` at most.
abbrev pub Ascends : ℕ → List Event → ℕ → Type 0
Ascends lo [] hi = lo ≤ hi
Ascends lo (e ∷ es) hi = (lo < e.id) × Ascends e.id es hi

Ascends-append :
    (lo mid hi : ℕ) (xs ys : List Event)
    → Ascends lo xs mid
    → Ascends mid ys hi
    → Ascends lo (xs ++ ys) hi
Ascends-append lo mid hi [] [] h k = omega arith
Ascends-append lo mid hi [] (y ∷ ys) h k = (omega arith, k.1)
Ascends-append lo mid hi (x ∷ xs) ys h k = (h.0, Ascends-append x.id mid hi xs ys h.1 k)

-- `s'` has the events of `s` and later ones.
abbrev pub Extends : Store → Store → Type 0
Extends s s' = (new : List Event) × (s'.events ≡ s.events ++ new) × Ascends s.last_id new s'.last_id

Extends-refl : (s : Store) → Extends s s
Extends-refl s = ([], sym (append-nil s.events), omega arith)

pub Extends-trans : (s r v : Store) → Extends s r → Extends r v → Extends s v
Extends-trans s r v (xs, e, h) (ys, e', h') = (
  xs ++ ys,
  e' ∙ ap (λ l. l ++ ys) e ∙ append_assoc s.events xs ys,
  Ascends-append s.last_id r.last_id v.last_id xs ys h h',
)

logged-Extends : (s : Store) (ev : Event) → ev.id ≡ s.last_id + 1 → Extends s (logged ev s)
logged-Extends s ev e = (ev ∷ [], refl, (omega arith, omega arith))

update-Extends :
    (tid : String) (guard : Task → Bool) (f : Task → Task) (s : Store)
    → Extends s (update_tasks tid guard f s)
unfolding update_tasks
update-Extends tid guard f s = Extends-refl s

ending-Extends :
    (tid : String) (guard : Task → Bool) (f : Task → Task) (ev : Event) (s : Store)
    → ev.id ≡ s.last_id + 1
    → Extends s (ending tid guard f ev s).1
ending-Extends tid guard f ev s e = elim (Bool-cases (hits guard (select_id tid s.tasks))) [
  | inl hit ↦ rw hit (unfold update_tasks in (ev ∷ [], refl, (omega arith, omega arith)))
  | inr miss ↦ rw miss (Extends-refl s)
]

create-Extends :
    (tid now prompt : String) (key : Option String) (max : ℕ) (s : Store)
    → Extends s (create_task tid now prompt key max s).1
unfolding create_task
create-Extends tid now prompt key max s = elim (Option-cases (row_with_key key s.tasks)) [
  | inl e ↦ elim (Bool-cases (any (clashes (new_row tid now prompt key max)) s.tasks)) [
    | inl clash ↦ rw (e, create_task, clash) (Extends-refl s)
    | inr free ↦ rw (e, create_task, free) (Extends-refl s)
  ]
  | inr (row, e) ↦ rw (e, create_task) (Extends-refl s)
]

claim-Extends : (tid worker now : String) (s : Store) → Extends s (claim tid worker now s).1
unfolding claim update_tasks
claim-Extends tid worker now s = elim (Bool-cases (nat_eq (rowcount tid claimable s) 1)) [
  | inl hit ↦ rw hit (Extends-refl s)
  | inr miss ↦ rw miss (Extends-refl s)
]

finish-Extends :
    (tid : String) (attempt : ℕ) (e : Ending) (now ts : String) (s : Store)
    → Unique s.tasks
    → Extends s (finish tid attempt e now ts s).1
finish-Extends tid attempt e now ts s u = elim (Bool-cases (is_terminal e.status)) [
  | inl final ↦ rw (finish-ending tid attempt e now ts s u final) (
      ending-Extends tid (runs_attempt attempt) (finished e.status e.reason e.summary now) _ s refl)
  | inr live ↦ unfold finish in rw live (Extends-refl s)
]

use-Extends :
    (tid : String) (usage : Dict ℕ) (now : String) (s : Store)
    → Extends s (add_usage tid usage now s).1
unfolding add_usage
use-Extends tid usage now s = elim (Option-cases (get tid s)) [
  | inl e ↦ rw (e, add_usage) (Extends-refl s)
  | inr (row, e) ↦ rw (e, add_usage) (Extends-refl s)
]

exec-Extends : (x : Txn) (s : Store) → Unique s.tasks → Extends s (exec x s)
unfolding exec
exec-Extends (creates tid now prompt key max) s u = create-Extends tid now prompt key max s
exec-Extends (claims tid worker now) s u = claim-Extends tid worker now s
exec-Extends (emits tid attempt started ts payload) s u =
    unfold append_event in_event_types in
    logged-Extends s (next_event tid attempt ev_started ts payload s) refl
exec-Extends (emits tid attempt message ts payload) s u =
    unfold append_event in_event_types in
    logged-Extends s (next_event tid attempt ev_message ts payload s) refl
exec-Extends (emits tid attempt tool_call ts payload) s u =
    unfold append_event in_event_types in
    logged-Extends s (next_event tid attempt ev_tool_call ts payload s) refl
exec-Extends (emits tid attempt tool_result ts payload) s u =
    unfold append_event in_event_types in
    logged-Extends s (next_event tid attempt ev_tool_result ts payload s) refl
exec-Extends (finishes tid attempt e now ts) s u = finish-Extends tid attempt e now ts s u
exec-Extends (requeues tid attempt now) s u = unfold requeue in Extends-refl s
exec-Extends (fails tid attempt now ts) s u =
    rw (exec, fail_exhausted-ending tid attempt now ts s u)
      (ending-Extends tid (runs_attempt attempt) (ended failed r_retries now) _ s refl)
exec-Extends (cancels tid now ts) s u =
    rw (exec, cancel_queued-ending tid now ts s u)
      (ending-Extends tid waits (ended cancelled r_cancelled now) _ s refl)
exec-Extends (requests tid now) s u = unfold request_cancel in Extends-refl s
exec-Extends (uses tid usage now) s u = use-Extends tid usage now s

pub run-Extends : (xs : List Txn) (s : Store) → Unique s.tasks → Extends s (run xs s)
unfolding run
run-Extends [] s u = Extends-refl s
run-Extends (x ∷ xs) s u =
    Extends-trans s (exec x s) (run xs (exec x s)) (exec-Extends x s u)
      (run-Extends xs (exec x s) (exec-Unique x s u))

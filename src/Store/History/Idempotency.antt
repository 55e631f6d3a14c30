-- ===== src/Store/History/Idempotency.antt =====
-- `create_task` of core/store.py with an idempotency key, over a history. POST /tasks of api/main.py
-- passes the client's key on to it.
use cloudagentperform.Base.{
  ℕ, ◌≡◌, refl, inl, inr, String, Bool, false, ◌≢◌, Option, some, List, [], ◌∷◌, arith, Bool-cases,
  Option-cases, eq_refl, any, nat_eq, Dict, ==-false,
}
use cloudagentperform.Models.{
  is_terminal, in_event_types, r_retries, r_cancelled, failed, cancelled, Task,
}
use cloudagentperform.Store.Table.{
  Store, ok, err, integrity_error, init, select_key, clashes, rowcount,
}
use cloudagentperform.Store.Rows.{Unique}
use cloudagentperform.Store.{
  get, create_task, row_with_key, new_row, claim, claimed, claimable, append_event, finish,
  finished, runs_attempt, Ending, requeue, requeued, ended, waits, request_cancel, is_live, flagged,
  add_usage, any_row, add_counts,
}
use cloudagentperform.Store.Endings.{finish-ending, fail_exhausted-ending, cancel_queued-ending}
use cloudagentperform.Store.History.{
  started, message, tool_call, tool_result, Txn, creates, claims, emits, finishes, requeues, fails,
  cancels, requests, uses, exec, run,
}
use cloudagentperform.Store.History.Distinct.{exec-Unique, run-Unique}
use cloudagentperform.Store.History.Keys.{
  HasKey, select_key-append, select_key-append_new, clash_of_key, no_key_of_no_clash, update-HasKey,
  ending-HasKey,
}

module _ (k tid : String) (s : Store) where
  create-HasKey :
      (j now prompt : String) (key : Option String) (max : ℕ)
      → HasKey k tid s
      → HasKey k tid (create_task j now prompt key max s).1
  unfolding create_task
  create-HasKey j now prompt key max (t, h, e) = elim (Option-cases (row_with_key key s.tasks)) [
    | inl none' ↦ elim (Bool-cases (any (clashes (new_row j now prompt key max)) s.tasks)) [
      | inl clash ↦ rw (none', create_task, clash) (t, h, e)
      | inr free ↦
          rw (none', create_task, free)
            (t, select_key-append k s.tasks (new_row j now prompt key max) {t = t} h, e)
    ]
    | inr (row, some') ↦ rw (some', create_task) (t, h, e)
  ]

  claim-HasKey : (j worker now : String) → HasKey k tid s → HasKey k tid (claim j worker now s).1
  unfolding claim
  claim-HasKey j worker now h = elim (Bool-cases (nat_eq (rowcount j claimable s) 1)) [
    | inl hit ↦
        rw hit (update-HasKey k tid j claimable (claimed worker now) s (λ r. refl) (λ r. refl) h)
    | inr miss ↦
        rw miss (update-HasKey k tid j claimable (claimed worker now) s (λ r. refl) (λ r. refl) h)
  ]

  finish-HasKey :
      (j : String) (attempt : ℕ) (e : Ending) (now ts : String)
      → Unique s.tasks
      → HasKey k tid s
      → HasKey k tid (finish j attempt e now ts s).1
  finish-HasKey j attempt e now ts u h = elim (Bool-cases (is_terminal e.status)) [
    | inl final ↦ rw (finish-ending j attempt e now ts s u final) (
        ending-HasKey k tid j (runs_attempt attempt) (finished e.status e.reason e.summary now) _ s
          (λ r. refl) (λ r. refl) h)
    | inr live ↦ unfold finish in rw live h
  ]

  use-HasKey :
      (j : String) (usage : Dict ℕ) (now : String)
      → HasKey k tid s
      → HasKey k tid (add_usage j usage now s).1
  unfolding add_usage
  use-HasKey j usage now h = elim (Option-cases (get j s)) [
    | inl e ↦ rw (e, add_usage) h
    | inr (row, e) ↦
        rw (e, add_usage)
          (update-HasKey k tid j any_row
            (λ t. record t { usage = add_counts row.usage usage; updated_at = now }) s (λ r. refl)
            (λ r. refl) h)
  ]

exec-HasKey :
    (k tid : String) (x : Txn) (s : Store)
    → Unique s.tasks
    → HasKey k tid s
    → HasKey k tid (exec x s)
unfolding exec
exec-HasKey k tid (creates j now prompt key max) s u h =
    create-HasKey k tid s j now prompt key max h
exec-HasKey k tid (claims j worker now) s u h = claim-HasKey k tid s j worker now h
exec-HasKey k tid (emits j attempt started ts payload) s u h =
    unfold append_event in_event_types in h
exec-HasKey k tid (emits j attempt message ts payload) s u h =
    unfold append_event in_event_types in h
exec-HasKey k tid (emits j attempt tool_call ts payload) s u h =
    unfold append_event in_event_types in h
exec-HasKey k tid (emits j attempt tool_result ts payload) s u h =
    unfold append_event in_event_types in h
exec-HasKey k tid (finishes j attempt e now ts) s u h = finish-HasKey k tid s j attempt e now ts u h
exec-HasKey k tid (requeues j attempt now) s u h =
    unfold requeue in
    update-HasKey k tid j (runs_attempt attempt) (requeued now) s (λ r. refl) (λ r. refl) h
exec-HasKey k tid (fails j attempt now ts) s u h =
    rw (exec, fail_exhausted-ending j attempt now ts s u)
      (ending-HasKey k tid j (runs_attempt attempt) (ended failed r_retries now) _ s (λ r. refl)
        (λ r. refl) h)
exec-HasKey k tid (cancels j now ts) s u h =
    rw (exec, cancel_queued-ending j now ts s u)
      (ending-HasKey k tid j waits (ended cancelled r_cancelled now) _ s (λ r. refl) (λ r. refl) h)
exec-HasKey k tid (requests j now) s u h =
    unfold request_cancel in update-HasKey k tid j is_live (flagged now) s (λ r. refl) (λ r. refl) h
exec-HasKey k tid (uses j usage now) s u h = use-HasKey k tid s j usage now h

run-HasKey :
    (k tid : String) (xs : List Txn) (s : Store)
    → Unique s.tasks
    → HasKey k tid s
    → HasKey k tid (run xs s)
unfolding run
run-HasKey k tid [] s u h = h
run-HasKey k tid (x ∷ xs) s u h =
    run-HasKey k tid xs (exec x s) (exec-Unique x s u) (exec-HasKey k tid x s u h)

-- After `create_task` has returned a task for a key, a SELECT by the key finds it.
created-HasKey :
    (j now prompt k : String) (max : ℕ) (s : Store) {t : Task} {new : Bool}
    → (create_task j now prompt (some k) max s).0 ≡ ok (t, new)
    → HasKey k t.id (create_task j now prompt (some k) max s).1
unfolding create_task
created-HasKey j now prompt k max s {t} h = elim (Option-cases (row_with_key (some k) s.tasks)) [
  | inl e ↦ elim (Bool-cases (any (clashes (new_row j now prompt (some k) max)) s.tasks)) [
    | inl clash ↦ absurd (ground arith)
    | inr free ↦
        rw (e, create_task, free)
          (
            new_row j now prompt (some k) max,
            select_key-append_new k s.tasks (new_row j now prompt (some k) max)
                (no_key_of_no_clash k s.tasks (new_row j now prompt (some k) max) free refl)
                (eq_refl k),
            ground arith,
          )
  ]
  | inr (row, e) ↦ rw (e, create_task) (row, ground arith, ground arith)
]

created-HasKey_later :
    (before between : List Txn) (j now prompt k : String) (max : ℕ) {t : Task} {new : Bool}
    → (create_task j now prompt (some k) max (run before init)).0 ≡ ok (t, new)
    → HasKey k t.id (run between (create_task j now prompt (some k) max (run before init)).1)
created-HasKey_later before between j now prompt k max {t} {new} h =
    let s = run before init in
    let u = run-Unique before init tt in
    let s' = (create_task j now prompt (some k) max s).1 in
    let u' : Unique s'.tasks = unfold exec in exec-Unique (creates j now prompt (some k) max) s u in
    run-HasKey k t.id between s' u' (created-HasKey j now prompt k max s {t = t} {new = new} h)

create_existing :
    (j now prompt k : String) (max : ℕ) (s : Store) {t : Task}
    → k ≢ ""
    → select_key k s.tasks ≡ some t
    → create_task j now prompt (some k) max s ≡ (ok (t, false), s)
unfolding create_task
create_existing j now prompt k max s ne found = rw (==-false ne, create_task, found)

create_again :
    (j now prompt : String) (max : ℕ) (s : Store) {t : Task}
    → select_key "" s.tasks ≡ some t
    → create_task j now prompt (some "") max s ≡ (err integrity_error, s)
unfolding create_task
create_again j now prompt max s {t} found =
    rw (clash_of_key "" s.tasks (new_row j now prompt (some "") max) {t = t} found refl)

-- Once `create_task` has returned a task for a key other than the empty text, every later call with
-- that key, whatever ran in between, returns the row of the same task and `False`, and creates
-- nothing.
pub create_task_idempotent :
    (before between : List Txn) (j j' now now' prompt prompt' k : String) (max max' : ℕ) {t : Task}
    {new : Bool}
    → k ≢ ""
    → (create_task j now prompt (some k) max (run before init)).0 ≡ ok (t, new)
    → (t' : Task) × (t'.id ≡ t.id)
      × (create_task j' now' prompt'
            (some k)
            max'
            (run between (create_task j now prompt (some k) max (run before init)).1)
          ≡ (
            ok (t', false),
            run between (create_task j now prompt (some k) max (run before init)).1,
          ))
create_task_idempotent before between j j' now now' prompt prompt' k max max' {t} {new} ne h =
    let (t', found, same) =
      created-HasKey_later before between j now prompt k max {t = t} {new = new} h in
    (t', same, create_existing j' now' prompt' k max' _ {t = t'} ne found)

-- With the empty text for a key the check is skipped and the UNIQUE column is not: once such a call
-- has returned a task, every later one raises `IntegrityError` and creates nothing.
pub create_task_empty_key :
    (before between : List Txn) (j j' now now' prompt prompt' : String) (max max' : ℕ) {t : Task}
    {new : Bool}
    → (create_task j now prompt (some "") max (run before init)).0 ≡ ok (t, new)
    → create_task j' now' prompt'
        (some "")
        max'
        (run between (create_task j now prompt (some "") max (run before init)).1)
      ≡ (
        err integrity_error,
        run between (create_task j now prompt (some "") max (run before init)).1,
      )
create_task_empty_key before between j j' now now' prompt prompt' max max' {t} {new} h =
    let (t', found, same) =
      created-HasKey_later before between j now prompt "" max {t = t} {new = new} h in
    create_again j' now' prompt' max' _ {t = t'} found

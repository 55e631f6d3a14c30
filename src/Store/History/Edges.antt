-- ===== src/Store/History/Edges.antt =====
-- The transactions of core/store.py as moves in the state machine of each task.
use cloudagentperform.Base.{
  ℕ, ◌≡◌, refl, inl, inr, String, Bool, true, Option, none, some, [], ◌∷◌, ◌++◌, ◌==◌, nat_eq,
  arith, Dict, Bool-cases, Option-cases, any,
}
use cloudagentperform.Models.{
  Status, queued, running, succeeded, cancelled, failed, is_terminal, in_event_types, ends_stream,
  r_retries, r_cancelled, ev_started, ev_message, ev_tool_call, ev_tool_result, Json, Task,
}
use cloudagentperform.Store.Table.{Store, select_id, rowcount, clashes}
use cloudagentperform.Store.Rows.{Unique, select_id-append, absent_of_no_clash}
use cloudagentperform.Store.{
  Ending, create_task, row_with_key, new_row, claim, claimed, claimable, append_event, finish,
  requeue, fail_exhausted, cancel_queued, request_cancel, add_usage, get, finished, end_type,
  runs_attempt, requeued, ended, waits, is_live, flagged, any_row, add_counts,
}
use cloudagentperform.Store.Endings.{
  next_event, finish-ending, fail_exhausted-ending, cancel_queued-ending,
}
use cloudagentperform.Store.History.{
  Emitted, emitted_type, started, message, tool_call, tool_result, Txn, creates, claims, emits,
  finishes, requeues, fails, cancels, requests, uses, exec,
}
use cloudagentperform.Store.History.Moves.{
  SameRun, Edge, touch, start, give_back, close, withdraw, Move, absent, enter, Moves, Moves-refl,
  Move-refl, update-Moves, ending-Moves, ends_of-quiet,
}

touched :
    (t : Task) (flag : Bool) (now : String) (u : Dict ℕ)
    → SameRun t (record t { usage = u; cancel_requested = flag; updated_at = now })
touched t flag now u = record {
  id = refl;
  status = refl;
  attempt = refl;
  max_attempts = refl;
  failure_reason = refl;
  result_summary = refl;
}

claimed-Edge :
    (worker now : String) (t : Task) → claimable t ≡ true → Edge t (claimed worker now t) 0
claimed-Edge worker now t h = start (ground arith) refl (ground arith) refl refl refl

requeued-Edge :
    (attempt : ℕ) (now : String) (t : Task)
    → runs_attempt attempt t ≡ true
    → Edge t (requeued now t) 0
requeued-Edge attempt now t h = give_back (ground arith) refl refl refl refl

finished-Edge :
    (attempt : ℕ) (e : Ending) (now : String)
    → is_terminal e.status ≡ true
    → (t : Task) → runs_attempt attempt t ≡ true
    → Edge t (finished e.status e.reason e.summary now t) 1
finished-Edge attempt e now final t h = close (ground arith) final refl refl refl

failed-Edge :
    (attempt : ℕ) (now : String) (t : Task)
    → runs_attempt attempt t ≡ true
    → Edge t (ended failed r_retries now t) 1
failed-Edge attempt now t h = close (ground arith) refl refl refl refl

cancelled-Edge :
    (now : String) (t : Task) → waits t ≡ true → Edge t (ended cancelled r_cancelled now t) 1
cancelled-Edge now t h = withdraw (ground arith) refl refl refl refl

end_type_ends : (status : Status) → ends_stream (end_type status) ≡ true
end_type_ends queued = refl
end_type_ends running = refl
end_type_ends succeeded = refl
end_type_ends failed = refl
end_type_ends cancelled = refl

-- A row with a new id.
insert-Move :
    (row : Task) (s : Store) (j : String)
    → row.status ≡ queued
    → row.attempt ≡ 0
    → select_id row.id s.tasks ≡ none
    → Move (select_id j s.tasks) (select_id j (s.tasks ++ row ∷ [])) 0
insert-Move row s j q z h =
    rw (select_id-append row j s.tasks) (elim (Option-cases (select_id j s.tasks)) [
      | inl e ↦ rw e (elim (Bool-cases (row.id == j)) [
        | inl hit ↦ rw hit (enter row refl refl q z refl)
        | inr miss ↦ rw miss (absent refl refl refl)
      ])
      | inr (t, e) ↦ rw e (Move-refl (some t))
    ])

module _ (s : Store) (u : Unique s.tasks) (j : String) where
  create-Moves :
      (tid now prompt : String) (key : Option String) (max : ℕ)
      → Moves j s (create_task tid now prompt key max s).1
  unfolding create_task
  create-Moves tid now prompt key max = elim (Option-cases (row_with_key key s.tasks)) [
    | inl e ↦ elim (Bool-cases (any (clashes (new_row tid now prompt key max)) s.tasks)) [
      | inl clash ↦ rw (e, create_task, clash) (Moves-refl j s)
      | inr free ↦
          rw (e, create_task, free)
            (
              0,
              omega arith,
              insert-Move (new_row tid now prompt key max) s j refl refl
                  (absent_of_no_clash (new_row tid now prompt key max) s.tasks free),
            )
    ]
    | inr (row, e) ↦ rw (e, create_task) (Moves-refl j s)
  ]

  claim-Moves : (tid worker now : String) → Moves j s (claim tid worker now s).1
  unfolding claim
  claim-Moves tid worker now = elim (Bool-cases (nat_eq (rowcount tid claimable s) 1)) [
    | inl hit ↦
        rw hit (
          update-Moves tid claimable (claimed worker now) (λ t. refl) s j (claimed-Edge worker now))
    | inr miss ↦
        rw miss (
          update-Moves tid claimable (claimed worker now) (λ t. refl) s j (claimed-Edge worker now))
  ]

  emit-Moves :
      (tid : String) (attempt : ℕ) (kind : Emitted) (ts : String) (payload : Dict Json)
      → Moves j s (append_event tid attempt (emitted_type kind) ts payload s).1
  unfolding append_event in_event_types
  emit-Moves tid attempt started ts payload = (
    0,
    ends_of-quiet j (next_event tid attempt ev_started ts payload s) s refl,
    Move-refl (select_id j s.tasks),
  )
  emit-Moves tid attempt message ts payload = (
    0,
    ends_of-quiet j (next_event tid attempt ev_message ts payload s) s refl,
    Move-refl (select_id j s.tasks),
  )
  emit-Moves tid attempt tool_call ts payload = (
    0,
    ends_of-quiet j (next_event tid attempt ev_tool_call ts payload s) s refl,
    Move-refl (select_id j s.tasks),
  )
  emit-Moves tid attempt tool_result ts payload = (
    0,
    ends_of-quiet j (next_event tid attempt ev_tool_result ts payload s) s refl,
    Move-refl (select_id j s.tasks),
  )

  finish-Moves :
      (tid : String) (attempt : ℕ) (e : Ending) (now ts : String)
      → Moves j s (finish tid attempt e now ts s).1
  finish-Moves tid attempt e now ts = elim (Bool-cases (is_terminal e.status)) [
    | inl final ↦ rw (finish-ending tid attempt e now ts s u final) (
        ending-Moves tid (runs_attempt attempt) (finished e.status e.reason e.summary now)
          (λ t. refl) s j _ refl (end_type_ends e.status) (finished-Edge attempt e now final))
    | inr live ↦ unfold finish in rw live (Moves-refl j s)
  ]

  requeue-Moves :
      (tid : String) (attempt : ℕ) (now : String) → Moves j s (requeue tid attempt now s).1
  unfolding requeue
  requeue-Moves tid attempt now =
      update-Moves tid (runs_attempt attempt) (requeued now) (λ t. refl) s j
        (requeued-Edge attempt now)

  fail-Moves :
      (tid : String) (attempt : ℕ) (now ts : String)
      → Moves j s (fail_exhausted tid attempt now ts s).1
  fail-Moves tid attempt now ts = rw (fail_exhausted-ending tid attempt now ts s u) (
      ending-Moves tid (runs_attempt attempt) (ended failed r_retries now) (λ t. refl) s j _ refl
        refl (failed-Edge attempt now))

  cancel-Moves : (tid now ts : String) → Moves j s (cancel_queued tid now ts s).1
  cancel-Moves tid now ts = rw (cancel_queued-ending tid now ts s u) (
      ending-Moves tid waits (ended cancelled r_cancelled now) (λ t. refl) s j _ refl refl
        (cancelled-Edge now))

  request-Moves : (tid now : String) → Moves j s (request_cancel tid now s).1
  unfolding request_cancel
  request-Moves tid now =
      update-Moves tid is_live (flagged now) (λ t. refl) s j
        (λ t h. touch (touched t true now t.usage) refl)

  use-Moves :
      (tid : String) (usage : Dict ℕ) (now : String) → Moves j s (add_usage tid usage now s).1
  unfolding add_usage
  use-Moves tid usage now = elim (Option-cases (get tid s)) [
    | inl e ↦ rw (e, add_usage) (Moves-refl j s)
    | inr (row, e) ↦
        rw (e, add_usage)
          (update-Moves tid any_row
            (λ t. record t { usage = add_counts row.usage usage; updated_at = now }) (λ t. refl) s j
            (λ t h. touch (touched t t.cancel_requested now (add_counts row.usage usage)) refl))
  ]

-- From distinct ids, each transaction moves each task along one edge of the state machine, or leaves
-- it absent, or enters it as queued with no attempt; and it logs one terminal event of the task if
-- the edge ends the task, and none otherwise.
pub exec-Moves : (x : Txn) (s : Store) → Unique s.tasks → (j : String) → Moves j s (exec x s)
unfolding exec
exec-Moves (creates tid now prompt key max) s u j = create-Moves s u j tid now prompt key max
exec-Moves (claims tid worker now) s u j = claim-Moves s u j tid worker now
exec-Moves (emits tid attempt kind ts payload) s u j = emit-Moves s u j tid attempt kind ts payload
exec-Moves (finishes tid attempt e now ts) s u j = finish-Moves s u j tid attempt e now ts
exec-Moves (requeues tid attempt now) s u j = requeue-Moves s u j tid attempt now
exec-Moves (fails tid attempt now ts) s u j = fail-Moves s u j tid attempt now ts
exec-Moves (cancels tid now ts) s u j = cancel-Moves s u j tid now ts
exec-Moves (requests tid now) s u j = request-Moves s u j tid now
exec-Moves (uses tid usage now) s u j = use-Moves s u j tid usage now

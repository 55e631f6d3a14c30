-- ===== src/Store/Endings.antt =====
-- The three transactions of core/store.py that end a task: `finish`, `fail_exhausted` and
-- `cancel_queued`. All are one conditional UPDATE with one event, so one lemma serves them.
use cloudagentperform.Base.{
  ℕ, ◌+◌, ◌≡◌, refl, inl, inr, String, Bool, true, Option, none, some, [], ◌∷◌, ◌++◌, if◌then◌else◌,
  nat_eq, Dict, Bool-cases,
}
use cloudagentperform.Models.{
  Status, queued, running, succeeded, cancelled, failed, is_terminal, in_event_types, ev_failed,
  r_retries, r_cancelled, Json, Task, Event,
}
use cloudagentperform.Store.Table.{Store, Result, ok, select_id, update_tasks, rowcount}
use cloudagentperform.Store.Rows.{Unique, hits, rowcount-hits, update_tasks_miss}
use cloudagentperform.Store.{
  commit, insert_event, finish, finish_payload, finished, end_type, Ending, runs_attempt,
  fail_exhausted, ended, end_payload, cancel_queued, waits,
}

abbrev pub next_event : String → ℕ → String → String → Dict Json → Store → Event
next_event tid attempt type ts payload s = record {
  id = s.last_id + 1;
  task_id = tid;
  attempt = attempt;
  type = type;
  ts = ts;
  payload = payload;
}

-- The tables after an event has been inserted.
abbrev pub logged : Event → Store → Store
logged ev s = record s { events = s.events ++ ev ∷ []; last_id = s.last_id + 1 }

-- The transaction as a whole: it writes the row and the event, or nothing.
abbrev pub ending :
    String → (Task → Bool) → (Task → Task) → Event → Store → Result (Option Event) × Store
ending tid guard f ev s =
    if hits guard (select_id tid s.tasks)
    then (ok (some ev), logged ev (update_tasks tid guard f s))
    else (ok none, s)

module _ (tid : String) (guard : Task → Bool) (f : Task → Task) (s : Store)
    (u : Unique s.tasks) where
  ending_lem :
      (attempt : ℕ) (type ts : String) (payload : Dict Json)
      → in_event_types type ≡ true
      → (if nat_eq (rowcount tid guard s) 1
          then commit s (insert_event tid attempt type ts payload (update_tasks tid guard f s))
          else (ok none, update_tasks tid guard f s))
        ≡ ending tid guard f (next_event tid attempt type ts payload s) s
  unfolding insert_event update_tasks
  ending_lem attempt type ts payload known =
      elim (Bool-cases (hits guard (select_id tid s.tasks))) [
        | inl hit ↦ rw (rowcount-hits tid guard s u, hit, known)
        | inr miss ↦ rw (rowcount-hits tid guard s u, miss, update_tasks_miss tid guard f s u miss)
      ]

end_type_known : (status : Status) → in_event_types (end_type status) ≡ true
unfolding in_event_types
end_type_known queued = refl
end_type_known running = refl
end_type_known succeeded = refl
end_type_known failed = refl
end_type_known cancelled = refl

pub finish-ending :
    (tid : String) (attempt : ℕ) (e : Ending) (now ts : String) (s : Store)
    → Unique s.tasks
    → is_terminal e.status ≡ true
    → finish tid attempt e now ts s
      ≡ ending tid
          (runs_attempt attempt)
          (finished e.status e.reason e.summary now)
          (next_event tid attempt
            (end_type e.status)
            ts
            (finish_payload e.status e.reason e.summary e.usage e.extra_payload)
            s)
          s
unfolding finish
finish-ending tid attempt e now ts s u h = rw h (
    ending_lem tid (runs_attempt attempt) (finished e.status e.reason e.summary now) s u attempt
      (end_type e.status) ts (finish_payload e.status e.reason e.summary e.usage e.extra_payload)
      (end_type_known e.status))

pub fail_exhausted-ending :
    (tid : String) (attempt : ℕ) (now ts : String) (s : Store)
    → Unique s.tasks
    → fail_exhausted tid attempt now ts s
      ≡ ending tid
          (runs_attempt attempt)
          (ended failed r_retries now)
          (next_event tid attempt ev_failed ts (end_payload failed r_retries) s)
          s
unfolding fail_exhausted in_event_types
fail_exhausted-ending tid attempt now ts s u =
    ending_lem tid (runs_attempt attempt) (ended failed r_retries now) s u attempt ev_failed ts
      (end_payload failed r_retries) refl

pub cancel_queued-ending :
    (tid now ts : String) (s : Store)
    → Unique s.tasks
    → cancel_queued tid now ts s
      ≡ ending tid waits
          (ended cancelled r_cancelled now)
          (next_event tid 0 ev_failed ts (end_payload cancelled r_cancelled) s)
          s
unfolding cancel_queued in_event_types
cancel_queued-ending tid now ts s u =
    ending_lem tid waits (ended cancelled r_cancelled now) s u 0 ev_failed ts
      (end_payload cancelled r_cancelled) refl

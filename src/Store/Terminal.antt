-- ===== src/Store/Terminal.antt =====
-- core/store.py: `finish`, `requeue`, `fail_exhausted` and `cancel_queued` of `TaskStore`.
use cloudagentperform.Base.{
  ℕ, String, Bool, not, Option, none, some, [], ◌∷◌, ◌&&◌, ◌==◌, if◌then◌else◌, nat_eq, Dict,
  insert, update,
}
use cloudagentperform.Models.{
  Status, queued, failed, cancelled, is_terminal, is_queued, is_running, is_succeeded, status_text,
  ev_completed, ev_failed, r_retries, r_cancelled, Json, str, obj, counts, Task, Event,
}
use cloudagentperform.Store.Table.{Store, assertion_error, Result, ok, err, update_tasks, rowcount}
use cloudagentperform.Store.Tasks.{insert_event}

-- The terminal writes: `UPDATE … WHERE id=? AND status=? AND attempt=?` and the event, in one
-- transaction.
abbrev pub runs_attempt : ℕ → Task → Bool
runs_attempt attempt t = is_running t.status && nat_eq t.attempt attempt

-- The transaction commits with the event, or is rolled back to `s`.
abbrev pub commit : Store → Result Event × Store → Result (Option Event) × Store
commit s (ok ev, s') = (ok (some ev), s')
commit s (err e, s') = (err e, s)

abbrev pub finished : Status → Option String → Option String → String → Task → Task
finished status reason summary now t = record t {
  status = status;
  failure_reason = reason;
  result_summary = summary;
  updated_at = now;
}

-- `if value: payload[key] = …`, for an optional text.
abbrev pub put_text : String → Option String → Dict Json → Dict Json
put_text key none d = d
put_text key (some v) d = if v == "" then d else insert key (str v) d

abbrev pub put_usage : Option (Dict ℕ) → Dict Json → Dict Json
put_usage none d = d
put_usage (some []) d = d
put_usage (some (x ∷ u)) d = insert "usage" (obj (counts (x ∷ u))) d

unfoldable pub finish_payload :
    Status → Option String → Option String → Option (Dict ℕ) → Option (Dict Json) → Dict Json
finish_payload status reason summary usage extra =
    let base : Dict Json = ("status", str (status_text status)) ∷ [] in
    let named = put_usage usage (put_text "summary" summary (put_text "reason" reason base)) in
    elim extra [ none ↦ named | some d ↦ update named d ]

abbrev pub end_type : Status → String
end_type status = if is_succeeded status then ev_completed else ev_failed

-- The arguments of `finish` but the task and the attempt.
pub record Ending : Type 0 where
  pub status : Status
  pub reason : Option String
  pub summary : Option String
  pub usage : Option (Dict ℕ)
  pub extra_payload : Option (Dict Json)

unfoldable pub finish :
    String → ℕ → Ending → String → String → Store → Result (Option Event) × Store
unfolding update_tasks rowcount insert_event finish_payload
finish tid attempt e now ts s =
    if not (is_terminal e.status)
    then (err assertion_error, s)
    else (let s' =
          update_tasks tid (runs_attempt attempt) (finished e.status e.reason e.summary now) s in
        if nat_eq (rowcount tid (runs_attempt attempt) s) 1
        then commit s (
            insert_event tid attempt (end_type e.status) ts
              (finish_payload e.status e.reason e.summary e.usage e.extra_payload) s')
        else (ok none, s'))

abbrev pub requeued : String → Task → Task
requeued now t = record t { status = queued; worker_id = none; updated_at = now }

unfoldable pub requeue : String → ℕ → String → Store → Bool × Store
unfolding update_tasks rowcount
requeue tid attempt now s = (
  nat_eq (rowcount tid (runs_attempt attempt) s) 1,
  update_tasks tid (runs_attempt attempt) (requeued now) s,
)

abbrev pub ended : Status → String → String → Task → Task
ended status reason now t = record t {
  status = status;
  failure_reason = some reason;
  updated_at = now;
}

abbrev pub end_payload : Status → String → Dict Json
end_payload status reason = ("status", str (status_text status)) ∷ ("reason", str reason) ∷ []

unfoldable pub fail_exhausted : String → ℕ → String → String → Store → Result (Option Event) × Store
unfolding update_tasks rowcount insert_event
fail_exhausted tid attempt now ts s =
    let s' = update_tasks tid (runs_attempt attempt) (ended failed r_retries now) s in
    if nat_eq (rowcount tid (runs_attempt attempt) s) 1
    then commit s (insert_event tid attempt ev_failed ts (end_payload failed r_retries) s')
    else (ok none, s')

-- cancellation --------------------------------------------------------------------------------

abbrev pub waits : Task → Bool
waits t = is_queued t.status

unfoldable pub cancel_queued : String → String → String → Store → Result (Option Event) × Store
unfolding update_tasks rowcount insert_event
cancel_queued tid now ts s =
    let s' = update_tasks tid waits (ended cancelled r_cancelled now) s in
    if nat_eq (rowcount tid waits s) 1
    then commit s (insert_event tid 0 ev_failed ts (end_payload cancelled r_cancelled) s')
    else (ok none, s')

-- ===== src/Store/Queries.antt =====
-- core/store.py: the cancel flag, the usage and the queries of `TaskStore`.
use cloudagentperform.Base.{
  ℕ, ◌+◌, String, Bool, true, false, not, none, some, List, [], ◌∷◌, ◌&&◌, ◌==◌, ltb, nat_eq, keep,
  Dict, lookup, insert,
}
use cloudagentperform.Models.{Status, is_terminal, Task, Event}
use cloudagentperform.Store.Table.{
  Store, type_error, Result, ok, err, update_tasks, rowcount, order_by_id,
}
use cloudagentperform.Store.Tasks.{get}

abbrev pub is_live : Task → Bool
is_live t = not (is_terminal t.status)

abbrev pub flagged : String → Task → Task
flagged now t = record t { cancel_requested = true; updated_at = now }

unfoldable pub request_cancel : String → String → Store → Bool × Store
unfolding update_tasks rowcount
request_cancel tid now s =
    (nat_eq (rowcount tid is_live s) 1, update_tasks tid is_live (flagged now) s)

unfoldable pub cancel_requested : String → Store → Bool
unfolding get
cancel_requested tid s = elim (get tid s) [ none ↦ false | some t ↦ t.cancel_requested ]

-- usage and queries ---------------------------------------------------------------------------

-- `total.get(k, 0)`
unfoldable pub tally : String → Dict ℕ → ℕ
unfolding lookup
tally k d = elim (lookup k d) [ none ↦ 0 | some n ↦ n ]

unfoldable pub add_counts : Dict ℕ → Dict ℕ → Dict ℕ
unfolding insert tally
add_counts total [] = total
add_counts total ((k, v) ∷ u) = add_counts (insert k (tally k total + v) total) u

abbrev pub any_row : Task → Bool
any_row t = true

unfoldable pub add_usage : String → Dict ℕ → String → Store → Result (Unit {0}) × Store
unfolding get update_tasks add_counts
add_usage tid usage now s = elim (get tid s) [
  | none ↦ (err type_error, s)
  | some row ↦ (
    ok tt,
    update_tasks tid any_row
        (λ t. record t { usage = add_counts row.usage usage; updated_at = now }) s,
  )
]

unfoldable pub events_after : String → ℕ → Store → List Event
unfolding order_by_id
events_after tid after s =
    order_by_id (keep (λ (e : Event). e.task_id == tid && ltb after e.id) s.events)

-- `WHERE status=?`; each caller asks for one of two statuses, by its test.
unfoldable pub tasks_with_status : (Status → Bool) → Store → List Task
tasks_with_status is s = keep (λ (t : Task). is t.status) s.tasks

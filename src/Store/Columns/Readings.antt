-- ===== src/Store/Columns/Readings.antt =====
-- What the columns of core/store.py can hold, and what is read from them.
use mathlib.Core.Bool.{Bool-set}
use mathlib.Core.Equiv.{◌≃◌, iso_to_equiv}
use mathlib.Core.HLevel.{Σ_prop_path}
use cloudagentperform.Base.{
  ℕ, ◌≡◌, refl, String, Bool, true, false, not, Option, none, some, [], eq_iff, if◌then◌else◌,
  nat_eq, arith,
}
use cloudagentperform.Models.{
  Status, queued, running, succeeded, failed, cancelled, status_text, Task, Event,
}
use cloudagentperform.Store.{new_row}
use cloudagentperform.Store.Columns.{
  admitted, JsonText, status_of, task_of, event_of, inserted, row_of, event_row,
}

-- The texts that the column `status` admits.
abbrev pub StatusText : Type 0
StatusText = (s : String) × (admitted s ≡ true)

status_text-admitted : (x : Status) → admitted (status_text x) ≡ true
unfolding admitted
status_text-admitted queued = refl
status_text-admitted running = refl
status_text-admitted succeeded = refl
status_text-admitted failed = refl
status_text-admitted cancelled = refl

-- Each admitted text is the text of a status, the one that is read from it.
abbrev Read : String → Option Status → Type 0
Read s none = ⊥
Read s (some x) = status_text x ≡ s

status_of-Read : (s : String) → admitted s ≡ true → Read s (status_of s)
unfolding status_of admitted
status_of-Read s h = ground (
  arith,
  eq_iff s "queued",
  eq_iff s "running",
  eq_iff s "succeeded",
  eq_iff s "failed",
  eq_iff s "cancelled",
  eq_iff "queued" s,
  eq_iff "running" s,
  eq_iff "succeeded" s,
  eq_iff "failed" s,
  eq_iff "cancelled" s,
)

taken : (s : String) (o : Option Status) → Read s o → Status
taken s none h = absurd h
taken s (some x) h = x

taken-text : (s : String) (o : Option Status) (h : Read s o) → status_text (taken s o h) ≡ s
unfolding taken
taken-text s none h = absurd h
taken-text s (some x) h = h

status_of-text : (x : Status) → status_of (status_text x) ≡ some x
unfolding status_of
status_of-text queued = refl
status_of-text running = refl
status_of-text succeeded = refl
status_of-text failed = refl
status_of-text cancelled = refl

taken_some :
    (s : String) (o : Option Status) (h : Read s o) (x : Status) → o ≡ some x → taken s o h ≡ x
unfolding taken
taken_some s none h x e = absurd h
taken_some s (some y) h x e = cc e

-- The column `status` holds exactly the statuses: the texts that its CHECK admits are one for each status.
Status-equiv-StatusText : Status ≃ StatusText
Status-equiv-StatusText = iso_to_equiv (record {
  fun = λ x. (status_text x, status_text-admitted x);
  inv = λ p. taken p.0 (status_of p.0) (status_of-Read p.0 p.1);
  rinv = λ p.
      Σ_prop_path (λ s. Bool-set _ _) (taken-text p.0 (status_of p.0) (status_of-Read p.0 p.1));
  linv = λ x. taken_some (status_text x) _ _ x (status_of-text x);
})

module _ (j : JsonText) where
  flag : (b : Bool) → not (nat_eq (if b then 1 else 0) 0) ≡ b
  flag true = refl
  flag false = refl

  -- If `json.loads` reads back what `json.dumps` wrote for the usage of a task and the payload of an event,
  -- and reads `{}` as the empty dictionary: the rows that are written for the task and for the event are
  -- read as that task and that event, and the row that `create_task` inserts, with the defaults of the
  -- columns that it leaves out, is read as the task that it returns.
  pub task_of-row :
      (t : Task) (e : Event) (tid now prompt : String) (key : Option String) (max : ℕ)
      → j.loads_usage (j.dumps_usage t.usage) ≡ some t.usage
      → j.loads_payload (j.dumps_payload e.payload) ≡ some e.payload
      → j.loads_usage "{}" ≡ some []
      → (task_of j (row_of j t) ≡ some t)
        × (event_of j (event_row j e) ≡ some e)
        × (task_of j (inserted tid now prompt key max) ≡ some (new_row tid now prompt key max))
  unfolding task_of event_of row_of event_row inserted
  task_of-row t e tid now prompt key max usage payload empty = (
    rw (status_of-text t.status, usage, flag t.cancel_requested) refl,
    rw payload refl,
    rw empty refl,
  )

-- ===== src/Store/History/Moves.antt =====
-- The state machine of one task (docs/ARCHITECTURE.md, section 2), and what one conditional write of
-- core/store.py means in it.
use cloudagentperform.Base.{
  ℕ, ◌+◌, ◌<◌, ◌≡◌, refl, ◌∙◌, inl, inr, String, Bool, true, false, Option, none, some, [], ◌∷◌,
  ◌&&◌, ◌==◌, if◌then◌else◌, arith, Bool-cases, eq_iff, count_if, count_if-append,
}
use cloudagentperform.Models.{queued, running, cancelled, is_terminal, ends_stream, Task, Event}
use cloudagentperform.Store.Table.{Store, select_id, update_tasks}
use cloudagentperform.Store.Rows.{hits, on_row, select_id-update_rows}
use cloudagentperform.Store.Endings.{ending, logged}

-- What a write that is no transition leaves alone.
pub record SameRun (t t' : Task) : Type 0 where
  pub id : t'.id ≡ t.id
  pub status : t'.status ≡ t.status
  pub attempt : t'.attempt ≡ t.attempt
  pub max_attempts : t'.max_attempts ≡ t.max_attempts
  pub failure_reason : t'.failure_reason ≡ t.failure_reason
  pub result_summary : t'.result_summary ≡ t.result_summary

-- An edge between two rows of one task; `n` counts the terminal events that go with it.
pub data Edge (t t' : Task) (n : ℕ) : Type 0 where
  -- a flag, a usage count, or nothing at all
  touch : SameRun t t' → n ≡ 0 → Edge t t' n
  -- queued → running, under a new attempt number
  start :
      t.status ≡ queued
      → t'.status ≡ running
      → t.attempt < t.max_attempts
      → t'.attempt ≡ t.attempt + 1
      → t'.max_attempts ≡ t.max_attempts
      → n ≡ 0
      → Edge t t' n
  -- running → queued
  give_back :
      t.status ≡ running
      → t'.status ≡ queued
      → t'.attempt ≡ t.attempt
      → t'.max_attempts ≡ t.max_attempts
      → n ≡ 0
      → Edge t t' n
  -- running → succeeded, failed or cancelled, with one event
  close :
      t.status ≡ running
      → is_terminal t'.status ≡ true
      → t'.attempt ≡ t.attempt
      → t'.max_attempts ≡ t.max_attempts
      → n ≡ 1
      → Edge t t' n
  -- queued → cancelled, with one event
  withdraw :
      t.status ≡ queued
      → t'.status ≡ cancelled
      → t'.attempt ≡ t.attempt
      → t'.max_attempts ≡ t.max_attempts
      → n ≡ 1
      → Edge t t' n

pub data Move (a b : Option Task) (n : ℕ) : Type 0 where
  absent : a ≡ none → b ≡ none → n ≡ 0 → Move a b n
  enter :
      (t : Task) → a ≡ none → b ≡ some t → t.status ≡ queued → t.attempt ≡ 0 → n ≡ 0 → Move a b n
  edge : (t t' : Task) → a ≡ some t → b ≡ some t' → t'.id ≡ t.id → Edge t t' n → Move a b n

abbrev pub ends_task : String → Event → Bool
ends_task j e = e.task_id == j && ends_stream e.type

-- The terminal events of a task.
abbrev pub ends_of : String → Store → ℕ
ends_of j s = count_if (ends_task j) s.events

pub Move-refl : (a : Option Task) → Move a a 0
Move-refl none = absent refl refl refl
Move-refl (some t) = edge t t refl refl refl (
    touch
      (record {
        id = refl;
        status = refl;
        attempt = refl;
        max_attempts = refl;
        failure_reason = refl;
        result_summary = refl;
      })
      refl)

-- What the step from `s` to `s'` does to the task `j`.
abbrev pub Moves : String → Store → Store → Type 0
Moves j s s' =
    (n : ℕ) × (ends_of j s' ≡ ends_of j s + n) × Move (select_id j s.tasks) (select_id j s'.tasks) n

pub Moves-refl : (j : String) (s : Store) → Moves j s s
Moves-refl j s = (0, omega arith, Move-refl (select_id j s.tasks))

ends_of-logged :
    (j : String) (ev : Event) (s : Store)
    → ends_stream ev.type ≡ true
    → ends_of j (logged ev s) ≡ ends_of j s + (if ev.task_id == j then 1 else 0)
ends_of-logged j ev s ends = ground (arith, count_if-append (ends_task j) s.events (ev ∷ []))

pub ends_of-quiet :
    (j : String) (ev : Event) (s : Store)
    → ends_stream ev.type ≡ false
    → ends_of j (logged ev s) ≡ ends_of j s + 0
ends_of-quiet j ev s ends = ground (arith, count_if-append (ends_task j) s.events (ev ∷ []))

module _ (tid : String) (guard : Task → Bool) (f : Task → Task)
    (same_id : (t : Task) → (f t).id ≡ t.id) where
  on_row-Move :
      (n m : ℕ) (a : Option Task)
      → ((t : Task) → guard t ≡ true → Edge t (f t) n)
      → m ≡ (if hits guard a then n else 0)
      → Move a (on_row guard f a) m
  on_row-Move n m none e h = rw h (Move-refl none)
  on_row-Move n m (some t) e h = elim (Bool-cases (guard t)) [
    | inl pass ↦ rw (h, pass) (edge t (f t) refl refl (same_id t) (e t pass))
    | inr fail ↦ rw (h, fail) (Move-refl (some t))
  ]

  update-Move :
      (n m : ℕ) (s : Store) (j : String)
      → ((t : Task) → guard t ≡ true → Edge t (f t) n)
      → m ≡ (if tid == j then (if hits guard (select_id j s.tasks) then n else 0) else 0)
      → Move (select_id j s.tasks) (select_id j (update_tasks tid guard f s).tasks) m
  unfolding update_tasks
  update-Move n m s j e h =
      rw (select_id-update_rows f same_id tid j guard s.tasks) (elim (Bool-cases (tid == j)) [
        | inl hit ↦ rw hit (on_row-Move n m (select_id j s.tasks) e (rw hit at h))
        | inr miss ↦ rw miss (rw (rw miss at h) (Move-refl (select_id j s.tasks)))
      ])

  -- A write with no event.
  pub update-Moves :
      (s : Store) (j : String)
      → ((t : Task) → guard t ≡ true → Edge t (f t) 0)
      → Moves j s (update_tasks tid guard f s)
  unfolding update_tasks
  update-Moves s j e = (0, omega arith, update-Move 0 0 s j e (ground arith))

  -- A write with the event of the task's end.
  pub ending-Moves :
      (s : Store) (j : String) (ev : Event)
      → ev.task_id ≡ tid
      → ends_stream ev.type ≡ true
      → ((t : Task) → guard t ≡ true → Edge t (f t) 1)
      → Moves j s (ending tid guard f ev s).1
  ending-Moves s j ev own ends e = elim (Bool-cases (hits guard (select_id tid s.tasks))) [
    | inl hit ↦ rw hit (
      (if tid == j then 1 else 0),
      ends_of-logged j ev (update_tasks tid guard f s) ends ∙ (unfold update_tasks in rw own),
      update-Move 1 (if tid == j then 1 else 0) s j e (ground (arith, eq_iff tid j)),
    )
    | inr miss ↦ rw miss (Moves-refl j s)
  ]

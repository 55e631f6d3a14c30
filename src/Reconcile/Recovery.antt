-- ===== src/Reconcile/Recovery.antt =====
-- What a whole pass of worker/reconcile.py achieves, from any state of Redis.
use cloudagentperform.Base.{
  ℕ, ◌≡◌, refl, ap, sym, subst, ◌∙◌, inl, inr, String, Bool, true, false, Option, none, some, List,
  [], ◌∷◌, if◌then◌else◌, ◌||◌, or_true, keep, arith, eq_iff, eq_refl, Bool-cases, Option-cases,
}
use cloudagentperform.Models.{
  Status, queued, running, succeeded, failed, cancelled, is_running, is_queued, is_terminal, Task,
}
use cloudagentperform.Store.Table.{Store, Result, ok, select_id}
use cloudagentperform.Store.Rows.{Unique}
use cloudagentperform.Store.{get, tasks_with_status}
use cloudagentperform.Redis.{Redis}
use cloudagentperform.Bus.{queued_ids, lease_token}
use cloudagentperform.Reconcile.{World, Stats, contains, repush_queued, reconcile}
use cloudagentperform.Reconcile.Rows.{repaired, repaired_row}
use cloudagentperform.Reconcile.Loops.{
  listed, Fresh, reclaim-Pass, contains-repush, store-repush, leases-repush,
}

-- The rows of one status are the rows that `get` finds with that status.
listed-keep :
    (is : Status → Bool) (j : String) (ts : List Task) {t : Task}
    → select_id j ts ≡ some t
    → is t.status ≡ true
    → listed j (keep (λ (x : Task). is x.status) ts) ≡ true
unfolding select_id
listed-keep is j [] h k = cc
listed-keep is j (x ∷ ts) {t} h k = ground (arith, listed-keep is j ts {t = t})

unlisted :
    (j : String) (ts : List Task)
    → select_id j ts ≡ none
    → listed j (keep (λ (x : Task). is_running x.status) ts) ≡ false
unfolding select_id
unlisted j [] h = refl
unlisted j (x ∷ ts) h = ground (arith, unlisted j ts)

-- The snapshot of the running rows agrees with the store that it was taken from.
Fresh-keep :
    (s : Store) (ts : List Task)
    → Unique ts
    → ((j : String) (t : Task) → select_id j ts ≡ some t → get j s ≡ some t)
    → Fresh s (keep (λ (t : Task). is_running t.status) ts)
unfolding select_id
Fresh-keep s [] u h = tt
Fresh-keep s (x ∷ ts) u h =
    let rest = Fresh-keep s ts u.1 (λ j t e. h j t (ground (arith, eq_iff x.id j))) in
    elim (Bool-cases (is_running x.status)) [
      | inl runs ↦ rw (runs, Fresh) (h x.id x (rw (eq_refl x.id)), runs, unlisted x.id ts u.0, rest)
      | inr other ↦ rw (other, Fresh) rest
    ]

Fresh-tasks_with_status : (s : Store) → Unique s.tasks → Fresh s (tasks_with_status is_running s)
unfolding get tasks_with_status
Fresh-tasks_with_status s u = Fresh-keep s s.tasks u (λ j t e. e)

-- A row that the snapshot lacks needs no repair.
repaired_unlisted :
    (lease : Option String) (now j : String) (s : Store)
    → listed j (tasks_with_status is_running s) ≡ false
    → repaired_row lease now (get j s) ≡ get j s
unfolding get tasks_with_status
repaired_unlisted lease now j s h = elim (Option-cases (select_id j s.tasks)) [
  | inl e ↦ rw e
  | inr (t, e) ↦ rw e (elim (Bool-cases (is_running t.status)) [
    | inl runs ↦ cc (h, listed-keep is_running j s.tasks {t = t} e runs)
    | inr other ↦ ap some (not_running lease now t other)
  ])
]
  where
    not_running :
        (lease : Option String) (now : String) (t : Task)
        → is_running t.status ≡ false
        → repaired lease now t ≡ t
    not_running none now t h = rw h
    not_running (some token) now t h = refl

not_running_after :
    (now : String) (o : Option Task) (t : Task)
    → some t ≡ repaired_row none now o
    → is_running t.status ≡ false
not_running_after now none t h = cc
not_running_after now (some x) t h = ground arith

neither : (x : Status) → is_running x ≡ false → is_queued x ≡ false → is_terminal x ≡ true
neither queued h k = cc
neither running h k = cc
neither succeeded h k = refl
neither failed h k = refl
neither cancelled h k = refl

module _ (r : Redis) (clock : String → ℕ → String) where
  open r use {State}

  -- What a pass of `reconcile` is to leave behind:
  --   - for each task the row that its lease calls for: a running row without a lease is queued
  --     again if it has an attempt left, and failed as exhausted otherwise; every other row stays;
  --   - a queue that lists each queued task, and the leases that it found.
  pub record Recovered (w w' : World State) : Type 0 where
    pub rows :
        (j : String)
        → get j w'.store ≡ repaired_row (lease_token r j w.redis) (clock j 0) (get j w.store)
    pub leases : (j : String) → lease_token r j w'.redis ≡ lease_token r j w.redis
    pub queue :
        (j : String) (t : Task)
        → get j w'.store ≡ some t
        → is_queued t.status ≡ true
        → contains j (queued_ids r w'.redis) ≡ true

  repush_queued-queue :
      (w : World State) (st : Stats) (j : String) (t : Task)
      → get j w.store ≡ some t
      → is_queued t.status ≡ true
      → contains j (queued_ids r (repush_queued r clock w st).1.redis) ≡ true
  unfolding repush_queued get tasks_with_status
  repush_queued-queue w st j t e q =
      contains-repush r clock (queued_ids r w.redis) (tasks_with_status is_queued w.store) w st j
        (inr (listed-keep is_queued j w.store.tasks {t = t} e q)) (λ i m. m)

  repush_queued-leases :
      (w : World State) (st : Stats) (j : String)
      → lease_token r j (repush_queued r clock w st).1.redis ≡ lease_token r j w.redis
  unfolding repush_queued
  repush_queued-leases w st j = leases-repush r clock _ _ w st j

  all_rows :
      (w : World State) (j : String)
      → (if listed j (tasks_with_status is_running w.store)
          then repaired_row (lease_token r j w.redis) (clock j 0) (get j w.store)
          else get j w.store)
        ≡ repaired_row (lease_token r j w.redis) (clock j 0) (get j w.store)
  all_rows w j = elim (Bool-cases (listed j (tasks_with_status is_running w.store))) [
    | inl there ↦ rw there
    | inr absent ↦ rw absent (sym (repaired_unlisted _ _ j w.store absent))
  ]

  repush_queued-store :
      (w : World State) (st : Stats) → (repush_queued r clock w st).1.store ≡ w.store
  unfolding repush_queued
  repush_queued-store w st = store-repush r clock _ _ w st

  -- From distinct task ids and any state of Redis, a pass completes and has repaired everything: the
  -- rows without a lease that were running are queued again if an attempt is left and have failed if
  -- none is, all other rows and all leases are unchanged, and each queued task is in the queue.
  pub reconcile-Recovered :
      (w : World State)
      → Unique w.store.tasks
      → (st : Stats) × (w' : World State) × (reconcile r clock w ≡ (ok st, w')) × Recovered w w'
  reconcile-Recovered w u =
      let snapshot = tasks_with_status is_running w.store in
      let (st₁, w₁, e, pass) =
        reclaim-Pass r clock snapshot w (record { reclaimed = 0; exhausted = 0; repushed = 0 }) u
          (Fresh-tasks_with_status w.store u) in
      let end = repush_queued r clock w₁ st₁ in
      (
        end.0,
        end.1,
        unfold reconcile in rw e,
        record {
          rows = λ j. ap (get j) (repush_queued-store w₁ st₁) ∙ pass.rows j ∙ all_rows w j;
          leases = λ j. repush_queued-leases w₁ st₁ j ∙ pass.leases j;
          queue =
              λ j t e' q. repush_queued-queue w₁ st₁ j t (rw (repush_queued-store w₁ st₁) at e') q;
        },
      )

  ended_or_listed :
      (t : Task) (b : Bool)
      → is_running t.status ≡ false
      → (is_queued t.status ≡ true → b ≡ true)
      → (is_terminal t.status || b) ≡ true
  ended_or_listed t b idle h = elim (Bool-cases (is_queued t.status)) [
    | inl waits ↦ rw (h waits) (or_true (is_terminal t.status))
    | inr other ↦ rw (neither t.status idle other)
  ]

  -- Redis is a cache that can be rebuilt: with distinct task ids, after a pass over a Redis that has
  -- lost every lease, each
  -- task is in the queue, or it has ended, and none is running.
  pub reconcile_after_wipe :
      (w : World State) (j : String) {t : Task}
      → Unique w.store.tasks
      → ((i : String) → lease_token r i w.redis ≡ none)
      → get j (reconcile r clock w).1.store ≡ some t
      → (is_running t.status ≡ false)
        × ((is_terminal t.status || contains j (queued_ids r (reconcile r clock w).1.redis)) ≡ true)
  reconcile_after_wipe w j {t} u gone h =
      let (st, w', e, rec) = reconcile-Recovered w u in
      subst
        (λ (p : Result Stats × World State).
          get j p.1.store ≡ some t
          → (is_running t.status ≡ false)
            × ((is_terminal t.status || contains j (queued_ids r p.1.redis)) ≡ true))
        (sym e)
        (λ h'.
          let idle =
            not_running_after (clock j 0) (get j w.store) t (
              sym h'
              ∙ rec.rows j
              ∙ ap (λ l. repaired_row l (clock j 0) (get j w.store)) (gone j)) in
          (idle, ended_or_listed t _ idle (rec.queue j t h')))
        h

-- ===== src/Reconcile.antt =====
-- worker/reconcile.py: the repair pass over the store and Redis. One pass runs to its end with no
-- other client in between; `clock tid n` is the `n`-th time that is read for the task `tid`.
pub mod Rows
pub mod Loops
pub mod Recovery
pub mod Order
use cloudagentperform.Base.{
  ℕ, ◌+◌, String, Bool, true, false, Option, none, some, List, [], ◌∷◌, ◌==◌, if◌then◌else◌, ltb,
  any,
}
use cloudagentperform.Models.{is_queued, is_running, Task, Event}
use cloudagentperform.Store.Table.{Store, StoreError, Result, ok, err}
use cloudagentperform.Store.{requeue, fail_exhausted, tasks_with_status}
use cloudagentperform.Redis.{Redis}
use cloudagentperform.Bus.{enqueue, queued_ids, lease_token, publish_event}

-- SQLite and Redis, as a worker reaches them.
pub record World (R : Type 0) : Type 0 where
  pub store : Store
  pub redis : R

pub record Stats : Type 0 where
  pub reclaimed : ℕ
  pub exhausted : ℕ
  pub repushed : ℕ

-- `t.id in in_redis`
abbrev pub contains : String → List String → Bool
contains tid l = any (λ x. x == tid) l

module _ (r : Redis) (clock : String → ℕ → String) where
  open r use {State}

  unfoldable pub give_back : Task → World State → Stats → Result Stats × World State
  give_back t w st =
      let (done, s') = requeue t.id t.attempt (clock t.id 0) w.store in
      if done
      then (
        ok (record st { reclaimed = st.reclaimed + 1 }),
        record { store = s'; redis = enqueue r t.id w.redis },
      )
      else (ok st, record w { store = s' })

  abbrev pub announce :
      Result (Option Event) × Store → World State → Stats → Result Stats × World State
  announce (ok (some ev), s') w st = (
    ok (record st { exhausted = st.exhausted + 1 }),
    record { store = s'; redis = publish_event r ev w.redis },
  )
  announce (ok none, s') w st = (ok st, record w { store = s' })
  announce (err e, s') w st = (err e, record w { store = s' })

  unfoldable pub exhaust : Task → World State → Stats → Result Stats × World State
  exhaust t w st =
      announce (fail_exhausted t.id t.attempt (clock t.id 0) (clock t.id 1) w.store) w st

  -- The body of the first loop.
  unfoldable pub reclaim_one : Task → World State → Stats → Result Stats × World State
  reclaim_one t w st = elim (lease_token r t.id w.redis) [
    | some token ↦ (ok st, w)
    | none ↦ if ltb t.attempt t.max_attempts then give_back t w st else exhaust t w st
  ]

  -- An exception ends the pass; what was written before it stays.
  abbrev pub continue :
      Result Stats × World State
      → (World State → Stats → Result Stats × World State)
      → Result Stats × World State
  continue (ok st, w) rest = rest w st
  continue (err e, w) rest = (err e, w)

  unfoldable pub reclaim : List Task → World State → Stats → Result Stats × World State
  reclaim [] w st = (ok st, w)
  reclaim (t ∷ ts) w st = continue (reclaim_one t w st) (reclaim ts)

  -- The second loop: `in_redis` is read once, before it.
  unfoldable pub repush : List String → List Task → World State → Stats → Stats × World State
  repush in_redis [] w st = (st, w)
  repush in_redis (t ∷ ts) w st =
      let pushed = record w { redis = enqueue r t.id w.redis } in
      let counted = record st { repushed = st.repushed + 1 } in
      elim (contains t.id in_redis) [
        | true ↦ repush in_redis ts w st
        | false ↦ repush in_redis ts pushed counted
      ]

  unfoldable pub repush_queued : World State → Stats → Stats × World State
  repush_queued w st = repush (queued_ids r w.redis) (tasks_with_status is_queued w.store) w st

  unfoldable pub reconcile : World State → Result Stats × World State
  reconcile w =
      let none_yet : Stats = record { reclaimed = 0; exhausted = 0; repushed = 0 } in
      continue (reclaim (tasks_with_status is_running w.store) w none_yet)
        (λ w' st. let (st', w'') = repush_queued w' st in (ok st', w''))

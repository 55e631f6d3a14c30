-- ===== src/Poll.antt =====
-- worker/main.py, `poll_once`: one turn of a worker's main loop. What follows a claim (clearing the
-- containers of an earlier attempt, making the LLM provider, running the attempt) is the parameter
-- `attempt`, with its exceptions; `time.sleep` has no effect on the state.
pub mod Claims
use cloudagentperform.Base.{
  ℕ, String, Bool, true, false, Option, none, some, List, [], ◌∷◌, if◌then◌else◌, leb,
}
use cloudagentperform.Models.{Task}
use cloudagentperform.Store.Table.{Store, Result, ok, err}
use cloudagentperform.Store.{claim}
use cloudagentperform.Redis.{Redis}
use cloudagentperform.Bus.{dequeue, acquire_lease, release_lease, active_leases}
use cloudagentperform.Reconcile.{World, reconcile}

-- The fields of core/config.py that the loop reads.
pub record PollConfig : Type 0 where
  pub worker_id : String
  pub max_concurrency : ℕ
  pub lease_ttl : ℕ

module _ (r : Redis) (clock : String → ℕ → String) where
  open r use {State}

  -- From the lease on: `none` stands for each `return False`.
  unfoldable pub take_task : PollConfig → String → String → World State → Option Task × World State
  take_task cfg token tid w =
      let (granted, redis') = acquire_lease r tid token cfg.lease_ttl w.redis in
      let (found, store') = claim tid cfg.worker_id (clock tid 2) w.store in
      if granted
      then elim found [
        | some t ↦ (some t, record { store = store'; redis = redis' })
        | none ↦ (none, record { store = store'; redis = release_lease r tid token redis' })
      ]
      else (none, record w { redis = redis' })

  unfoldable pub next_task : PollConfig → String → World State → Option Task × World State
  next_task cfg token w =
      let (item, redis') = dequeue r w.redis in
      let w' = record w { redis = redis' } in
      if leb cfg.max_concurrency (active_leases r w.redis)
      then (none, w)
      else elim item [ none ↦ (none, w') | some tid ↦ take_task cfg token tid w' ]

  unfoldable pub poll_once :
      PollConfig
      → String
      → (Task → World State → Result (Unit {0}) × World State)
      → World State
      → Result Bool × World State
  poll_once cfg token attempt w =
      let (res, w₁) = reconcile r clock w in
      let (found, w₂) = next_task cfg token w₁ in
      elim res [
        | err e ↦ (err e, w₁)
        | ok st ↦ elim found [
          | none ↦ (ok false, w₂)
          | some t ↦
              let (done, w₃) = attempt t w₂ in
              elim done [ ok u ↦ (ok true, w₃) | err e ↦ (err e, w₃) ]
        ]
      ]

  -- The loop of `main`, over the turns that it comes to: each has a token and an attempt. An exception of a
  -- turn is passed over; `SystemExit`, which would end the process, is not one of the model's exceptions.
  unfoldable pub work :
      PollConfig
      → List (String × (Task → World State → Result (Unit {0}) × World State))
      → World State
      → World State
  unfolding poll_once
  work cfg [] w = w
  work cfg ((token, attempt) ∷ turns) w = work cfg turns (poll_once cfg token attempt w).1

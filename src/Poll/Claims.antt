-- ===== src/Poll/Claims.antt =====
-- What a worker of worker/main.py holds when it starts an attempt, and what it leaves behind when it
-- does not.
use cloudagentperform.Base.{
  ℕ, ◌≡◌, ◌<◌, refl, sym, ◌∙◌, ◌⊎◌, inl, inr, String, none, some, arith, Option-cases, eq_refl,
  List, All, length,
}
use cloudagentperform.Models.{running, Task}
use cloudagentperform.Store.Rows.{Unique}
use cloudagentperform.Store.{get, claim}
use cloudagentperform.Store.Claim.{claim_attempt, claim_running, claim_failed}
use cloudagentperform.Redis.{Redis}
use cloudagentperform.Bus.{release_lease, lease_token}
use cloudagentperform.Bus.Leases.{acquire_lease_lem, release_lease_lem}
use cloudagentperform.Bus.Slots.{Distinct, Leased, length-active_leases}
use cloudagentperform.Reconcile.{World}
use cloudagentperform.Poll.{PollConfig, take_task, next_task}

module _ (r : Redis) (clock : String → ℕ → String) (cfg : PollConfig) (token : String) where
  open r use {State}

  -- `w'` is what a worker may start the attempt `t` in.
  pub record Holds (tid : String) (t : Task) (w w' : World State) : Type 0 where
    pub row : get tid w'.store ≡ some t
    pub status : t.status ≡ running
    pub lease : lease_token r tid w'.redis ≡ some token
    pub was_free : lease_token r tid w.redis ≡ none

  given_up :
      (tid : String) (s : State)
      → lease_token r tid s ≡ some token
      → lease_token r tid (release_lease r tid token s) ≡ none
  given_up tid s held =
      release_lease_lem r tid token tid s ∙ (rw (held, eq_refl token, eq_refl tid))

  -- With distinct ids, a task is handed out only if its lease was free; the worker then holds the lease,
  -- and the row is the one returned, and running. Otherwise the store is as it was, and so is the
  -- lease.
  pub take_task_lem :
      (tid : String) (w : World State)
      → Unique w.store.tasks
      → ((t : Task) × ((take_task r clock cfg token tid w).0 ≡ some t)
          × Holds tid t w (take_task r clock cfg token tid w).1)
        ⊎ (((take_task r clock cfg token tid w).0 ≡ none)
            × ((take_task r clock cfg token tid w).1.store ≡ w.store)
            × (lease_token r tid (take_task r clock cfg token tid w).1.redis
                ≡ lease_token r tid w.redis))
  unfolding take_task
  take_task_lem tid w u = elim (acquire_lease_lem r tid token cfg.lease_ttl w.redis) [
    | inl (free, granted, held) ↦
        elim (Option-cases (claim tid cfg.worker_id (clock tid 2) w.store).0) [
          | inl failed ↦
              rw (granted, failed, take_task)
                (inr (
                  refl,
                  claim_failed tid cfg.worker_id (clock tid 2) w.store u failed,
                  given_up tid _ held ∙ sym free,
                ))
          | inr (t, found) ↦
              rw (granted, found, take_task)
                (inl (
                  t,
                  refl,
                  record {
                    row =
                        (claim_attempt tid cfg.worker_id (clock tid 2) w.store {t' = t} u found).3;
                    status = claim_running tid cfg.worker_id (clock tid 2) w.store {t = t} u found;
                    lease = held;
                    was_free = free;
                  },
                ))
        ]
    | inr (_, refused) ↦ rw (refused, take_task) (inr (refl, refl, refl))
  ]

  -- One turn takes a task only while fewer tasks have a lease than the limit: if it hands out a task,
  -- distinct tasks that have a lease, however many are listed, are fewer than `max_concurrency`.
  pub next_task_limit :
      (ids : List String) (w : World State) {t : Task}
      → Distinct ids
      → All (Leased r w.redis) ids
      → (next_task r clock cfg token w).0 ≡ some t
      → length ids < cfg.max_concurrency
  unfolding next_task
  next_task_limit ids w {t} d held h = ground (arith, length-active_leases r w.redis ids d held)

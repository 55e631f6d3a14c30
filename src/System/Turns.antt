-- ===== src/System/Turns.antt =====
-- A turn of a worker's loop (worker/main.py, worker/reconcile.py) acts on the database by transactions.
use cloudagentperform.Base.{
  ◌≡◌, refl, sym, subst, inl, inr, Bool, true, false, ℕ, ltb, String, Option, none, some, List, [],
  ◌∷◌, Bool-cases, Option-cases, All, leb,
}
use cloudagentperform.Models.{Task, Event, is_running}
use cloudagentperform.Store.Table.{Store, Result, ok, err}
use cloudagentperform.Store.{claim, requeue, fail_exhausted, tasks_with_status}
use cloudagentperform.Store.History.{claims, requeues, fails, exec}
use cloudagentperform.Redis.{Redis}
use cloudagentperform.Bus.{lease_token, acquire_lease, dequeue, active_leases}
use cloudagentperform.Reconcile.{
  World, Stats, give_back, announce, exhaust, reclaim_one, continue, reclaim, repush, repush_queued,
  contains, reconcile,
}
use cloudagentperform.Poll.{PollConfig, take_task, next_task, poll_once, work}
use cloudagentperform.System.Follows.{Follows, stays, once, after}

module _ (r : Redis) (clock : String → ℕ → String) where
  open r use {State}

  give_back-Follows :
      (t : Task) (w : World State) (st : Stats) → Follows w.store (give_back r clock t w st).1.store
  unfolding give_back exec
  give_back-Follows t w st = elim (Bool-cases (requeue t.id t.attempt (clock t.id 0) w.store).0) [
    | inl e ↦ rw (e, give_back) (once (requeues t.id t.attempt (clock t.id 0)) w.store)
    | inr e ↦ rw (e, give_back) (once (requeues t.id t.attempt (clock t.id 0)) w.store)
  ]

  announce-store :
      (p : Result (Option Event) × Store) (w : World State) (st : Stats)
      → (announce r clock p w st).1.store ≡ p.1
  announce-store (ok (some ev), s') w st = refl
  announce-store (ok none, s') w st = refl
  announce-store (err e, s') w st = refl

  exhaust-Follows :
      (t : Task) (w : World State) (st : Stats) → Follows w.store (exhaust r clock t w st).1.store
  unfolding exhaust exec
  exhaust-Follows t w st =
      subst (Follows w.store)
        (sym (
          announce-store (fail_exhausted t.id t.attempt (clock t.id 0) (clock t.id 1) w.store) w
            st))
        (once (fails t.id t.attempt (clock t.id 0) (clock t.id 1)) w.store)

  reclaim_one-Follows :
      (t : Task) (w : World State) (st : Stats)
      → Follows w.store (reclaim_one r clock t w st).1.store
  unfolding reclaim_one
  reclaim_one-Follows t w st = elim (Option-cases (lease_token r t.id w.redis)) [
    | inr (token, e) ↦ rw (e, reclaim_one) (stays w.store)
    | inl e ↦
        rw (e, reclaim_one)
          (elim (Bool-cases (ltb t.attempt t.max_attempts)) [
            | inl left ↦ rw left (give_back-Follows t w st)
            | inr gone ↦ rw gone (exhaust-Follows t w st)
          ])
  ]

  continue-Follows :
      (s : Store) (p : Result Stats × World State)
      (rest : World State → Stats → Result Stats × World State)
      → Follows s p.1.store
      → ((w : World State) (st : Stats) → Follows w.store (rest w st).1.store)
      → Follows s (continue r clock p rest).1.store
  continue-Follows s (ok st, w) rest h k = after s h (k w st)
  continue-Follows s (err e, w) rest h k = h

  reclaim-Follows :
      (ts : List Task) (w : World State) (st : Stats)
      → Follows w.store (reclaim r clock ts w st).1.store
  unfolding reclaim
  reclaim-Follows [] w st = stays w.store
  reclaim-Follows (t ∷ ts) w st =
      continue-Follows w.store (reclaim_one r clock t w st) (reclaim r clock ts)
        (reclaim_one-Follows t w st) (reclaim-Follows ts)

  repush-store :
      (ids : List String) (ts : List Task) (w : World State) (st : Stats)
      → (repush r clock ids ts w st).1.store ≡ w.store
  unfolding repush
  repush-store ids [] w st = refl
  repush-store ids (t ∷ ts) w st = elim (Bool-cases (contains t.id ids)) [
    | inl e ↦ rw (e, repush) (repush-store ids ts w st)
    | inr e ↦ rw (e, repush) (repush-store ids ts _ _)
  ]

  pub reconcile-Follows : (w : World State) → Follows w.store (reconcile r clock w).1.store
  unfolding reconcile repush_queued
  reconcile-Follows w =
      continue-Follows w.store (reclaim r clock (tasks_with_status is_running w.store) w _) _
        (reclaim-Follows (tasks_with_status is_running w.store) w _)
        (λ w' st. subst (Follows w'.store) (sym (repush-store _ _ w' st)) (stays w'.store))

  take_task-Follows :
      (cfg : PollConfig) (token tid : String) (w : World State)
      → Follows w.store (take_task r clock cfg token tid w).1.store
  unfolding take_task exec
  take_task-Follows cfg token tid w =
      elim (Bool-cases (acquire_lease r tid token cfg.lease_ttl w.redis).0) [
        | inr no_lease ↦ rw (no_lease, take_task) (stays w.store)
        | inl granted ↦
            rw (granted, take_task)
              (elim (Option-cases (claim tid cfg.worker_id (clock tid 2) w.store).0) [
                | inl e ↦ rw e (once (claims tid cfg.worker_id (clock tid 2)) w.store)
                | inr (t, e) ↦ rw e (once (claims tid cfg.worker_id (clock tid 2)) w.store)
              ])
      ]

  pub next_task-Follows :
      (cfg : PollConfig) (token : String) (w : World State)
      → Follows w.store (next_task r clock cfg token w).1.store
  unfolding next_task
  next_task-Follows cfg token w =
      elim (Bool-cases (leb cfg.max_concurrency (active_leases r w.redis))) [
        | inl full ↦ rw (full, next_task) (stays w.store)
        | inr free ↦
            rw (free, next_task)
              (elim (Option-cases (dequeue r w.redis).0) [
                | inl e ↦ rw e (stays w.store)
                | inr (tid, e) ↦ rw e (take_task-Follows cfg token tid _)
              ])
      ]

  -- An attempt that writes by transactions, with whatever other processes do meanwhile.
  abbrev pub Writes : (Task → World State → Result (Unit {0}) × World State) → Type 0
  Writes attempt = (t : Task) (w : World State) → Follows w.store (attempt t w).1.store

  attempted :
      (s : Store) (p : Result (Unit {0}) × World State)
      → Follows s p.1.store
      → let q : Result Bool × World State = elim p.0 [
        | ok u ↦ (ok true, p.1)
        | err e ↦ (err e, p.1)
      ] in
        Follows s q.1.store
  attempted s (ok u, w) h = h
  attempted s (err e, w) h = h

  polled :
      (s : Store) (cfg : PollConfig) (token : String)
      (attempt : Task → World State → Result (Unit {0}) × World State)
      (p : Result Stats × World State)
      → Follows s p.1.store
      → Writes attempt
      → let found = next_task r clock cfg token p.1 in
        let q : Result Bool × World State = elim p.0 [
          | err e ↦ (err e, p.1)
          | ok st ↦ elim found.0 [
            | none ↦ (ok false, found.1)
            | some t ↦ elim (attempt t found.1).0 [
              | ok u ↦ (ok true, (attempt t found.1).1)
              | err e ↦ (err e, (attempt t found.1).1)
            ]
          ]
        ] in
        Follows s q.1.store
  polled s cfg token attempt (err e, w₁) h k = h
  polled s cfg token attempt (ok st, w₁) h k =
      let taken = after s h (next_task-Follows cfg token w₁) in
      elim (Option-cases (next_task r clock cfg token w₁).0) [
        | inl e ↦ rw e taken
        | inr (t, e) ↦ rw e (
            attempted s (attempt t (next_task r clock cfg token w₁).1)
              (after s taken (k t (next_task r clock cfg token w₁).1)))
      ]

  pub poll_once-Follows :
      (cfg : PollConfig) (token : String)
      (attempt : Task → World State → Result (Unit {0}) × World State) (w : World State)
      → Writes attempt
      → Follows w.store (poll_once r clock cfg token attempt w).1.store
  unfolding poll_once
  poll_once-Follows cfg token attempt w k =
      polled w.store cfg token attempt (reconcile r clock w) (reconcile-Follows w) k

  -- A worker's whole life.
  pub work-Follows :
      (cfg : PollConfig)
      (turns : List (String × (Task → World State → Result (Unit {0}) × World State)))
      (w : World State)
      → All (λ turn. Writes turn.1) turns
      → Follows w.store (work r clock cfg turns w).store
  unfolding work
  work-Follows cfg [] w h = stays w.store
  work-Follows cfg ((token, attempt) ∷ turns) w h =
      after w.store (poll_once-Follows cfg token attempt w h.0)
        (work-Follows cfg turns (poll_once r clock cfg token attempt w).1 h.1)

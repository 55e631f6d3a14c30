-- ===== src/Reconcile/Order.antt =====
-- The repair pass of worker/reconcile.py adds to the queue behind what is there: the id that waits longest
-- keeps its place.
use cloudagentperform.Base.{
  ℕ, ◌≡◌, ap, ◌∙◌, inl, inr, String, Option, none, some, List, [], ◌∷◌, ◌++◌, ltb, Bool-cases,
  Option-cases,
}
use cloudagentperform.Models.{is_queued, is_running, Task, Event}
use cloudagentperform.Store.Table.{Store, Result, ok, err}
use cloudagentperform.Store.{requeue, tasks_with_status}
use cloudagentperform.Redis.{Redis}
use cloudagentperform.Bus.{queue_key, enqueue, queued_ids, lease_token, publish_event}
use cloudagentperform.Reconcile.{
  World, Stats, contains, give_back, announce, exhaust, reclaim_one, continue, reclaim, repush,
  repush_queued, reconcile,
}

module _ (r : Redis) (clock : String → ℕ → String) (tid : String) where
  open r use {State}

  -- The id is the next one that BRPOP takes.
  abbrev pub IsNext : State → Type 0
  IsNext s = (l : List String) × (queued_ids r s ≡ l ++ tid ∷ [])

  enqueue-IsNext : (j : String) (s : State) → IsNext s → IsNext (enqueue r j s)
  unfolding enqueue queued_ids
  enqueue-IsNext j s (l, h) = (j ∷ l, r.lrange-lpush queue_key j s ∙ ap (λ q. j ∷ q) h)

  publish-IsNext : (ev : Event) (s : State) → IsNext s → IsNext (publish_event r ev s)
  unfolding publish_event queued_ids
  publish-IsNext ev s (l, h) = (l, r.lrange-publish _ _ ev s ∙ h)

  give_back-IsNext :
      (t : Task) (w : World State) (st : Stats)
      → IsNext w.redis
      → IsNext (give_back r clock t w st).1.redis
  unfolding give_back queued_ids
  give_back-IsNext t w st h = elim (Bool-cases (requeue t.id t.attempt (clock t.id 0) w.store).0) [
    | inl done ↦ rw (done, give_back) (enqueue-IsNext t.id w.redis h)
    | inr not_done ↦ rw (not_done, give_back) h
  ]

  announce-IsNext :
      (res : Result (Option Event) × Store) (w : World State) (st : Stats)
      → IsNext w.redis
      → IsNext (announce r clock res w st).1.redis
  announce-IsNext (ok (some ev), s') w st h = publish-IsNext ev w.redis h
  announce-IsNext (ok none, s') w st h = h
  announce-IsNext (err e, s') w st h = h

  reclaim_one-IsNext :
      (t : Task) (w : World State) (st : Stats)
      → IsNext w.redis
      → IsNext (reclaim_one r clock t w st).1.redis
  unfolding exhaust reclaim_one queued_ids
  reclaim_one-IsNext t w st h = elim (Option-cases (lease_token r t.id w.redis)) [
    | inr (token, e) ↦ rw (e, reclaim_one) h
    | inl e ↦ elim (Bool-cases (ltb t.attempt t.max_attempts)) [
      | inl left ↦ rw (e, left, reclaim_one) (give_back-IsNext t w st h)
      | inr used ↦ rw (e, used, reclaim_one) (announce-IsNext _ w st h)
    ]
  ]

  continue-IsNext :
      (p : Result Stats × World State) (rest : World State → Stats → Result Stats × World State)
      → IsNext p.1.redis
      → ((w : World State) (st : Stats) → IsNext w.redis → IsNext (rest w st).1.redis)
      → IsNext (continue r clock p rest).1.redis
  continue-IsNext (ok st, w) rest h k = k w st h
  continue-IsNext (err e, w) rest h k = h

  reclaim-IsNext :
      (ts : List Task) (w : World State) (st : Stats)
      → IsNext w.redis
      → IsNext (reclaim r clock ts w st).1.redis
  unfolding reclaim
  reclaim-IsNext [] w st h = h
  reclaim-IsNext (t ∷ ts) w st h =
      continue-IsNext (reclaim_one r clock t w st) (reclaim r clock ts)
        (reclaim_one-IsNext t w st h) (reclaim-IsNext ts)

  repush-IsNext :
      (in_redis : List String) (ts : List Task) (w : World State) (st : Stats)
      → IsNext w.redis
      → IsNext (repush r clock in_redis ts w st).1.redis
  unfolding repush
  repush-IsNext in_redis [] w st h = h
  repush-IsNext in_redis (t ∷ ts) w st h = elim (Bool-cases (contains t.id in_redis)) [
    | inl old ↦ rw (old, repush) (repush-IsNext in_redis ts w st h)
    | inr new ↦ rw (new, repush) (repush-IsNext in_redis ts _ _ (enqueue-IsNext t.id w.redis h))
  ]

  pub reconcile-IsNext : (w : World State) → IsNext w.redis → IsNext (reconcile r clock w).1.redis
  unfolding reconcile repush_queued
  reconcile-IsNext w h =
      let none_yet : Stats = record { reclaimed = 0; exhausted = 0; repushed = 0 } in
      continue-IsNext (reclaim r clock (tasks_with_status is_running w.store) w none_yet)
        (λ w' st. let (st', w'') = repush_queued r clock w' st in (ok st', w''))
        (reclaim-IsNext (tasks_with_status is_running w.store) w none_yet h)
        (λ w' st h'.
          repush-IsNext (queued_ids r w'.redis) (tasks_with_status is_queued w'.store) w' st h')

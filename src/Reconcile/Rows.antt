-- ===== src/Reconcile/Rows.antt =====
-- What one round of the first loop of worker/reconcile.py does to the row of each task.
use cloudagentperform.Base.{
  ℕ, ◌+◌, ◌≡◌, refl, ap, subst, ◌∙◌, inl, inr, String, true, false, Option, none, some, ◌==◌,
  if◌then◌else◌, ltb, nat_eq, arith, eq_iff, eq_refl, Bool-cases, Option-cases,
}
use cloudagentperform.Models.{failed, r_retries, is_running, ev_failed, Task, Event}
use cloudagentperform.Store.Table.{Store, Result, ok, update_tasks, rowcount}
use cloudagentperform.Store.Rows.{Unique, rowcount-hits, select_id-update_rows}
use cloudagentperform.Store.{
  get, requeue, requeued, fail_exhausted, ended, runs_attempt, end_payload,
}
use cloudagentperform.Store.Claim.{get-update_self}
use cloudagentperform.Store.Endings.{logged, next_event, fail_exhausted-ending}
use cloudagentperform.Store.History.{requeues, fails, exec}
use cloudagentperform.Store.History.Distinct.{exec-Unique}
use cloudagentperform.Redis.{Redis}
use cloudagentperform.Bus.{queue_key, enqueue, queued_ids, lease_token, publish_event}
use cloudagentperform.Bus.Leases.{lease_token-enqueue, lease_token-publish_event}
use cloudagentperform.Reconcile.{World, Stats, contains, give_back, exhaust, reclaim_one}

-- The row that the pass should leave behind.
abbrev pub repaired : Option String → String → Task → Task
repaired (some token) now t = t
repaired none now t =
    if is_running t.status
    then (if ltb t.attempt t.max_attempts then requeued now t else ended failed r_retries now t)
    else t

abbrev pub repaired_row : Option String → String → Option Task → Option Task
repaired_row lease now none = none
repaired_row lease now (some t) = some (repaired lease now t)

module _ (r : Redis) (clock : String → ℕ → String) where
  open r use {State}

  -- One round touches the row of its task only, loses no lease and no entry of the queue.
  pub record Round (t : Task) (w w' : World State) : Type 0 where
    pub unique : Unique w'.store.tasks
    pub rows :
        (j : String)
        → get j w'.store ≡ (
            if t.id == j
            then repaired_row (lease_token r j w.redis) (clock j 0) (get j w.store)
            else get j w.store)
    pub leases : (j : String) → lease_token r j w'.redis ≡ lease_token r j w.redis
    pub queue :
        (j : String)
        → contains j (queued_ids r w.redis) ≡ true
        → contains j (queued_ids r w'.redis) ≡ true

  pub contains-enqueue :
      (tid j : String) (s : State)
      → contains j (queued_ids r (enqueue r tid s))
        ≡ (if tid == j then true else contains j (queued_ids r s))
  unfolding enqueue queued_ids
  contains-enqueue tid j s = rw (r.lrange-lpush queue_key tid s) (ground arith)

  queued_ids-publish_event :
      (ev : Event) (s : State) → queued_ids r (publish_event r ev s) ≡ queued_ids r s
  unfolding publish_event queued_ids
  queued_ids-publish_event ev s = r.lrange-publish _ _ ev s

  module _ (t : Task) (w : World State) (found : get t.id w.store ≡ some t)
      (runs : is_running t.status ≡ true) where
    its_attempt : runs_attempt t.attempt t ≡ true
    its_attempt = ground arith

    update_round :
        (f : Task → Task) (j : String)
        → ((a : Task) → (f a).id ≡ a.id)
        → lease_token r t.id w.redis ≡ none
        → f t ≡ repaired none (clock t.id 0) t
        → get j (update_tasks t.id (runs_attempt t.attempt) f w.store) ≡ (
            if t.id == j
            then repaired_row (lease_token r j w.redis) (clock j 0) (get j w.store)
            else get j w.store)
    update_round f j same free e = elim (Bool-cases (t.id == j)) [
      | inl hit ↦
          subst
            (λ k. get k (update_tasks t.id (runs_attempt t.attempt) f w.store) ≡ (
              if t.id == k
              then repaired_row (lease_token r k w.redis) (clock k 0) (get k w.store)
              else get k w.store))
            ((eq_iff t.id j).0 hit)
            (rw
              (
                get-update_self t.id (runs_attempt t.attempt) f w.store same,
                eq_refl t.id,
                found,
                free,
                its_attempt,
              )
              (ap some e))
      | inr miss ↦ rw miss (
          unfold get update_tasks in
          rw (select_id-update_rows f same t.id j (runs_attempt t.attempt) w.store.tasks, miss))
    ]

    module _ (u : Unique w.store.tasks) (st : Stats) where
      leased-Round : (token : String) → lease_token r t.id w.redis ≡ some token → Round t w w
      leased-Round token held = record {
        unique = u;
        rows = λ j. ground (arith, eq_iff t.id j);
        leases = λ j. refl;
        queue = λ j h. h;
      }

      its_count : nat_eq (rowcount t.id (runs_attempt t.attempt) w.store) 1 ≡ true
      unfolding get
      its_count = rw (rowcount-hits t.id (runs_attempt t.attempt) w.store u, found) its_attempt

      given_back : give_back r clock t w st ≡ (
        ok (record st { reclaimed = st.reclaimed + 1 }),
        record {
          store = (requeue t.id t.attempt (clock t.id 0) w.store).1;
          redis = enqueue r t.id w.redis;
        },
      )
      unfolding give_back requeue
      given_back = rw its_count

      give_back-Round :
          lease_token r t.id w.redis ≡ none
          → ltb t.attempt t.max_attempts ≡ true
          → (st' : Stats) × (w' : World State) × (give_back r clock t w st ≡ (ok st', w'))
            × Round t w w'
      give_back-Round free left = (
        record st { reclaimed = st.reclaimed + 1 },
        record {
          store = (requeue t.id t.attempt (clock t.id 0) w.store).1;
          redis = enqueue r t.id w.redis;
        },
        given_back,
        record {
          unique = unfold exec in exec-Unique (requeues t.id t.attempt (clock t.id 0)) w.store u;
          rows = λ j.
              unfold requeue in
              update_round (requeued (clock t.id 0)) j (λ a. refl) free (rw (runs, left));
          leases = λ j. lease_token-enqueue r j t.id w.redis;
          queue = λ j h. rw (contains-enqueue t.id j w.redis) (ground arith);
        },
      )

      failed_event : Event
      failed_event =
          next_event t.id t.attempt ev_failed (clock t.id 1) (end_payload failed r_retries) w.store

      failed_store : Store
      unfolding failed_event
      failed_store = logged failed_event (
          update_tasks t.id (runs_attempt t.attempt) (ended failed r_retries (clock t.id 0))
            w.store)

      failed_all :
          fail_exhausted t.id t.attempt (clock t.id 0) (clock t.id 1) w.store
          ≡ (ok (some failed_event), failed_store)
      unfolding failed_store get
      failed_all = rw (
        fail_exhausted-ending t.id t.attempt (clock t.id 0) (clock t.id 1) w.store u,
        found,
        its_attempt,
      )

      exhausted_all : exhaust r clock t w st ≡ (
        ok (record st { exhausted = st.exhausted + 1 }),
        record { store = failed_store; redis = publish_event r failed_event w.redis },
      )
      unfolding exhaust
      exhausted_all = rw failed_all

      exhaust-Round :
          lease_token r t.id w.redis ≡ none
          → ltb t.attempt t.max_attempts ≡ false
          → (st' : Stats) × (w' : World State) × (exhaust r clock t w st ≡ (ok st', w'))
            × Round t w w'
      unfolding failed_store get
      exhaust-Round free left = (
        record st { exhausted = st.exhausted + 1 },
        record { store = failed_store; redis = publish_event r failed_event w.redis },
        exhausted_all,
        record {
          unique =
              subst (λ (p : Result (Option Event) × Store). Unique p.1.tasks) failed_all
                (unfold exec in
                  exec-Unique (fails t.id t.attempt (clock t.id 0) (clock t.id 1)) w.store u);
          rows = λ j.
              update_round (ended failed r_retries (clock t.id 0)) j (λ a. refl) free
                (rw (runs, left));
          leases = λ j. lease_token-publish_event r j failed_event w.redis;
          queue = λ j h. rw (queued_ids-publish_event failed_event w.redis) h;
        },
      )

      reclaim_left :
          lease_token r t.id w.redis ≡ none
          → ltb t.attempt t.max_attempts ≡ true
          → reclaim_one r clock t w st ≡ give_back r clock t w st
      unfolding reclaim_one
      reclaim_left free left = rw (free, reclaim_one, left)

      reclaim_used :
          lease_token r t.id w.redis ≡ none
          → ltb t.attempt t.max_attempts ≡ false
          → reclaim_one r clock t w st ≡ exhaust r clock t w st
      unfolding reclaim_one
      reclaim_used free left = rw (free, reclaim_one, left)

      reclaim_held :
          (token : String)
          → lease_token r t.id w.redis ≡ some token
          → reclaim_one r clock t w st ≡ (ok st, w)
      unfolding reclaim_one
      reclaim_held token held = rw (held, reclaim_one)

      pub reclaim_one-Round :
          (st' : Stats) × (w' : World State) × (reclaim_one r clock t w st ≡ (ok st', w'))
          × Round t w w'
      reclaim_one-Round = elim (Option-cases (lease_token r t.id w.redis)) [
        | inl free ↦ elim (Bool-cases (ltb t.attempt t.max_attempts)) [
          | inl left ↦
              let (st', w', e, round) = give_back-Round free left in
              (st', w', reclaim_left free left ∙ e, round)
          | inr left ↦
              let (st', w', e, round) = exhaust-Round free left in
              (st', w', reclaim_used free left ∙ e, round)
        ]
        | inr (token, held) ↦ (st, w, reclaim_held token held, leased-Round token held)
      ]

-- ===== src/System/Submission.antt =====
-- The way of one task through the system: POST /tasks (api/main.py), the queue, a worker's turn
-- (worker/main.py), the end of the attempt (worker/attempt.py), GET /tasks/{id}.
use cloudagentperform.Base.{
  ◌≡◌, refl, sym, ap, ◌∙◌, subst, inl, inr, Bool, true, false, ℕ, ◌<◌, leb, String, Option, none,
  some, List, [], ◌∷◌, ◌++◌, any, arith, eq_refl,
}
use cloudagentperform.Models.{Task, is_terminal}
use cloudagentperform.Store.Table.{Store, Result, ok, select_id, clashes}
use cloudagentperform.Store.Rows.{Unique, select_id-append}
use cloudagentperform.Store.{get, create_task, new_row, claim, claimed, claimable}
use cloudagentperform.Store.Claim.{claim_lem, claim_attempt}
use cloudagentperform.Store.History.{creates, claims, exec}
use cloudagentperform.Store.History.Distinct.{exec-Unique, run-Unique}
use cloudagentperform.Redis.{Redis}
use cloudagentperform.Bus.{
  queue_key, lease_key, enqueue, dequeue, queued_ids, lease_token, active_leases,
}
use cloudagentperform.Bus.Leases.{acquire_lease_lem, lease_key-ne-queue_key, lease_token-enqueue}
use cloudagentperform.Reconcile.{World, Stats, reconcile}
use cloudagentperform.Reconcile.Recovery.{reconcile-Recovered}
use cloudagentperform.Reconcile.Order.{IsNext, reconcile-IsNext}
use cloudagentperform.System.Follows.{Follows}
use cloudagentperform.System.Turns.{reconcile-Follows}
use cloudagentperform.Poll.{PollConfig, take_task, next_task, poll_once}
use cloudagentperform.Agent.Loop.{Outcome}
use cloudagentperform.Attempt.{settle}
use cloudagentperform.Attempt.Settlement.{Closed, settle-Closed}
use cloudagentperform.Api.{task_json, post_task, get_task}

-- No row with the id: a new row without a key clashes with none.
no_clash :
    (tid now prompt : String) (ts : List Task)
    → select_id tid ts ≡ none
    → any (clashes (new_row tid now prompt none 2)) ts ≡ false
unfolding select_id
no_clash tid now prompt [] h = refl
no_clash tid now prompt (t ∷ ts) h = ground (arith, no_clash tid now prompt ts)

create_task-fresh :
    (tid now prompt : String) (s : Store)
    → get tid s ≡ none
    → create_task tid now prompt none 2 s ≡ (
      ok (new_row tid now prompt none 2, true),
      record s { tasks = s.tasks ++ new_row tid now prompt none 2 ∷ [] },
    )
unfolding create_task get
create_task-fresh tid now prompt s h = rw (no_clash tid now prompt s.tasks h) refl

get-fresh :
    (tid now prompt : String) (s : Store)
    → get tid s ≡ none
    → get tid (record s { tasks = s.tasks ++ new_row tid now prompt none 2 ∷ [] })
      ≡ some (new_row tid now prompt none 2)
unfolding get
get-fresh tid now prompt s h =
    select_id-append (new_row tid now prompt none 2) tid s.tasks ∙ (rw (h, eq_refl tid) refl)

Follows-Unique : (s s' : Store) → Follows s s' → Unique s.tasks → Unique s'.tasks
Follows-Unique s s' (xs, e) u = subst (λ (x : Store). Unique x.tasks) (sym e) (run-Unique xs s u)

module _ (r : Redis) (clock : String → ℕ → String) where
  open r use {State}

  -- The id that waits longest is handed out, and the leases are as before.
  dequeue-next :
      (tid : String) (q : State)
      → IsNext r clock tid q
      → ((dequeue r q).0 ≡ some tid) × (lease_token r tid (dequeue r q).1 ≡ lease_token r tid q)
  unfolding dequeue queued_ids lease_token
  dequeue-next tid q (l, h) =
      let (popped, rest) = r.brpop-last queue_key tid l q h in
      (popped, r.get-brpop (lease_key tid) queue_key q (lease_key-ne-queue_key tid))

  enqueue-only :
      (tid : String) (q : State) → queued_ids r q ≡ [] → IsNext r clock tid (enqueue r tid q)
  unfolding enqueue queued_ids
  enqueue-only tid q h = ([], r.lrange-lpush queue_key tid q ∙ ap (λ l. tid ∷ l) h)

  -- A claim of a queued row with an attempt left.
  claim-queued :
      (tid worker now : String) (s : Store) {t : Task}
      → Unique s.tasks
      → get tid s ≡ some t
      → claimable t ≡ true
      → (claim tid worker now s).0 ≡ some (claimed worker now t)
  claim-queued tid worker now s u h free = rw (claim_lem tid worker now s u, h, free) refl

  take_task-queued :
      (cfg : PollConfig) (token tid : String) (w : World State) {t : Task}
      → Unique w.store.tasks
      → get tid w.store ≡ some t
      → claimable t ≡ true
      → lease_token r tid w.redis ≡ none
      → ((take_task r clock cfg token tid w).0 ≡ some (claimed cfg.worker_id (clock tid 2) t))
        × ((take_task r clock cfg token tid w).1.store
            ≡ (claim tid cfg.worker_id (clock tid 2) w.store).1)
  unfolding take_task
  take_task-queued cfg token tid w u h free lease =
      elim (acquire_lease_lem r tid token cfg.lease_ttl w.redis) [
        | inl (none', granted, held) ↦
            rw (granted, claim-queued tid cfg.worker_id (clock tid 2) w.store u h free, take_task)
              (refl, refl)
        | inr (taken, refused) ↦ absurd (taken lease)
      ]

  -- An attempt that ends with this outcome, while nothing else runs.
  abbrev pub ending_with :
      String → Outcome → List String → Task → World State → Result (Unit {0}) × World State
  unfolding settle
  ending_with token o artifacts t w = settle r clock t token o artifacts w

  -- What becomes of the task in the worker's turn: the repair pass leaves it for the worker, which runs
  -- its first attempt; after the turn the row has the outcome, and a client that asks for the task is
  -- shown that row.
  pub record Served (cfg : PollConfig) (token tid prompt : String) (o : Outcome)
      (artifacts : List String) (w : World State) : Type 0 where
    pub task : Task
    pub taken : (next_task r clock cfg token (reconcile r clock w).1).0 ≡ some task
    pub id : task.id ≡ tid
    pub asked : task.prompt ≡ prompt
    pub attempt : task.attempt ≡ 1
    pub whole_turn : poll_once r clock cfg token (ending_with token o artifacts) w ≡ (
      ok true,
      (settle r clock task token o artifacts
          (next_task r clock cfg token (reconcile r clock w).1).1).1,
    )
    pub closed :
        Closed r clock task token o (next_task r clock cfg token (reconcile r clock w).1).1 (
          settle r clock task token o artifacts
            (next_task r clock cfg token (reconcile r clock w).1).1)
    pub answer :
        get_task r tid (poll_once r clock cfg token (ending_with token o artifacts) w).1
        ≡ task_json 200 closed.row

  get_task-found :
      (tid : String) (w : World State) {t : Task}
      → get tid w.store ≡ some t
      → get_task r tid w ≡ task_json 200 t
  unfolding get_task
  get_task-found tid w h = rw (h, get_task) refl

  post_task-fresh :
      (tid now prompt : String) (w : World State)
      → get tid w.store ≡ none
      → (post_task r tid now prompt none w).1 ≡ record {
        store = record w.store { tasks = w.store.tasks ++ new_row tid now prompt none 2 ∷ [] };
        redis = enqueue r tid w.redis;
      }
  unfolding post_task
  post_task-fresh tid now prompt w h =
      rw (create_task-fresh tid now prompt w.store h, post_task) refl

  next_task-next :
      (cfg : PollConfig) (token tid : String) (w : World State)
      → IsNext r clock tid w.redis
      → leb cfg.max_concurrency (active_leases r w.redis) ≡ false
      → next_task r clock cfg token w
        ≡ take_task r clock cfg token tid (record w { redis = (dequeue r w.redis).1 })
  unfolding next_task
  next_task-next cfg token tid w h room = rw (room, (dequeue-next tid w.redis h).0, next_task) refl

  -- A turn whose parts are known.
  poll_once-parts :
      (cfg : PollConfig) (token : String) (o : Outcome) (artifacts : List String) (w : World State)
      {st : Stats} {t : Task}
      → (reconcile r clock w).0 ≡ ok st
      → (next_task r clock cfg token (reconcile r clock w).1).0 ≡ some t
      → (settle r clock t token o artifacts
          (next_task r clock cfg token (reconcile r clock w).1).1).0
        ≡ ok tt
      → poll_once r clock cfg token (ending_with token o artifacts) w ≡ (
        ok true,
        (settle r clock t token o artifacts
            (next_task r clock cfg token (reconcile r clock w).1).1).1,
      )
  unfolding poll_once ending_with
  poll_once-parts cfg token o artifacts w repaired found fine =
      rw (repaired, found, fine, poll_once) refl

  claimed-Served :
      (cfg : PollConfig) (token tid now prompt : String) (o : Outcome) (artifacts : List String)
      (w₀ : World State) {st : Stats}
      → let w = (reconcile r clock w₀).1 in
        (reconcile r clock w₀).0 ≡ ok st
        → Unique w.store.tasks
        → get tid w.store ≡ some (new_row tid now prompt none 2)
        → IsNext r clock tid w.redis
        → lease_token r tid w.redis ≡ none
        → leb cfg.max_concurrency (active_leases r w.redis) ≡ false
        → is_terminal o.status ≡ true
        → Served cfg token tid prompt o artifacts w₀
  unfolding exec
  claimed-Served cfg token tid now prompt o artifacts w₀ fine u h next free room over =
      let w = (reconcile r clock w₀).1 in
      let row = new_row tid now prompt none 2 in
      let worker = cfg.worker_id in
      let task = claimed worker (clock tid 2) row in
      let handed = next_task-next cfg token tid w next room in
      let lease = (dequeue-next tid w.redis next).1 ∙ free in
      let (taken, written) =
        take_task-queued cfg token tid (record w { redis = (dequeue r w.redis).1 }) {t = row} u h
          refl lease in
      let found = ap (λ (p : Option Task × World State). p.0) handed ∙ taken in
      let store : (next_task r clock cfg token w).1.store
          ≡ (claim tid worker (clock tid 2) w.store).1 =
        ap (λ (p : Option Task × World State). p.1.store) handed ∙ written in
      let kept =
        (claim_attempt tid worker (clock tid 2) w.store {t' = task} u
          (claim-queued tid worker (clock tid 2) w.store u h refl)).3 in
      let c =
        settle-Closed r clock task token o artifacts (next_task r clock cfg token w).1 {row = task}
          (subst (λ (x : Store). Unique x.tasks) (sym store)
            (exec-Unique (claims tid worker (clock tid 2)) w.store u))
          over (ap (get tid) store ∙ kept) refl in
      let end = poll_once-parts cfg token o artifacts w₀ fine found c.fine in
      record {
        task = task;
        taken = found;
        id = refl;
        asked = refl;
        attempt = refl;
        whole_turn = end;
        closed = c;
        answer =
            ap (λ (p : Result Bool × World State). get_task r tid p.1) end
            ∙ get_task-found tid _ c.found;
      }

  posted-Served :
      (cfg : PollConfig) (token tid now prompt : String) (o : Outcome) (artifacts : List String)
      (s : Store) (q : State)
      → let w : World State = record { store = s; redis = enqueue r tid q } in
        Unique s.tasks
        → get tid s ≡ some (new_row tid now prompt none 2)
        → queued_ids r q ≡ []
        → lease_token r tid q ≡ none
        → active_leases r (reconcile r clock w).1.redis < cfg.max_concurrency
        → is_terminal o.status ≡ true
        → Served cfg token tid prompt o artifacts w
  posted-Served cfg token tid now prompt o artifacts s q u h empty free room over =
      let w : World State = record { store = s; redis = enqueue r tid q } in
      let (st, w', e, rec) = reconcile-Recovered r clock w u in
      let same = ap (λ (p : Result Stats × World State). p.1) e in
      let lease = lease_token-enqueue r tid tid q ∙ free in
      claimed-Served cfg token tid now prompt o artifacts w {st = st}
        (ap (λ (p : Result Stats × World State). p.0) e)
        (Follows-Unique w.store (reconcile r clock w).1.store (reconcile-Follows r clock w) u)
        (ap (λ (x : World State). get tid x.store) same ∙ rec.rows tid ∙ (rw (lease, h) refl))
        (reconcile-IsNext r clock tid w (enqueue-only tid q empty))
        (ap (λ (x : World State). lease_token r tid x.redis) same ∙ rec.leases tid ∙ lease)
        (ground (arith, room)) over

  -- In a system with distinct ids and an empty queue, a task is posted without a key, under an id without a
  -- row and without a lease, and a worker makes its next turn (`poll_once`, with its repair pass), while
  -- nothing else runs until the turn is over. If fewer leases are active after the repair pass than the
  -- limit, and the attempt ends with a terminal outcome, the worker runs the first attempt of that task
  -- with the prompt that was posted, the turn succeeds, and then the row and the answer to GET /tasks/{id}
  -- have that outcome.
  pub post_task-Served :
      (cfg : PollConfig) (token tid now prompt : String) (o : Outcome) (artifacts : List String)
      (w : World State)
      → Unique w.store.tasks
      → get tid w.store ≡ none
      → queued_ids r w.redis ≡ []
      → lease_token r tid w.redis ≡ none
      → active_leases r (reconcile r clock (post_task r tid now prompt none w).1).1.redis
        < cfg.max_concurrency
      → is_terminal o.status ≡ true
      → Served cfg token tid prompt o artifacts (post_task r tid now prompt none w).1
  unfolding exec
  post_task-Served cfg token tid now prompt o artifacts w u absent empty free room over =
      let s = record w.store { tasks = w.store.tasks ++ new_row tid now prompt none 2 ∷ [] } in
      let fresh = create_task-fresh tid now prompt w.store absent in
      let posted = post_task-fresh tid now prompt w absent in
      subst (Served cfg token tid prompt o artifacts) (sym posted) (
        posted-Served cfg token tid now prompt o artifacts s w.redis
          (subst (λ (p : Result (Task × Bool) × Store). Unique p.1.tasks) fresh
            (exec-Unique (creates tid now prompt none 2) w.store u))
          (get-fresh tid now prompt w.store absent) empty free
          (subst
            (λ (x : World State).
              active_leases r (reconcile r clock x).1.redis < cfg.max_concurrency)
            posted room)
          over)

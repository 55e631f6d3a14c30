-- ===== src/Attempt/Settlement.antt =====
-- The terminal write of an attempt (worker/attempt.py).
use cloudagentperform.Base.{
  ℕ, ◌≡◌, refl, subst, ◌∙◌, String, Bool, true, false, Option, none, some, List, if◌then◌else◌,
  arith, eq_refl,
}
use cloudagentperform.Models.{is_terminal, Task, Event}
use cloudagentperform.Store.Table.{Store, Result, ok}
use cloudagentperform.Store.Rows.{Unique}
use cloudagentperform.Store.{get, finish, finished, runs_attempt}
use cloudagentperform.Store.Claim.{get-update_self}
use cloudagentperform.Store.Endings.{ending, finish-ending}
use cloudagentperform.Store.History.Moves.{SameRun}
use cloudagentperform.Redis.{Redis}
use cloudagentperform.Bus.{holds, lease_token, release_lease, publish_event}
use cloudagentperform.Bus.Leases.{release_lease_lem, lease_token-publish_event}
use cloudagentperform.Reconcile.{World}
use cloudagentperform.Agent.{Env}
use cloudagentperform.Agent.Loop.{Outcome, Ended, Agent, run_agent}
use cloudagentperform.Agent.Loop.Counts.{Ensures}
use cloudagentperform.Agent.Loop.Soundness.{run_agent-Sound}
use cloudagentperform.Attempt.{conclude, ending_of, spend, close, settle}
use cloudagentperform.Attempt.Outcomes.{conclude_status}
use cloudagentperform.Attempt.Spending.{Spent, spend-Spent}

module _ (r : Redis) (clock : String → ℕ → String) (task : Task) (token : String) where
  open r use {State}

  -- The worker's row carries the outcome, and its own lease is gone.
  pub record Closed (o : Outcome) (w : World State) (p : Result (Unit {0}) × World State)
      : Type 0 where
    pub fine : p.0 ≡ ok tt
    pub row : Task
    pub found : get task.id p.1.store ≡ some row
    pub status : row.status ≡ o.status
    pub reason : row.failure_reason ≡ o.reason
    pub summary : row.result_summary ≡ o.summary
    pub attempt : row.attempt ≡ task.attempt
    pub lease : lease_token r task.id p.1.redis ≡ (
        if holds token (lease_token r task.id w.redis) then none else lease_token r task.id w.redis)

  released :
      (ev : Event) (s : State)
      → lease_token r task.id (release_lease r task.id token (publish_event r ev s))
        ≡ (if holds token (lease_token r task.id s) then none else lease_token r task.id s)
  released ev s = rw (
    release_lease_lem r task.id token task.id (publish_event r ev s),
    eq_refl task.id,
    lease_token-publish_event r task.id ev s,
  )

  ending-Closed :
      (o : Outcome) (now : String) (w : World State) (s : Store) (ev : Event) {row : Task}
      → get task.id s ≡ some row
      → runs_attempt task.attempt row ≡ true
      → Closed o w (
          close r clock task token
            (ending task.id
              (runs_attempt task.attempt)
              (finished o.status o.reason o.summary now)
              ev
              s)
            w)
  unfolding get
  ending-Closed o now w s ev {row} h runs =
      rw (h, runs, close)
        (record {
          fine = refl;
          row = finished o.status o.reason o.summary now row;
          found =
              get-update_self task.id (runs_attempt task.attempt)
                (finished o.status o.reason o.summary now) s (λ x. refl)
              ∙ (rw (h, runs) refl);
          status = refl;
          reason = refl;
          summary = refl;
          attempt = ground arith;
          lease = released ev w.redis;
        })

  close-Closed :
      (o : Outcome) (artifacts : List String) (now ts : String) (w : World State) (s : Store)
      {row : Task}
      → Unique s.tasks
      → is_terminal o.status ≡ true
      → get task.id s ≡ some row
      → runs_attempt task.attempt row ≡ true
      → Closed o w (
          close r clock task token (finish task.id task.attempt (ending_of o artifacts) now ts s) w)
  close-Closed o artifacts now ts w s {row} u over h runs =
      rw (finish-ending task.id task.attempt (ending_of o artifacts) now ts s u over)
        (ending-Closed o now w s _ h runs)

  pub settle-Closed :
      (o : Outcome) (artifacts : List String) (w : World State) {row : Task}
      → Unique w.store.tasks
      → is_terminal o.status ≡ true
      → get task.id w.store ≡ some row
      → runs_attempt task.attempt row ≡ true
      → Closed o w (settle r clock task token o artifacts w)
  unfolding settle
  settle-Closed o artifacts w {row} u over h runs =
      let spent = spend-Spent task.id o.usage (clock task.id 3) w.store {row = row} u h in
      rw (spent.fine, settle)
        (close-Closed o artifacts (clock task.id 4) (clock task.id 5) w _ spent.unique over
          spent.rows runs)

  -- However the agent's run ends, if `run_attempt` comes to an outcome and the row still runs the
  -- attempt, with distinct ids, then the row gets the outcome's status, reason and summary, under the
  -- same attempt, and the task's lease is gone if it was the worker's own.
  pub attempt-Closed :
      (v : Env) (tool_timeout max_steps : ℕ) (e : v.E) (reason : Option String) (oom : Bool)
      (artifacts : List String) (w : World State) {end : Ended} {a : Agent v.E} {o : Outcome}
      {row : Task}
      → run_agent v tool_timeout task.prompt max_steps e ≡ (some end, a)
      → conclude reason oom end ≡ some o
      → Unique w.store.tasks
      → get task.id w.store ≡ some row
      → runs_attempt task.attempt row ≡ true
      → Closed o w (settle r clock task token o artifacts w)
  attempt-Closed v tool_timeout max_steps e reason oom artifacts w {end} {a} {o} {row} ran concluded
        u h runs =
      settle-Closed o artifacts w u
        (conclude_status max_steps (λ b. ⊥) reason oom end a
          (subst (Ensures max_steps (λ b. ⊥)) ran
            (run_agent-Sound v tool_timeout task.prompt max_steps e))
          concluded)
        h runs

  -- What a worker that has lost its task leaves: the run and the events as they were.
  pub record Unchanged (w : World State) (row : Task) (p : Result (Unit {0}) × World State)
      : Type 0 where
    pub fine : p.0 ≡ ok tt
    pub row' : Task
    pub found : get task.id p.1.store ≡ some row'
    pub same : SameRun row row'
    pub events : p.1.store.events ≡ w.store.events

  ending-Unchanged :
      (o : Outcome) (now : String) (w : World State) (p : Result (Unit {0}) × Store) (ev : Event)
      {row : Task}
      → Spent task.id row p w.store
      → runs_attempt task.attempt row ≡ false
      → Unchanged w row (
          close r clock task token
            (ending task.id
              (runs_attempt task.attempt)
              (finished o.status o.reason o.summary now)
              ev
              p.1)
            w)
  unfolding get
  ending-Unchanged o now w p ev {row} spent lost =
      rw (spent.rows, lost, close)
        (record {
          fine = refl;
          row' = record row { usage = spent.usage; updated_at = spent.now };
          found = spent.rows;
          same = record {
            id = refl;
            status = refl;
            attempt = refl;
            max_attempts = refl;
            failure_reason = refl;
            result_summary = refl;
          };
          events = spent.events;
        })

  -- With distinct ids and a terminal outcome, a worker whose task has been taken from it (its row no
  -- longer runs the attempt) changes no status, reason, summary or attempt and logs no event.
  pub settle-Unchanged :
      (o : Outcome) (artifacts : List String) (w : World State) {row : Task}
      → Unique w.store.tasks
      → is_terminal o.status ≡ true
      → get task.id w.store ≡ some row
      → runs_attempt task.attempt row ≡ false
      → Unchanged w row (settle r clock task token o artifacts w)
  unfolding settle
  settle-Unchanged o artifacts w {row} u over h lost =
      let spent = spend-Spent task.id o.usage (clock task.id 3) w.store {row = row} u h in
      rw
        (
          spent.fine,
          settle,
          finish-ending task.id task.attempt (ending_of o artifacts) (clock task.id 4)
              (clock task.id 5) (spend task.id o.usage (clock task.id 3) w.store).1 spent.unique
              over,
        )
        (ending-Unchanged o (clock task.id 4) w _ _ {row = row} spent lost)

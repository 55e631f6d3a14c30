-- ===== src/System/Histories.antt =====
-- Whatever the processes do, in whatever order, the database sees a history of transactions of
-- core/store.py, so what holds of histories holds of the system.
use cloudagentperform.Base.{
  ◌≡◌, ◌≤◌, sym, ap, ◌∙◌, subst, true, false, ℕ, String, some, List, [], ◌∷◌,
}
use cloudagentperform.Models.{Task, is_terminal}
use cloudagentperform.Store.Table.{Store, init}
use cloudagentperform.Store.{get}
use cloudagentperform.Store.Rows.{Unique}
use cloudagentperform.Store.{events_after}
use cloudagentperform.Store.History.{Txn, run}
use cloudagentperform.Store.History.Moves.{SameRun, ends_of}
use cloudagentperform.Store.History.Distinct.{run-Unique}
use cloudagentperform.Store.History.Ends.{terminals, ends-run, attempt-le-max_attempts}
use cloudagentperform.Store.History.Races.{end_is_final}
use cloudagentperform.Store.History.Replay.{IsAscending, events_after-IsAscending}
use cloudagentperform.Redis.{Redis}
use cloudagentperform.Reconcile.{World}
use cloudagentperform.Attempt.{beat}
use cloudagentperform.System.{
  Action, posts, cancels, repairs, takes, emits, beats, settles, redis_loses, act, act_all,
}
use cloudagentperform.System.Follows.{Follows, stays, after}
use cloudagentperform.System.Requests.{post_task-Follows, cancel_task-Follows}
use cloudagentperform.System.Turns.{reconcile-Follows, next_task-Follows}
use cloudagentperform.System.Attempts.{emit-Follows, settle-Follows}

module _ (r : Redis) (clock : String → ℕ → String) where
  open r use {State}

  act-Follows : (x : Action State) (w : World State) → Follows w.store (act r clock x w).store
  unfolding act beat
  act-Follows (posts tid now prompt key) w = post_task-Follows r clock tid now prompt key w
  act-Follows (cancels tid now ts first second) w =
      cancel_task-Follows r clock tid now ts first second w
  act-Follows repairs w = reconcile-Follows r clock w
  act-Follows (takes cfg token) w = next_task-Follows r clock cfg token w
  act-Follows (emits t kind payload) w = emit-Follows r clock t kind payload w
  act-Follows (beats t token ttl true) w = stays w.store
  act-Follows (beats t token ttl false) w = stays w.store
  act-Follows (settles t token o artifacts) w = settle-Follows r clock t token o artifacts w
  act-Follows (redis_loses f) w = stays w.store

  -- Whatever the handlers and the workers do, in whatever order and whatever Redis loses, the database
  -- afterwards is what some history of transactions makes of the database before.
  pub act_all-Follows :
      (xs : List (Action State)) (w : World State) → Follows w.store (act_all r clock xs w).store
  unfolding act_all
  act_all-Follows [] w = stays w.store
  act_all-Follows (x ∷ xs) w =
      after w.store (act-Follows x w) (act_all-Follows xs (act r clock x w))

-- What holds of the database however the processes have worked.
pub record Consistent (s : Store) : Type 0 where
  pub unique : Unique s.tasks
  pub one_end : (tid : String) → ends_of tid s ≡ terminals (get tid s)
  pub within : (tid : String) {t : Task} → get tid s ≡ some t → t.attempt ≤ t.max_attempts
  pub ascending : (tid : String) (after : ℕ) → IsAscending after (events_after tid after s)

run-Consistent : (h : List Txn) → Consistent (run h init)
run-Consistent h = record {
  unique = run-Unique h init tt;
  one_end = λ tid. ends-run h tid;
  within = λ tid e. attempt-le-max_attempts h tid e;
  ascending = λ tid a. events_after-IsAscending h tid a;
}

module _ (r : Redis) (clock : String → ℕ → String) where
  open r use {State}

  -- The system starts with an empty database, and whatever is in Redis.
  abbrev pub begins : State → World State
  begins q = record { store = init; redis = q }

  -- Whatever API handlers, repair passes, workers' turns, emits, heartbeats and ends of attempts run, in
  -- any order, from an empty database, with Redis changed in any way in between: the ids of the tasks are
  -- distinct, each task has exactly one terminal event if its status is terminal and none otherwise, no
  -- task is past its last attempt, and the events that a client reads come with increasing ids.
  pub act_all-Consistent :
      (xs : List (Action State)) (q : State) → Consistent (act_all r clock xs (begins q)).store
  act_all-Consistent xs q =
      let (h, e) = act_all-Follows r clock xs (begins q) in
      subst Consistent (sym e) (run-Consistent h)

  act_all-end_of :
      (s s' : Store) (before after : List Txn) (tid : String) {t : Task}
      → s ≡ run before init
      → s' ≡ run after s
      → get tid s ≡ some t
      → is_terminal t.status ≡ true
      → (t' : Task) × (get tid s' ≡ some t') × SameRun t t'
  act_all-end_of s s' before after tid {t} e f h over =
      let (t', found, same) =
        end_is_final before after tid {t = t} (ap (get tid) (sym e) ∙ h) over in
      (t', ap (get tid) (f ∙ ap (run after) e) ∙ found, same)

  -- Once a task has ended, nothing that the processes do brings it back: it keeps its status, reason,
  -- summary and attempt.
  pub act_all_final :
      (before later : List (Action State)) (q : State) (tid : String) {t : Task}
      → get tid (act_all r clock before (begins q)).store ≡ some t
      → is_terminal t.status ≡ true
      → (t' : Task) × (get tid (act_all r clock later (act_all r clock before (begins q))).store
          ≡ some t')
        × SameRun t t'
  act_all_final before later q tid {t} h over =
      let (b, e) = act_all-Follows r clock before (begins q) in
      let (a, f) = act_all-Follows r clock later (act_all r clock before (begins q)) in
      act_all-end_of _ _ b a tid {t = t} e f h over

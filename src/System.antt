-- ===== src/System.antt =====
-- The processes together: the handlers of api/main.py, and the loop of worker/main.py with its heartbeats
-- and the writes of worker/attempt.py, in any order, over one database and one Redis. Between two actions
-- Redis may lose or change anything, as when a key expires or the server is wiped.
pub mod Follows
pub mod Requests
pub mod Turns
pub mod Attempts
pub mod Histories
pub mod Delivery
pub mod Submission
use cloudagentperform.Base.{ℕ, String, Bool, Option, List, [], ◌∷◌, Dict}
use cloudagentperform.Models.{Json, Task}
use cloudagentperform.Store.History.{Txn, Emitted, emitted_type}
use cloudagentperform.Redis.{Redis}
use cloudagentperform.Reconcile.{World, reconcile}
use cloudagentperform.Poll.{PollConfig, next_task}
use cloudagentperform.Agent.Loop.{Outcome}
use cloudagentperform.Attempt.{emit, beat, settle}
use cloudagentperform.Api.{post_task, cancel_task}

-- What a process does next. A worker acts on the task and the token that it was handed, whether or not the
-- row and the lease are still its own.
pub data Action (R : Type 0) : Type 0 where
  posts : String → String → String → Option String → Action R
  cancels : String → String → String → List Txn → List Txn → Action R
  repairs : Action R
  takes : PollConfig → String → Action R
  emits : Task → Emitted → Dict Json → Action R
  beats : Task → String → ℕ → Bool → Action R
  settles : Task → String → Outcome → List String → Action R
  redis_loses : (R → R) → Action R

module _ (r : Redis) (clock : String → ℕ → String) where
  open r use {State}

  unfoldable pub act : Action State → World State → World State
  unfolding post_task cancel_task reconcile next_task emit beat settle
  act (posts tid now prompt key) w = (post_task r tid now prompt key w).1
  act (cancels tid now ts first second) w = (cancel_task r tid now ts first second w).1
  act repairs w = (reconcile r clock w).1
  act (takes cfg token) w = (next_task r clock cfg token w).1
  act (emits t kind payload) w = (emit r clock t (emitted_type kind) payload w).1
  act (beats t token ttl stop) w = (beat r clock t token ttl stop w).1
  act (settles t token o artifacts) w = (settle r clock t token o artifacts w).1
  act (redis_loses f) w = record w { redis = f w.redis }

  unfoldable pub act_all : List (Action State) → World State → World State
  unfolding act
  act_all [] w = w
  act_all (x ∷ xs) w = act_all xs (act x w)

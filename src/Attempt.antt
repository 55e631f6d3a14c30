-- ===== src/Attempt.antt =====
-- worker/attempt.py, `run_attempt`: how the agent's run is concluded, and what the worker writes, as
-- events, for its lease and at the end. Writing the transcript's file does not touch the store or
-- Redis. Attempt.Threads has the sandbox's life cycle and the threads, of which `artifacts` is a result.
pub mod Outcomes
pub mod Spending
pub mod Settlement
pub mod Threads
use Prim.Native.String.{◌++◌}
use cloudagentperform.Base.{
  ℕ, String, Bool, true, false, Option, none, some, List, [], ◌∷◌, ◌==◌, if◌then◌else◌, Dict,
}
use cloudagentperform.Models.{
  Status, cancelled, failed, r_cancelled, r_oom, r_tool, Json, arr, texts, Task, Event,
}
use cloudagentperform.Store.Table.{Store, Result, ok, err}
use cloudagentperform.Store.{Ending, add_usage, finish, append_event}
use cloudagentperform.Redis.{Redis}
use cloudagentperform.Bus.{publish_event, release_lease, renew_lease}
use cloudagentperform.Reconcile.{World}
use cloudagentperform.Agent.{Exc, key_error, type_error, file_not_found, sandbox_died, other_error}
use cloudagentperform.Agent.Loop.{Outcome, Ended, returned, stopped, escaped}

-- `Outcome(status, reason, summary)`, with the defaults of the other fields
abbrev pub brief : Status → String → String → Outcome
brief status reason summary = record {
  status = status;
  reason = some reason;
  summary = some summary;
  usage = [];
  transcript = [];
}

abbrev pub stop_outcome : String → Outcome
stop_outcome reason =
    brief (if reason == r_cancelled then cancelled else failed) reason ("stopped: " ++ reason)

-- The handlers around the agent's run. `reason` is `stop_reason[0]`, if the reaper has set it, and
-- `oom` is `sandbox.oom_killed()`; `none` stands for an exception that leaves `run_attempt`.
unfoldable pub conclude : Option String → Bool → Ended → Option Outcome
conclude reason oom (returned o) = some o
conclude reason oom (stopped why) = some (stop_outcome why)
conclude (some why) oom (escaped (sandbox_died m)) = some (stop_outcome why)
conclude none true (escaped (sandbox_died m)) = some (brief failed r_oom "sandbox out of memory")
conclude none false (escaped (sandbox_died m)) =
    some (brief failed r_tool "sandbox died unexpectedly")
conclude reason oom (escaped (key_error k)) = none
conclude reason oom (escaped (type_error m)) = none
conclude reason oom (escaped file_not_found) = none
conclude reason oom (escaped (other_error m)) = none

-- The arguments of `finish`.
abbrev pub ending_of : Outcome → List String → Ending
ending_of o artifacts = record {
  status = o.status;
  reason = o.reason;
  summary = o.summary;
  usage = some o.usage;
  extra_payload = some (("artifacts", arr (texts artifacts)) ∷ []);
}

-- `if outcome.usage:`
unfoldable pub spend : String → Dict ℕ → String → Store → Result (Unit {0}) × Store
spend tid [] now s = (ok tt, s)
spend tid (x ∷ usage) now s = add_usage tid (x ∷ usage) now s

module _ (r : Redis) (clock : String → ℕ → String) where
  open r use {State}

  -- `emit`: the event is written, then published.
  abbrev pub announced : Result Event × Store → World State → Result (Unit {0}) × World State
  announced (ok ev, s') w = (ok tt, record { store = s'; redis = publish_event r ev w.redis })
  announced (err e, s') w = (err e, record w { store = s' })

  unfoldable pub emit : Task → String → Dict Json → World State → Result (Unit {0}) × World State
  emit t type payload w =
      announced (append_event t.id t.attempt type (clock t.id 6) payload w.store) w

  -- A round of `heartbeat`: whether it goes on, with the lease renewed.
  unfoldable pub beat : Task → String → ℕ → Bool → World State → Bool × World State
  beat t token ttl stop w =
      let (renewed, redis') = renew_lease r t.id token ttl w.redis in
      if stop then (false, w) else (renewed, record w { redis = redis' })

  abbrev pub close :
      Task → String → Result (Option Event) × Store → World State → Result (Unit {0}) × World State
  close t token (ok (some ev), s') w = (
    ok tt,
    record { store = s'; redis = release_lease r t.id token (publish_event r ev w.redis) },
  )
  close t token (ok none, s') w =
      (ok tt, record { store = s'; redis = release_lease r t.id token w.redis })
  close t token (err e, s') w = (err e, record w { store = s' })

  -- The writes at the end of an attempt: the usage, the terminal write with its event, the lease.
  unfoldable pub settle :
      Task → String → Outcome → List String → World State → Result (Unit {0}) × World State
  unfolding spend
  settle t token o artifacts w =
      let (spent, s') = spend t.id o.usage (clock t.id 3) w.store in
      let done =
        close t token
          (finish t.id t.attempt (ending_of o artifacts) (clock t.id 4) (clock t.id 5) s') w in
      elim spent [ ok u ↦ done | err e ↦ (err e, record w { store = s' }) ]

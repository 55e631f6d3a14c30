-- ===== src/Bus.antt =====
-- core/queuebus.py: `QueueBus`, over the commands of a Redis server.
pub mod Leases
pub mod Slots
use Prim.Native.String.{◌++◌}
use cloudagentperform.Base.{ℕ, String, Bool, true, false, Option, none, some, List, ◌==◌, length}
use cloudagentperform.Models.{Event}
use cloudagentperform.Redis.{Redis}

-- the default of the constructor's argument, which no caller changes
abbrev pub queue_key : String
queue_key = "cap:queue"

unfoldable pub lease_key : String → String
lease_key tid = "cap:lease:" ++ tid

unfoldable pub channel_for : String → String
channel_for tid = "cap:events:" ++ tid

-- `self.r.get(key) == token`
abbrev pub holds : String → Option String → Bool
holds token none = false
holds token (some t) = t == token

module _ (r : Redis) where
  open r use {State, lpush, brpop, lrange, set_nx, get, expire, delete, scan, publish}

  unfoldable pub enqueue : String → State → State
  enqueue tid s = lpush queue_key tid s

  unfoldable pub dequeue : State → Option String × State
  dequeue s = brpop queue_key s

  unfoldable pub queued_ids : State → List String
  queued_ids s = lrange queue_key s

  unfoldable pub acquire_lease : String → String → ℕ → State → Bool × State
  acquire_lease tid token ttl s = set_nx (lease_key tid) token ttl s

  unfoldable pub renew_lease : String → String → ℕ → State → Bool × State
  renew_lease tid token ttl s = elim (holds token (get (lease_key tid) s)) [
    | true ↦ expire (lease_key tid) ttl s
    | false ↦ (false, s)
  ]

  unfoldable pub release_lease : String → String → State → State
  release_lease tid token s = elim (holds token (get (lease_key tid) s)) [
    | true ↦ delete (lease_key tid) s
    | false ↦ s
  ]

  unfoldable pub lease_token : String → State → Option String
  lease_token tid s = get (lease_key tid) s

  unfoldable pub active_leases : State → ℕ
  active_leases s = length (scan "cap:lease:*" s)

  unfoldable pub publish_event : Event → State → State
  unfolding channel_for
  publish_event ev s = publish (channel_for ev.task_id) ev s

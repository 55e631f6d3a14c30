-- ===== src/Bus/Leases.antt =====
-- Leases of core/queuebus.py: who holds one, and what the other calls do to it.
use text.Mathlib.Text.{starts_with}
use text.Mathlib.TextPositions.{starts_with-append}
use text.Mathlib.TextLemmas.{append_cancel_left}
use cloudagentperform.Base.{
  ℕ, ◌≡◌, ◌≢◌, ap, sym, ◌⊎◌, inl, inr, String, Bool, true, false, Option, none, some, if◌then◌else◌,
  ◌==◌, ◌&&◌, subst, eq_iff, Bool-cases, Option-cases,
}
use cloudagentperform.Models.{Event}
use cloudagentperform.Redis.{Redis}
use cloudagentperform.Bus.{
  queue_key, lease_key, holds, enqueue, acquire_lease, renew_lease, release_lease, lease_token,
  publish_event,
}

pub lease_key-ne-queue_key : (tid : String) → lease_key tid ≢ queue_key
unfolding lease_key
lease_key-ne-queue_key tid e =
    cc (starts_with-append "cap:lease:" tid, ap (λ k. starts_with k "cap:lease:") e)

pub lease_key_injective : (i j : String) → lease_key i ≡ lease_key j → i ≡ j
unfolding lease_key
lease_key_injective i j = append_cancel_left "cap:lease:" i j

pub some_of_holds : (token : String) (o : Option String) → holds token o ≡ true → o ≡ some token
some_of_holds token none h = cc
some_of_holds token (some t) h = ap some ((eq_iff t token).0 h)

module _ (r : Redis) where
  open r use {State}

  pub lease_token-enqueue :
      (tid j : String) (s : State) → lease_token r tid (enqueue r j s) ≡ lease_token r tid s
  unfolding lease_token enqueue
  lease_token-enqueue tid j s =
      r.get-lpush (lease_key tid) queue_key j s (lease_key-ne-queue_key tid)

  pub lease_token-publish_event :
      (tid : String) (ev : Event) (s : State)
      → lease_token r tid (publish_event r ev s) ≡ lease_token r tid s
  unfolding lease_token publish_event
  lease_token-publish_event tid ev s = r.get-publish _ _ ev s

  leases_apart : {i j : String} → i ≢ j → lease_key i ≢ lease_key j
  leases_apart ne e = ne (lease_key_injective _ _ e)

  -- A lease is given exactly if there is none; it then carries the token that asked for it, and a
  -- refusal changes nothing.
  pub acquire_lease_lem :
      (tid token : String) (ttl : ℕ) (s : State)
      → ((lease_token r tid s ≡ none)
          × ((acquire_lease r tid token ttl s).0 ≡ true)
          × (lease_token r tid (acquire_lease r tid token ttl s).1 ≡ some token))
        ⊎ ((lease_token r tid s ≢ none) × (acquire_lease r tid token ttl s ≡ (false, s)))
  unfolding lease_token acquire_lease
  acquire_lease_lem tid token ttl s = elim (Option-cases (r.get (lease_key tid) s)) [
    | inl free ↦
        let (ok, held) = r.set_nx-free (lease_key tid) token ttl s free in inl (free, ok, held)
    | inr (w, taken) ↦ inr (λ e. cc (e, taken), r.set_nx-taken (lease_key tid) token w ttl s taken)
  ]

  -- Of two workers that ask one after the other, with nothing in between, the second is refused if
  -- the first got the lease.
  pub lease_exclusive :
      (tid first second : String) (ttl ttl' : ℕ) (s : State)
      → (acquire_lease r tid first ttl s).0 ≡ true
      → acquire_lease r tid second ttl' (acquire_lease r tid first ttl s).1
        ≡ (false, (acquire_lease r tid first ttl s).1)
  lease_exclusive tid first second ttl ttl' s h = elim (acquire_lease_lem tid first ttl s) [
    | inl (_, _, held) ↦
        unfold acquire_lease lease_token in r.set_nx-taken (lease_key tid) second first ttl' _ held
    | inr (_, refused) ↦ cc (h, ap (λ (p : Bool × State). p.0) refused)
  ]

  release-own :
      (tid token : String) (s : State)
      → lease_token r tid (release_lease r tid token s)
        ≡ (if holds token (lease_token r tid s) then none else lease_token r tid s)
  unfolding lease_token release_lease
  release-own tid token s = elim (Bool-cases (holds token (r.get (lease_key tid) s))) [
    | inl own ↦ rw (own, release_lease) (r.get-delete_self (lease_key tid) s)
    | inr foreign ↦ rw (foreign, release_lease)
  ]

  release-other :
      (tid token j : String) (s : State)
      → tid ≢ j
      → lease_token r j (release_lease r tid token s) ≡ lease_token r j s
  unfolding lease_token release_lease
  release-other tid token j s ne = elim (Bool-cases (holds token (r.get (lease_key tid) s))) [
    | inl own ↦
        rw (own, release_lease)
          (r.get-delete (lease_key j) (lease_key tid) s (leases_apart (λ e. ne (sym e))))
    | inr foreign ↦ rw (foreign, release_lease)
  ]

  -- A worker gives up its own lease and no other: of all leases, only the one of this task goes, and
  -- only if it carries the worker's token.
  pub release_lease_lem :
      (tid token j : String) (s : State)
      → lease_token r j (release_lease r tid token s)
        ≡ (if tid == j && holds token (lease_token r j s) then none else lease_token r j s)
  release_lease_lem tid token j s = elim (Bool-cases (tid == j)) [
    | inl this ↦ rw this (
        subst
          (λ i.
            lease_token r i (release_lease r tid token s)
            ≡ (if holds token (lease_token r i s) then none else lease_token r i s))
          ((eq_iff tid j).0 this) (release-own tid token s))
    | inr other ↦ rw other (release-other tid token j s (λ e. cc ((eq_iff tid j).1 e, other)))
  ]

  -- The heartbeat of a worker that has lost its lease is told so, and changes nothing.
  pub renew_lease_lost :
      (tid token : String) (ttl : ℕ) (s : State)
      → lease_token r tid s ≢ some token
      → renew_lease r tid token ttl s ≡ (false, s)
  unfolding lease_token renew_lease
  renew_lease_lost tid token ttl s h = elim (Bool-cases (holds token (r.get (lease_key tid) s))) [
    | inl own ↦ absurd (h (some_of_holds token (r.get (lease_key tid) s) own))
    | inr foreign ↦ rw (foreign, renew_lease)
  ]

-- ===== src/System/Attempts.antt =====
-- What an attempt writes (worker/attempt.py) are transactions.
use cloudagentperform.Base.{
  ◌≡◌, refl, sym, subst, ℕ, String, Option, none, some, List, [], ◌∷◌, Dict,
}
use cloudagentperform.Models.{Json, Task, Event}
use cloudagentperform.Store.Table.{Store, Result, ok, err}
use cloudagentperform.Store.{append_event, finish}
use cloudagentperform.Store.History.{emits, finishes, uses, exec, Emitted, emitted_type}
use cloudagentperform.Redis.{Redis}
use cloudagentperform.Reconcile.{World}
use cloudagentperform.Agent.Loop.{Outcome}
use cloudagentperform.Attempt.{spend, ending_of, emit, announced, settle, close}
use cloudagentperform.System.Follows.{Follows, stays, once, after}

module _ (r : Redis) (clock : String → ℕ → String) where
  open r use {State}

  announced-store :
      (p : Result Event × Store) (w : World State) → (announced r clock p w).1.store ≡ p.1
  announced-store (ok ev, s') w = refl
  announced-store (err e, s') w = refl

  pub emit-Follows :
      (t : Task) (kind : Emitted) (payload : Dict Json) (w : World State)
      → Follows w.store (emit r clock t (emitted_type kind) payload w).1.store
  unfolding emit exec
  emit-Follows t kind payload w =
      subst (Follows w.store)
        (sym (
          announced-store
            (append_event t.id t.attempt (emitted_type kind) (clock t.id 6) payload w.store) w))
        (once (emits t.id t.attempt kind (clock t.id 6) payload) w.store)

  spend-Follows :
      (tid : String) (usage : Dict ℕ) (now : String) (s : Store)
      → Follows s (spend tid usage now s).1
  unfolding spend exec
  spend-Follows tid [] now s = stays s
  spend-Follows tid (x ∷ usage) now s = once (uses tid (x ∷ usage) now) s

  close-store :
      (t : Task) (token : String) (p : Result (Option Event) × Store) (w : World State)
      → (close r clock t token p w).1.store ≡ p.1
  close-store t token (ok (some ev), s') w = refl
  close-store t token (ok none, s') w = refl
  close-store t token (err e, s') w = refl

  settled-Follows :
      (s : Store) (p : Result (Unit {0}) × Store) (w : World State)
      (rest : Result (Unit {0}) × World State)
      → Follows s p.1
      → Follows p.1 rest.1.store
      → let q : Result (Unit {0}) × World State = elim p.0 [
        | ok u ↦ rest
        | err e ↦ (err e, record w { store = p.1 })
      ] in
        Follows s q.1.store
  settled-Follows s (ok u, s') w rest h k = after s h k
  settled-Follows s (err e, s') w rest h k = h

  pub settle-Follows :
      (t : Task) (token : String) (o : Outcome) (artifacts : List String) (w : World State)
      → Follows w.store (settle r clock t token o artifacts w).1.store
  unfolding settle exec
  settle-Follows t token o artifacts w =
      let s' = (spend t.id o.usage (clock t.id 3) w.store).1 in
      settled-Follows w.store (spend t.id o.usage (clock t.id 3) w.store) w _
        (spend-Follows t.id o.usage (clock t.id 3) w.store)
        (subst (Follows s')
          (sym (
            close-store t token
              (finish t.id t.attempt (ending_of o artifacts) (clock t.id 4) (clock t.id 5) s') w))
          (once (finishes t.id t.attempt (ending_of o artifacts) (clock t.id 4) (clock t.id 5)) s'))

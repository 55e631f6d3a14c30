-- ===== src/System/Requests.antt =====
-- The handlers of api/main.py act on the database by transactions.
use cloudagentperform.Base.{
  ◌≡◌, refl, sym, subst, inl, inr, Bool, true, false, ℕ, String, Option, none, some, List,
  Bool-cases, Option-cases,
}
use cloudagentperform.Models.{Task, Event, is_terminal}
use cloudagentperform.Store.Table.{Store, Result, ok, err}
use cloudagentperform.Store.{get, create_task, cancel_queued}
use cloudagentperform.Store.History.{Txn, creates, cancels, requests, exec, run}
use cloudagentperform.Redis.{Redis}
use cloudagentperform.Reconcile.{World}
use cloudagentperform.Api.{created, cancelling, post_task, cancel_task}
use cloudagentperform.System.Follows.{Follows, stays, once, after}

module _ (r : Redis) (clock : String → ℕ → String) where
  open r use {State}

  pub post_task-Follows :
      (tid now prompt : String) (key : Option String) (w : World State)
      → Follows w.store (post_task r tid now prompt key w).1.store
  unfolding post_task exec
  post_task-Follows tid now prompt key w =
      subst (Follows w.store) (sym (created-store (create_task tid now prompt key 2 w.store)))
        (once (creates tid now prompt key 2) w.store)
    where
      created-store : (p : Result (Task × Bool) × Store) → (created r p w).1.store ≡ p.1
      created-store (ok (t, true), s') = refl
      created-store (ok (t, false), s') = refl
      created-store (err e, s') = refl

  cancelling-Follows :
      (meanwhile : List Txn) (tid : String) (t : Task) (now : String)
      (p : Result (Option Event) × Store) (w : World State)
      → Follows p.1 (cancelling r meanwhile tid t now p w).1.store
  unfolding exec
  cancelling-Follows meanwhile tid t now (ok (some ev), s') w = stays s'
  cancelling-Follows meanwhile tid t now (ok none, s') w =
      after s' (meanwhile, refl) (once (requests tid now) (run meanwhile s'))
  cancelling-Follows meanwhile tid t now (err e, s') w = stays s'

  pub cancel_task-Follows :
      (tid now ts : String) (first second : List Txn) (w : World State)
      → Follows w.store (cancel_task r tid now ts first second w).1.store
  unfolding cancel_task exec
  cancel_task-Follows tid now ts first second w = elim (Option-cases (get tid w.store)) [
    | inl e ↦ rw (e, cancel_task) (stays w.store)
    | inr (t, e) ↦
        rw (e, cancel_task)
          (elim (Bool-cases (is_terminal t.status)) [
            | inl over ↦ rw over (stays w.store)
            | inr live ↦ rw live (
                after w.store (first, refl)
                  (after (run first w.store) (once (cancels tid now ts) (run first w.store)) (
                    cancelling-Follows second tid t now
                      (cancel_queued tid now ts (run first w.store)) w)))
          ])
  ]

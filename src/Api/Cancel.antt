-- ===== src/Api/Cancel.antt =====
-- POST /tasks/{task_id}/cancel of api/main.py among rival workers.
use cloudagentperform.Base.{
  ◌≡◌, refl, sym, subst, ◌∙◌, inl, inr, String, true, false, Option, some, List, ◌||◌, Bool-cases,
  or_true,
}
use cloudagentperform.Models.{is_terminal, cancelled, r_cancelled, Task, Event}
use cloudagentperform.Store.Table.{Store}
use cloudagentperform.Store.Rows.{Unique, on_row}
use cloudagentperform.Store.{get, cancel_queued, waits, ended, request_cancel, is_live, flagged}
use cloudagentperform.Store.Claim.{get-update_self}
use cloudagentperform.Store.Endings.{ending, cancel_queued-ending}
use cloudagentperform.Store.History.{Txn, run}
use cloudagentperform.Store.History.Distinct.{run-Unique}
use cloudagentperform.Store.History.Races.{attempt-run}
use cloudagentperform.Redis.{Redis}
use cloudagentperform.Reconcile.{World}
use cloudagentperform.Api.{cancelling, cancel_task}

-- The row of a task that has ended or that its worker is told to stop.
abbrev pub IsSettled : Option Task → Type 0
IsSettled o = (t : Task) × (o ≡ some t) × ((is_terminal t.status || t.cancel_requested) ≡ true)

flagged-IsSettled : (now : String) (t : Task) → IsSettled (on_row is_live (flagged now) (some t))
flagged-IsSettled now t = elim (Bool-cases (is_terminal t.status)) [
  | inl over ↦ rw over (t, refl, rw over)
  | inr live ↦ rw live (flagged now t, refl, or_true (is_terminal t.status))
]

request_cancel-IsSettled :
    (tid now : String) (s : Store) {t : Task}
    → get tid s ≡ some t
    → IsSettled (get tid (request_cancel tid now s).1)
unfolding request_cancel
request_cancel-IsSettled tid now s {t} h =
    rw (get-update_self tid is_live (flagged now) s (λ r. refl), h) (flagged-IsSettled now t)

module _ (r : Redis) where
  open r use {State}

  ended-IsSettled :
      (tid now : String) (second : List Txn) (w : World State) (s : Store) (t : Task) (ev : Event)
      {t₁ : Task}
      → get tid s ≡ some t₁
      → waits t₁ ≡ true
      → IsSettled (
          get tid
            (cancelling r second tid t now
              (ending tid waits (ended cancelled r_cancelled now) ev s)
              w).1.store)
  unfolding get
  ended-IsSettled tid now second w s t ev {t₁} h queued =
      rw (h, queued, cancelling)
        (
          ended cancelled r_cancelled now t₁,
          get-update_self tid waits (ended cancelled r_cancelled now) s (λ x. refl)
              ∙ (rw (h, queued)),
          refl,
        )

  busy-IsSettled :
      (tid now : String) (second : List Txn) (w : World State) (s : Store) (t : Task) (ev : Event)
      {t₁ : Task}
      → Unique s.tasks
      → get tid s ≡ some t₁
      → waits t₁ ≡ false
      → IsSettled (
          get tid
            (cancelling r second tid t now
              (ending tid waits (ended cancelled r_cancelled now) ev s)
              w).1.store)
  unfolding get
  busy-IsSettled tid now second w s t ev {t₁} u h busy =
      let (t₂, found, _) = attempt-run second tid s {t = t₁} u h in
      rw (h, busy, cancelling) (request_cancel-IsSettled tid now (run second s) {t = t₂} found)

  cancelling-IsSettled :
      (tid now ts : String) (second : List Txn) (w : World State) (s : Store) (t : Task) {t₁ : Task}
      → Unique s.tasks
      → get tid s ≡ some t₁
      → IsSettled (get tid (cancelling r second tid t now (cancel_queued tid now ts s) w).1.store)
  cancelling-IsSettled tid now ts second w s t {t₁} u h = elim (Bool-cases (waits t₁)) [
    | inl queued ↦
        subst (λ p. IsSettled (get tid (cancelling r second tid t now p w).1.store))
          (sym (cancel_queued-ending tid now ts s u))
          (ended-IsSettled tid now second w s t _ h queued)
    | inr busy ↦
        subst (λ p. IsSettled (get tid (cancelling r second tid t now p w).1.store))
          (sym (cancel_queued-ending tid now ts s u))
          (busy-IsSettled tid now second w s t _ u h busy)
  ]

  -- A cancel of a task that exists, with distinct ids, leaves the task ended or with the flag that its
  -- worker obeys, whatever other processes run between the handler's calls of the store.
  pub cancel_task-IsSettled :
      (tid now ts : String) (first second : List Txn) (w : World State) {t : Task}
      → Unique w.store.tasks
      → get tid w.store ≡ some t
      → IsSettled (get tid (cancel_task r tid now ts first second w).1.store)
  unfolding cancel_task
  cancel_task-IsSettled tid now ts first second w {t} u h =
      elim (Bool-cases (is_terminal t.status)) [
        | inl over ↦ rw (h, over, cancel_task) (t, h, rw over)
        | inr live ↦
            let (t₁, found, _) = attempt-run first tid w.store {t = t} u h in
            rw (h, live, cancel_task)
              (cancelling-IsSettled tid now ts second w (run first w.store) t {t₁ = t₁}
                (run-Unique first w.store u) found)
      ]

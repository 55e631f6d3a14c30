-- ===== src/Store/Claim.antt =====
-- `claim` of core/store.py on every branch.
use cloudagentperform.Base.{
  ◌+◌, ◌<◌, ◌≤◌, ◌≡◌, ◌≢◌, ◌⊎◌, ◌==◌, refl, ap, String, Bool, true, false, Option, none, some, inl,
  inr, if◌then◌else◌, arith, Bool-cases, Option-cases, eq_iff, eq_refl, subst,
}
use cloudagentperform.Models.{
  Status, queued, running, succeeded, failed, cancelled, is_queued, Task,
}
use cloudagentperform.Store.Table.{Store, select_id, update_rows, matching, update_tasks}
use cloudagentperform.Store.Rows.{
  Unique, hits, on_row, rowcount-hits, update_tasks_miss, select_id-update_rows,
}
use cloudagentperform.Store.{claim, claimed, claimable, get}

update_rows_same :
    (tid worker now : String) (s : Store)
    → Unique s.tasks
    → hits claimable (select_id tid s.tasks) ≡ false
    → update_rows (matching tid claimable) (claimed worker now) s.tasks ≡ s.tasks
unfolding update_tasks
update_rows_same tid worker now s u miss =
    ap (λ (r : Store). r.tasks) (update_tasks_miss tid claimable (claimed worker now) s u miss)

-- With distinct ids, `claim` takes the row exactly if it is queued and has an attempt left, and
-- otherwise changes nothing.
pub claim_lem :
    (tid worker now : String) (s : Store)
    → Unique s.tasks
    → claim tid worker now s ≡ (
        if hits claimable (get tid s)
        then (
          on_row claimable (claimed worker now) (get tid s),
          update_tasks tid claimable (claimed worker now) s,
        )
        else (none, s))
unfolding claim get update_tasks
claim_lem tid worker now s u = elim (Bool-cases (hits claimable (select_id tid s.tasks))) [
  | inl hit ↦ rw (
    rowcount-hits tid claimable s u,
    hit,
    select_id-update_rows (claimed worker now) (λ t. refl) tid tid claimable s.tasks,
    eq_refl tid,
  )
  | inr miss ↦ rw (rowcount-hits tid claimable s u, miss, update_rows_same tid worker now s u miss)
]

-- The row after a claim that took it.
pub get-update_self :
    (tid : String) (guard : Task → Bool) (f : Task → Task) (s : Store)
    → ((t : Task) → (f t).id ≡ t.id)
    → get tid (update_tasks tid guard f s) ≡ on_row guard f (get tid s)
unfolding get update_tasks
get-update_self tid guard f s same =
    rw (select_id-update_rows f same tid tid guard s.tasks, eq_refl tid)

-- There is no row, or it is not queued, or its attempts are used up.
abbrev pub IsUnclaimable : Option Task → Type 0
IsUnclaimable none = Unit
IsUnclaimable (some t) = (t.status ≢ queued) ⊎ (t.max_attempts ≤ t.attempt)

not-claimable : (o : Option Task) → hits claimable o ≡ false → IsUnclaimable o
not-claimable none h = tt
not-claimable (some t) h = elim (Bool-cases (is_queued t.status)) [
  | inl q ↦ inr (ground (arith, q, h))
  | inr n ↦ inl (λ e. cc (ap is_queued e, n))
]

queued_lem : (x : Status) → is_queued x ≡ true → x ≡ queued
queued_lem queued h = refl
queued_lem running h = cc h
queued_lem succeeded h = cc h
queued_lem failed h = cc h
queued_lem cancelled h = cc h

-- A claim that took the row of `t`.
pub record Taken (tid worker now : String) (s : Store) (t : Task) : Type 0 where
  pub row : get tid s ≡ some t
  pub was_queued : t.status ≡ queued
  pub left : t.attempt < t.max_attempts
  pub result :
      (claim tid worker now s).0
      ≡ some (record t {
        status = running;
        attempt = t.attempt + 1;
        worker_id = some worker;
        updated_at = now;
      })
  pub rows :
      (j : String)
      → get j (claim tid worker now s).1
        ≡ (if tid == j then (claim tid worker now s).0 else get j s)
  pub events : (claim tid worker now s).1.events ≡ s.events

get-update_tasks :
    (tid j worker now : String) (s : Store)
    → get j (update_tasks tid claimable (claimed worker now) s)
      ≡ (if tid == j then on_row claimable (claimed worker now) (get j s) else get j s)
unfolding get update_tasks
get-update_tasks tid j worker now s =
    select_id-update_rows (claimed worker now) (λ t. refl) tid j claimable s.tasks

-- The rows that a claim of `t` leaves.
claimed-rows :
    (tid j worker now : String) (s : Store) (t : Task)
    → get tid s ≡ some t
    → claimable t ≡ true
    → get j (update_tasks tid claimable (claimed worker now) s)
      ≡ (if tid == j then some (claimed worker now t) else get j s)
claimed-rows tid j worker now s t e free =
    rw (get-update_tasks tid j worker now s) (elim (Bool-cases (tid == j)) [
      | inl same ↦ rw same (
          subst (λ i. on_row claimable (claimed worker now) (get i s) ≡ some (claimed worker now t))
            ((eq_iff tid j).0 same) (rw (e, free) refl))
      | inr other ↦ rw other refl
    ])

claim-Taken :
    (tid worker now : String) (s : Store) (t : Task)
    → Unique s.tasks
    → get tid s ≡ some t
    → claimable t ≡ true
    → Taken tid worker now s t
claim-Taken tid worker now s t u e free =
    let done = claim_lem tid worker now s u in
    record {
      row = e;
      was_queued = queued_lem t.status (ground (arith, free));
      left = ground (arith, free);
      result = rw (done, e, free) refl;
      rows = λ j. rw (done, e, free) (claimed-rows tid j worker now s t e free);
      events = rw (done, e, free) (unfold update_tasks in refl);
    }

-- With distinct ids, `claim` either takes the row with the id, which is queued and has an attempt left: it
-- returns that row as running, with one attempt more, the worker and the time, and stores it, and leaves
-- the other rows and the events as they are. Or there is no such row, or it is not queued, or its attempts
-- are used up; then it returns None and changes nothing.
pub claim_cases :
    (tid worker now : String) (s : Store)
    → Unique s.tasks
    → ((t : Task) × Taken tid worker now s t)
      ⊎ ((claim tid worker now s ≡ (none, s)) × IsUnclaimable (get tid s))
claim_cases tid worker now s u = elim (Bool-cases (hits claimable (get tid s))) [
  | inl hit ↦ elim (Option-cases (get tid s)) [
    | inl e ↦ absurd (ground (arith, hit, e))
    | inr (t, e) ↦ inl (t, claim-Taken tid worker now s t u e (ground (arith, hit, e)))
  ]
  | inr miss ↦ inr (rw (claim_lem tid worker now s u, miss) refl, not-claimable (get tid s) miss)
]

-- A claim that succeeds counts the attempt, and the row then holds what it returned.
pub claim_attempt :
    (tid worker now : String) (s : Store) {t' : Task}
    → Unique s.tasks
    → (claim tid worker now s).0 ≡ some t'
    → (t : Task) × (get tid s ≡ some t)
      × (t'.attempt ≡ t.attempt + 1)
      × (get tid (claim tid worker now s).1 ≡ some t')
claim_attempt tid worker now s {t'} u h = elim (Option-cases (get tid s)) [
  | inl e ↦ absurd (ground (arith, claim_lem tid worker now s u))
  | inr (t, e) ↦ (
    t,
    e,
    ground (arith, claim_lem tid worker now s u),
    ground (
      arith,
      claim_lem tid worker now s u,
      get-update_self tid claimable (claimed worker now) s (λ r. refl),
    ),
  )
]

pub claim_running :
    (tid worker now : String) (s : Store) {t : Task}
    → Unique s.tasks
    → (claim tid worker now s).0 ≡ some t
    → t.status ≡ running
claim_running tid worker now s {t} u h = elim (Option-cases (get tid s)) [
  | inl e ↦ absurd (ground (arith, claim_lem tid worker now s u))
  | inr (r, e) ↦ ground (arith, claim_lem tid worker now s u)
]

-- A claim that fails has written nothing.
pub claim_failed :
    (tid worker now : String) (s : Store)
    → Unique s.tasks
    → (claim tid worker now s).0 ≡ none
    → (claim tid worker now s).1 ≡ s
claim_failed tid worker now s u h = elim (Option-cases (get tid s)) [
  | inl e ↦ ground (arith, claim_lem tid worker now s u)
  | inr (r, e) ↦ ground (arith, claim_lem tid worker now s u)
]

-- ===== src/Store/History/Races.antt =====
-- What rival workers and the API can do to one task (worker/attempt.py, worker/main.py and
-- worker/reconcile.py all go through the conditional writes of core/store.py).
use cloudagentperform.Base.{
  ℕ, ◌≤◌, ◌<◌, ◌≡◌, refl, ap, ◌∙◌, inl, inr, String, true, false, Option, none, some, List, [], ◌∷◌,
  arith, Bool-cases, Option-cases, subst,
}
use cloudagentperform.Models.{is_terminal, Task, Event}
use cloudagentperform.Store.Table.{Store, ok, init, select_id}
use cloudagentperform.Store.Rows.{Unique}
use cloudagentperform.Store.{get, claim, finish, Ending, runs_attempt, finished}
use cloudagentperform.Store.Claim.{claim_attempt, get-update_self}
use cloudagentperform.Store.Endings.{finish-ending}
use cloudagentperform.Store.History.{Txn, claims, finishes, exec, run}
use cloudagentperform.Store.History.Moves.{
  SameRun, Edge, touch, start, give_back, close, withdraw, Move, absent, enter, edge,
}
use cloudagentperform.Store.History.Distinct.{exec-Unique, run-Unique}
use cloudagentperform.Store.History.Edges.{exec-Moves}

SameRun-refl : (t : Task) → SameRun t t
SameRun-refl t = record {
  id = refl;
  status = refl;
  attempt = refl;
  max_attempts = refl;
  failure_reason = refl;
  result_summary = refl;
}

SameRun-trans : {t r v : Task} → SameRun t r → SameRun r v → SameRun t v
SameRun-trans h k = record {
  id = k.id ∙ h.id;
  status = k.status ∙ h.status;
  attempt = k.attempt ∙ h.attempt;
  max_attempts = k.max_attempts ∙ h.max_attempts;
  failure_reason = k.failure_reason ∙ h.failure_reason;
  result_summary = k.result_summary ∙ h.result_summary;
}

-- A `finish` that logs an event leaves a row that has ended.
finish_ends :
    (tid : String) (attempt : ℕ) (e : Ending) (now ts : String) (s : Store) {ev : Event}
    → Unique s.tasks
    → (finish tid attempt e now ts s).0 ≡ ok (some ev)
    → (t : Task) × (get tid (finish tid attempt e now ts s).1 ≡ some t)
      × (is_terminal t.status ≡ true)
unfolding get
finish_ends tid attempt e now ts s u h = elim (Bool-cases (is_terminal e.status)) [
  | inl final ↦
      let f = finished e.status e.reason e.summary now in
      let q = finish-ending tid attempt e now ts s u final in
      elim (Option-cases (select_id tid s.tasks)) [
        | inl missing ↦ absurd (ground (arith, q))
        | inr (t, found) ↦ elim (Bool-cases (runs_attempt attempt t)) [
          | inl pass ↦ (
            f t,
            ground (arith, q, get-update_self tid (runs_attempt attempt) f s (λ r. refl)),
            final,
          )
          | inr fail ↦ absurd (ground (arith, q))
        ]
      ]
  | inr live ↦ absurd (unfold finish in ground arith)
]

not_running :
    (attempt : ℕ) (t : Task) → is_terminal t.status ≡ true → runs_attempt attempt t ≡ false
not_running attempt t h = ground arith

-- A row that has ended is not finished again.
finish_of_end :
    (tid : String) (attempt : ℕ) (e : Ending) (now ts : String) (s : Store) {t : Task}
    → Unique s.tasks
    → is_terminal e.status ≡ true
    → get tid s ≡ some t
    → is_terminal t.status ≡ true
    → finish tid attempt e now ts s ≡ (ok none, s)
unfolding get
finish_of_end tid attempt e now ts s {t} u final read over =
    rw (finish-ending tid attempt e now ts s u final, read, not_running attempt t over)

Edge_of_end : (t t' : Task) (n : ℕ) → Edge t t' n → is_terminal t.status ≡ true → SameRun t t'
Edge_of_end t t' n (touch same z) h = same
Edge_of_end t t' n (start q r _ _ _ z) h = absurd (ground arith)
Edge_of_end t t' n (give_back r q _ _ z) h = absurd (ground arith)
Edge_of_end t t' n (close l e _ _ o) h = absurd (ground arith)
Edge_of_end t t' n (withdraw l e _ _ o) h = absurd (ground arith)

Move-of_end :
    (t : Task) (a b : Option Task) (n : ℕ)
    → Move a b n
    → a ≡ some t
    → is_terminal t.status ≡ true
    → (t' : Task) × (b ≡ some t') × SameRun t t'
Move-of_end t a b n (absent x y z) e h = cc
Move-of_end t a b n (enter r x y _ _ _) e h = cc
Move-of_end t a b n (edge r t' x y i ed) e h = (
  t',
  y,
  subst (λ (v : Task). SameRun v t') (ground arith) (Edge_of_end r t' n ed (ground arith)),
)

end_is_final_from :
    (xs : List Txn) (j : String) (s : Store) {t : Task}
    → Unique s.tasks
    → get j s ≡ some t
    → is_terminal t.status ≡ true
    → (t' : Task) × (get j (run xs s) ≡ some t') × SameRun t t'
unfolding run get
end_is_final_from [] j s {t} u e h = (t, e, SameRun-refl t)
end_is_final_from (x ∷ xs) j s {t} u e h =
    let (n, _, move) = exec-Moves x s u j in
    let (r, e', same) = Move-of_end t _ _ n move e h in
    let (t', e'', same') =
      end_is_final_from xs j (exec x s) {t = r} (exec-Unique x s u) e'
        (ap is_terminal same.status ∙ h) in
    (t', e'', SameRun-trans same same')

-- Once a history has ended a task, no transaction that runs afterwards changes its status, its
-- reason, its summary or its attempt, or removes it.
pub end_is_final :
    (before after : List Txn) (j : String) {t : Task}
    → get j (run before init) ≡ some t
    → is_terminal t.status ≡ true
    → (t' : Task) × (get j (run after (run before init)) ≡ some t') × SameRun t t'
end_is_final before after j e h =
    end_is_final_from after j (run before init) (run-Unique before init tt) e h

Edge-attempt : (t t' : Task) (n : ℕ) → Edge t t' n → t.attempt ≤ t'.attempt
Edge-attempt t t' n (touch same z) = omega arith
Edge-attempt t t' n (start _ _ _ a _ _) = omega arith
Edge-attempt t t' n (give_back _ _ a _ _) = omega arith
Edge-attempt t t' n (close _ _ a _ _) = omega arith
Edge-attempt t t' n (withdraw _ _ a _ _) = omega arith

Move-attempt :
    (t : Task) (a b : Option Task) (n : ℕ)
    → Move a b n
    → a ≡ some t
    → (t' : Task) × (b ≡ some t') × (t.attempt ≤ t'.attempt)
Move-attempt t a b n (absent x y z) e = cc
Move-attempt t a b n (enter r x y _ _ _) e = cc
Move-attempt t a b n (edge r t' x y i ed) e = (t', y, ground (arith, Edge-attempt r t' n ed))

pub attempt-run :
    (xs : List Txn) (j : String) (s : Store) {t : Task}
    → Unique s.tasks
    → get j s ≡ some t
    → (t' : Task) × (get j (run xs s) ≡ some t') × (t.attempt ≤ t'.attempt)
unfolding run get
attempt-run [] j s {t} u e = (t, e, omega arith)
attempt-run (x ∷ xs) j s {t} u e =
    let (n, _, move) = exec-Moves x s u j in
    let (r, e', le) = Move-attempt t _ _ n move e in
    let (t', e'', le') = attempt-run xs j (exec x s) {t = r} (exec-Unique x s u) e' in
    (t', e'', omega arith)

-- No attempt number of a task is handed out twice: of two claims that succeed, with any
-- transactions between them, the later one returns the larger attempt.
pub claims_increase :
    (before between : List Txn) (tid worker worker' now now' : String) {t t' : Task}
    → (claim tid worker now (run before init)).0 ≡ some t
    → (claim tid worker' now' (run between (claim tid worker now (run before init)).1)).0 ≡ some t'
    → t.attempt < t'.attempt
claims_increase before between tid worker worker' now now' {t} {t'} first second =
    let s = run before init in
    let u = run-Unique before init tt in
    let s' = (claim tid worker now s).1 in
    let u' : Unique s'.tasks = unfold exec in exec-Unique (claims tid worker now) s u in
    let (_, _, _, read) = claim_attempt tid worker now s u first in
    let (r, e, le) = attempt-run between tid s' {t = t} u' read in
    let (r', e', count, _) =
      claim_attempt tid worker' now' (run between s') (run-Unique between s' u') second in
    ground arith

-- A task ends once: after a `finish` that wrote, each later `finish` of the task with a terminal
-- status, by whatever worker and for whatever attempt, returns nothing and changes nothing.
pub finish_once :
    (before between : List Txn) (tid : String) (a b : ℕ) (e e' : Ending) (now now' ts ts' : String)
    {ev : Event}
    → (finish tid a e now ts (run before init)).0 ≡ ok (some ev)
    → is_terminal e'.status ≡ true
    → finish tid b e' now' ts' (run between (finish tid a e now ts (run before init)).1)
      ≡ (ok none, run between (finish tid a e now ts (run before init)).1)
finish_once before between tid a b e e' now now' ts ts' {ev} first final =
    let s = run before init in
    let u = run-Unique before init tt in
    let s' = (finish tid a e now ts s).1 in
    let u' : Unique s'.tasks = unfold exec in exec-Unique (finishes tid a e now ts) s u in
    let (t, read, over) = finish_ends tid a e now ts s u first in
    let (t', read', same) = end_is_final_from between tid s' {t = t} u' read over in
    finish_of_end tid b e' now' ts' (run between s') (run-Unique between s' u') final read'
      (ap is_terminal same.status ∙ over)

-- ===== src/Store/History/Ends.antt =====
-- A task along a history of core/store.py: its terminal event and its attempts.
use cloudagentperform.Base.{
  ℕ, ◌+◌, ◌≤◌, ◌≡◌, refl, String, Option, none, some, List, [], ◌∷◌, if◌then◌else◌, arith,
}
use cloudagentperform.Models.{is_terminal, Task}
use cloudagentperform.Store.Table.{Store, init, select_id}
use cloudagentperform.Store.Rows.{Unique}
use cloudagentperform.Store.{get}
use cloudagentperform.Store.History.{Txn, exec, run}
use cloudagentperform.Store.History.Moves.{
  Edge, touch, start, give_back, close, withdraw, Move, absent, enter, edge, ends_of,
}
use cloudagentperform.Store.History.Distinct.{exec-Unique}
use cloudagentperform.Store.History.Edges.{exec-Moves}

-- 1 for a row that has ended.
abbrev pub terminals : Option Task → ℕ
terminals none = 0
terminals (some t) = if is_terminal t.status then 1 else 0

Edge-terminals : (t t' : Task) (n : ℕ) → Edge t t' n → terminals (some t') ≡ terminals (some t) + n
Edge-terminals t t' n (touch same z) = rw (same.status, z) (omega arith)
Edge-terminals t t' n (start q r _ _ _ z) = rw (q, r, z) (omega arith)
Edge-terminals t t' n (give_back r q _ _ z) = rw (q, r, z) (omega arith)
Edge-terminals t t' n (close l e _ _ o) = rw (l, e, o) (omega arith)
Edge-terminals t t' n (withdraw l e _ _ o) = rw (l, e, o) (omega arith)

Move-terminals : (a b : Option Task) (n : ℕ) → Move a b n → terminals b ≡ terminals a + n
Move-terminals a b n (absent x y z) = rw (x, y, z) (omega arith)
Move-terminals a b n (enter t x y q _ z) = rw (x, y, z, q) (omega arith)
Move-terminals a b n (edge t t' x y _ e) = rw (x, y) (Edge-terminals t t' n e)

ends-run_from :
    (j : String) (xs : List Txn) (s : Store)
    → Unique s.tasks
    → ends_of j s ≡ terminals (get j s)
    → ends_of j (run xs s) ≡ terminals (get j (run xs s))
unfolding run get
ends-run_from j [] s u h = h
ends-run_from j (x ∷ xs) s u h =
    let (n, ends, move) = exec-Moves x s u j in
    ends-run_from j xs (exec x s) (exec-Unique x s u)
      (unfold get in omega (arith, ends, h, Move-terminals _ _ n move))

-- Whatever transactions have run, in any order, a task has exactly one terminal event if its status
-- is terminal, and none while it is queued or running or does not exist.
pub ends-run :
    (xs : List Txn) (j : String) → ends_of j (run xs init) ≡ terminals (get j (run xs init))
unfolding get select_id
ends-run xs j = ends-run_from j xs init tt refl

-- The attempts of a row stay within its limit.
abbrev pub IsWithin : Option Task → Type 0
IsWithin none = Unit
IsWithin (some t) = t.attempt ≤ t.max_attempts

Edge-IsWithin :
    (t t' : Task) (n : ℕ) → Edge t t' n → t.attempt ≤ t.max_attempts → t'.attempt ≤ t'.max_attempts
Edge-IsWithin t t' n (touch same _) h = omega arith
Edge-IsWithin t t' n (start _ _ l a m _) h = omega arith
Edge-IsWithin t t' n (give_back _ _ a m _) h = omega arith
Edge-IsWithin t t' n (close _ _ a m _) h = omega arith
Edge-IsWithin t t' n (withdraw _ _ a m _) h = omega arith

Move-IsWithin : (a b : Option Task) (n : ℕ) → Move a b n → IsWithin a → IsWithin b
Move-IsWithin a b n (absent x y _) h = rw y tt
Move-IsWithin a b n (enter t x y _ z _) h = rw (y, z) (omega arith)
Move-IsWithin a b n (edge t t' x y _ e) h = rw y (Edge-IsWithin t t' n e (rw x at h))

IsWithin-run_from :
    (j : String) (xs : List Txn) (s : Store)
    → Unique s.tasks
    → IsWithin (get j s)
    → IsWithin (get j (run xs s))
unfolding run get
IsWithin-run_from j [] s u h = h
IsWithin-run_from j (x ∷ xs) s u h =
    let (n, _, move) = exec-Moves x s u j in
    IsWithin-run_from j xs (exec x s) (exec-Unique x s u) (Move-IsWithin _ _ n move h)

-- No history takes a task past its `max_attempts`.
pub attempt-le-max_attempts :
    (xs : List Txn) (j : String) {t : Task}
    → get j (run xs init) ≡ some t
    → t.attempt ≤ t.max_attempts
unfolding get select_id
attempt-le-max_attempts xs j {t} h = rw h at (IsWithin-run_from j xs init tt tt)

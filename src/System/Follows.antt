-- ===== src/System/Follows.antt =====
-- One state of the database comes from another by transactions of core/store.py.
use cloudagentperform.Base.{◌≡◌, refl, sym, ap, ◌∙◌, List, [], ◌∷◌, ◌++◌}
use cloudagentperform.Store.Table.{Store}
use cloudagentperform.Store.History.{Txn, exec, run}

-- The second state of the database comes from the first by transactions.
abbrev pub Follows : Store → Store → Type 0
Follows s s' = (h : List Txn) × (s' ≡ run h s)

run-append : (xs ys : List Txn) (s : Store) → run (xs ++ ys) s ≡ run ys (run xs s)
unfolding run
run-append [] ys s = refl
run-append (x ∷ xs) ys s = run-append xs ys (exec x s)

pub stays : (s : Store) → Follows s s
unfolding run
stays s = ([], refl)

pub once : (x : Txn) (s : Store) → Follows s (exec x s)
unfolding run
once x s = (x ∷ [], refl)

pub after : (s : Store) {s' s'' : Store} → Follows s s' → Follows s' s'' → Follows s s''
after s (h, e) (k, f) = (h ++ k, f ∙ (ap (run k) e ∙ sym (run-append h k s)))

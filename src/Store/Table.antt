-- ===== src/Store/Table.antt =====
-- The SQL statements of core/store.py on the rows of the table `tasks`, in the order of their row
-- ids, and of the table `events`. UPDATE changes each row that passes its WHERE clause.
use cloudagentperform.Base.{
  ℕ, String, Bool, false, Option, none, some, List, [], ◌∷◌, ◌&&◌, ◌||◌, ◌==◌, if◌then◌else◌, leb,
  count_if,
}
use cloudagentperform.Models.{Task, Event}

pub record Store : Type 0 where
  pub tasks : List Task
  pub events : List Event
  -- what AUTOINCREMENT keeps: the largest id that was ever given
  pub last_id : ℕ

abbrev pub init : Store
init = record { tasks = []; events = []; last_id = 0 }

-- The exceptions of the methods: a UNIQUE or PRIMARY KEY clash, a failed `assert`, and a subscript
-- of the `None` that `fetchone` returned.
pub data StoreError : Type 0 where
  integrity_error assertion_error type_error : StoreError

pub data Result {ℓ} (A : Type ℓ) : Type ℓ where
  ok : A → Result A
  err : StoreError → Result A

-- `SELECT * FROM tasks WHERE id=?`, then `fetchone`.
unfoldable pub select_id : String → List Task → Option Task
select_id tid [] = none
select_id tid (t ∷ ts) = if t.id == tid then some t else select_id tid ts

abbrev pub has_key : String → Option String → Bool
has_key k none = false
has_key k (some j) = j == k

-- `SELECT * FROM tasks WHERE idempotency_key=?`, then `fetchone`.
unfoldable pub select_key : String → List Task → Option Task
select_key k [] = none
select_key k (t ∷ ts) = if has_key k t.idempotency_key then some t else select_key k ts

-- `UPDATE tasks SET … WHERE id=? AND …`: the rows after it, and `cur.rowcount`.
unfoldable pub update_rows : (Task → Bool) → (Task → Task) → List Task → List Task
update_rows p f [] = []
update_rows p f (t ∷ ts) = (if p t then f t else t) ∷ update_rows p f ts

-- The UNIQUE columns: equal keys clash, and NULL clashes with nothing.
abbrev pub keys_clash : Option String → Option String → Bool
keys_clash none k = false
keys_clash (some j) none = false
keys_clash (some j) (some k) = j == k

abbrev pub clashes : Task → Task → Bool
clashes row t = t.id == row.id || keys_clash t.idempotency_key row.idempotency_key

-- `ORDER BY id`
unfoldable pub insert_by_id : Event → List Event → List Event
insert_by_id e [] = e ∷ []
insert_by_id e (x ∷ xs) = if leb e.id x.id then e ∷ x ∷ xs else x ∷ insert_by_id e xs

unfoldable pub order_by_id : List Event → List Event
unfolding insert_by_id
order_by_id [] = []
order_by_id (e ∷ es) = insert_by_id e (order_by_id es)

-- `UPDATE tasks SET … WHERE id=? AND …`, with the rest of the clause as a guard.
unfoldable pub matching : String → (Task → Bool) → Task → Bool
matching tid guard t = t.id == tid && guard t

unfoldable pub update_tasks : String → (Task → Bool) → (Task → Task) → Store → Store
unfolding matching
update_tasks tid guard f s = record s { tasks = update_rows (matching tid guard) f s.tasks }

unfoldable pub rowcount : String → (Task → Bool) → Store → ℕ
unfolding matching
rowcount tid guard s = count_if (matching tid guard) s.tasks

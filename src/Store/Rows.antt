-- ===== src/Store/Rows.antt =====
-- What a conditional UPDATE of core/store.py does to the row of each task: the lemmas about
-- `select_id`, `update_rows` and the row count that the proofs of the methods share.
use cloudagentperform.Base.{
  ◌≡◌, refl, inl, inr, String, Bool, false, Option, none, some, List, [], ◌∷◌, ◌++◌, ◌==◌,
  if◌then◌else◌, nat_eq, count_if, arith, eq_iff, any, Bool-cases,
}
use cloudagentperform.Models.{Task}
use cloudagentperform.Store.Table.{
  Store, select_id, update_rows, matching, update_tasks, rowcount, clashes,
}

-- The effect of `SET …` under a guard on one row.
abbrev pub on_row : (Task → Bool) → (Task → Task) → Option Task → Option Task
on_row guard f none = none
on_row guard f (some t) = if guard t then some (f t) else some t

abbrev pub hits : (Task → Bool) → Option Task → Bool
hits guard none = false
hits guard (some t) = guard t

-- No two rows have one id.
abbrev pub Unique : List Task → Type 0
Unique [] = Unit
Unique (t ∷ ts) = (select_id t.id ts ≡ none) × Unique ts

module _ (f : Task → Task) (same_id : (t : Task) → (f t).id ≡ t.id) where
  pub select_id-update_rows :
      (tid j : String) (guard : Task → Bool) (ts : List Task)
      → select_id j (update_rows (matching tid guard) f ts)
        ≡ (if tid == j then on_row guard f (select_id j ts) else select_id j ts)
  unfolding select_id update_rows matching
  select_id-update_rows tid j guard [] = ground arith
  select_id-update_rows tid j guard (t ∷ ts) = ground (
    arith,
    same_id t,
    eq_iff t.id j,
    eq_iff t.id tid,
    eq_iff tid j,
    eq_iff (f t).id j,
    select_id-update_rows tid j guard ts,
  )

  pub absent-update_rows :
      (j : String) (p : Task → Bool) (ts : List Task)
      → select_id j ts ≡ none
      → select_id j (update_rows p f ts) ≡ none
  unfolding select_id update_rows
  absent-update_rows j p [] h = refl
  absent-update_rows j p (t ∷ ts) h =
      ground (arith, same_id t, eq_iff t.id j, eq_iff (f t).id j, absent-update_rows j p ts)

  pub Unique-update_rows :
      (p : Task → Bool) (ts : List Task) → Unique ts → Unique (update_rows p f ts)
  unfolding update_rows
  Unique-update_rows p [] u = tt
  Unique-update_rows p (t ∷ ts) u = (
    elim (Bool-cases (p t)) [
      | inl e ↦ rw (e, same_id t) (absent-update_rows t.id p ts u.0)
      | inr e ↦ rw e (absent-update_rows t.id p ts u.0)
    ],
    Unique-update_rows p ts u.1,
  )

module _ (row : Task) where
  pub select_id-append :
      (j : String) (ts : List Task)
      → select_id j (ts ++ row ∷ []) ≡ elim (select_id j ts) [
        | none ↦ (if row.id == j then some row else none)
        | some t ↦ some t
      ]
  unfolding select_id
  select_id-append j [] = refl
  select_id-append j (t ∷ ts) = ground (arith, select_id-append j ts)

  -- A row that is inserted has an id of its own.
  pub absent_of_no_clash :
      (ts : List Task) → any (clashes row) ts ≡ false → select_id row.id ts ≡ none
  unfolding select_id
  absent_of_no_clash [] h = refl
  absent_of_no_clash (t ∷ ts) h = ground (arith, absent_of_no_clash ts)

  pub Unique-append :
      (ts : List Task) → select_id row.id ts ≡ none → Unique ts → Unique (ts ++ row ∷ [])
  unfolding select_id
  Unique-append [] h u = (refl, tt)
  Unique-append (t ∷ ts) h u =
      ground
        (arith, select_id-append t.id ts, eq_iff t.id row.id, eq_iff row.id t.id, Unique-append ts)

module _ (tid : String) (guard : Task → Bool) where
  pub count_if-absent :
      (ts : List Task) → select_id tid ts ≡ none → count_if (matching tid guard) ts ≡ 0
  unfolding select_id matching
  count_if-absent [] h = refl
  count_if-absent (t ∷ ts) h = ground (arith, count_if-absent ts)

  pub count_if-Unique :
      (ts : List Task)
      → Unique ts
      → count_if (matching tid guard) ts ≡ (if hits guard (select_id tid ts) then 1 else 0)
  unfolding select_id matching
  count_if-Unique [] u = refl
  count_if-Unique (t ∷ ts) u =
      ground (arith, eq_iff t.id tid, count_if-absent ts, count_if-Unique ts u.1)

  -- An UPDATE that matches no row changes nothing.
  pub update_rows_id :
      (f : Task → Task) (ts : List Task)
      → count_if (matching tid guard) ts ≡ 0
      → update_rows (matching tid guard) f ts ≡ ts
  unfolding update_rows matching
  update_rows_id f [] h = refl
  update_rows_id f (t ∷ ts) h = ground (arith, update_rows_id f ts)

-- The same for a whole store.
pub rowcount-hits :
    (tid : String) (guard : Task → Bool) (s : Store)
    → Unique s.tasks
    → nat_eq (rowcount tid guard s) 1 ≡ hits guard (select_id tid s.tasks)
unfolding rowcount
rowcount-hits tid guard s u = ground (arith, count_if-Unique tid guard s.tasks u)

pub update_tasks_miss :
    (tid : String) (guard : Task → Bool) (f : Task → Task) (s : Store)
    → Unique s.tasks
    → hits guard (select_id tid s.tasks) ≡ false
    → update_tasks tid guard f s ≡ s
unfolding update_tasks
update_tasks_miss tid guard f s u h =
    ground (arith, update_rows_id tid guard f s.tasks, count_if-Unique tid guard s.tasks u)

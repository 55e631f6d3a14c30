-- ===== src/Store/History/Keys.antt =====
-- The column `idempotency_key` of core/store.py: what inserts and updates do to a SELECT by key.
use cloudagentperform.Base.{
  ◌≡◌, inl, inr, String, Bool, true, false, none, some, List, [], ◌∷◌, ◌++◌, if◌then◌else◌, arith,
  Bool-cases, Option-cases, any,
}
use cloudagentperform.Models.{Task, Event}
use cloudagentperform.Store.Table.{
  Store, select_id, select_key, has_key, clashes, update_rows, matching, update_tasks,
}
use cloudagentperform.Store.Rows.{hits}
use cloudagentperform.Store.Endings.{ending}

-- A row with the key `k` and the id `tid` is the one that a SELECT by key finds.
abbrev pub HasKey : String → String → Store → Type 0
HasKey k tid s = (t : Task) × (select_key k s.tasks ≡ some t) × (t.id ≡ tid)

module _ (k : String) where
  pub select_key-update_rows :
      (p : Task → Bool) (f : Task → Task) (ts : List Task) {t : Task}
      → ((r : Task) → (f r).idempotency_key ≡ r.idempotency_key)
      → select_key k ts ≡ some t
      → select_key k (update_rows p f ts) ≡ some (if p t then f t else t)
  unfolding select_key update_rows
  select_key-update_rows p f [] same h = cc
  select_key-update_rows p f (r ∷ ts) {t} same h =
      ground (arith, same r, select_key-update_rows p f ts {t = t} same)

  pub select_key-append :
      (ts : List Task) (row : Task) {t : Task}
      → select_key k ts ≡ some t
      → select_key k (ts ++ row ∷ []) ≡ some t
  unfolding select_key
  select_key-append [] row h = cc
  select_key-append (r ∷ ts) row {t} h = ground (arith, select_key-append ts row {t = t})

  pub select_key-append_new :
      (ts : List Task) (row : Task)
      → select_key k ts ≡ none
      → has_key k row.idempotency_key ≡ true
      → select_key k (ts ++ row ∷ []) ≡ some row
  unfolding select_key
  select_key-append_new [] row e h = rw h
  select_key-append_new (r ∷ ts) row e h = ground (arith, select_key-append_new ts row)

  -- A row with the key clashes with every new row that has it.
  pub clash_of_key :
      (ts : List Task) (row : Task) {t : Task}
      → select_key k ts ≡ some t
      → row.idempotency_key ≡ some k
      → any (clashes row) ts ≡ true
  unfolding select_key
  clash_of_key [] row h e = cc
  clash_of_key (r ∷ ts) row {t} h e = ground (arith, clash_of_key ts row {t = t})

  pub no_key_of_no_clash :
      (ts : List Task) (row : Task)
      → any (clashes row) ts ≡ false
      → row.idempotency_key ≡ some k
      → select_key k ts ≡ none
  no_key_of_no_clash ts row h e = elim (Option-cases (select_key k ts)) [
    | inl r ↦ r
    | inr (t, r) ↦ absurd (ground (arith, clash_of_key ts row r e))
  ]

  module _ (tid : String) where
    pub update-HasKey :
        (j : String) (guard : Task → Bool) (f : Task → Task) (s : Store)
        → ((r : Task) → (f r).idempotency_key ≡ r.idempotency_key)
        → ((r : Task) → (f r).id ≡ r.id)
        → HasKey k tid s
        → HasKey k tid (update_tasks j guard f s)
    unfolding update_tasks
    update-HasKey j guard f s same same_id (t, h, e) = (
      (if matching j guard t then f t else t),
      select_key-update_rows (matching j guard) f s.tasks {t = t} same h,
      ground (arith, same_id t),
    )

    pub ending-HasKey :
        (j : String) (guard : Task → Bool) (f : Task → Task) (ev : Event) (s : Store)
        → ((r : Task) → (f r).idempotency_key ≡ r.idempotency_key)
        → ((r : Task) → (f r).id ≡ r.id)
        → HasKey k tid s
        → HasKey k tid (ending j guard f ev s).1
    ending-HasKey j guard f ev s same same_id h =
        elim (Bool-cases (hits guard (select_id j s.tasks))) [
          | inl hit ↦ rw hit (update-HasKey j guard f s same same_id h)
          | inr miss ↦ rw miss h
        ]

-- ===== src/Reconcile/Loops.antt =====
-- The two loops of worker/reconcile.py: the first repairs every running row of its snapshot, the
-- second puts every queued task into the queue.
use cloudagentperform.Base.{
  ℕ, ◌≡◌, refl, ◌∙◌, ◌⊎◌, inl, inr, String, Bool, true, false, some, List, [], ◌∷◌, ◌==◌,
  if◌then◌else◌, any, arith, eq_iff, Bool-cases,
}
use cloudagentperform.Models.{is_running, Task}
use cloudagentperform.Store.Table.{Store, ok}
use cloudagentperform.Store.Rows.{Unique}
use cloudagentperform.Store.{get}
use cloudagentperform.Redis.{Redis}
use cloudagentperform.Bus.{enqueue, queued_ids, lease_token}
use cloudagentperform.Bus.Leases.{lease_token-enqueue}
use cloudagentperform.Reconcile.{World, Stats, contains, reclaim_one, reclaim, repush}
use cloudagentperform.Reconcile.Rows.{repaired_row, Round, reclaim_one-Round, contains-enqueue}

-- Some row of the list has the id.
abbrev pub listed : String → List Task → Bool
listed j ts = any (λ (t : Task). t.id == j) ts

-- A snapshot that still agrees with the store: distinct running rows.
abbrev pub Fresh : Store → List Task → Type 0
Fresh s [] = Unit
Fresh s (t ∷ ts) =
    (get t.id s ≡ some t) × (is_running t.status ≡ true) × (listed t.id ts ≡ false) × Fresh s ts

module _ (r : Redis) (clock : String → ℕ → String) where
  open r use {State}

  -- A round for one task leaves the rest of the snapshot as it was.
  Fresh-Round :
      (t : Task) (w w' : World State) (ts : List Task)
      → Round r clock t w w'
      → listed t.id ts ≡ false
      → Fresh w.store ts
      → Fresh w'.store ts
  Fresh-Round t w w' [] round no_dup h = tt
  Fresh-Round t w w' (x ∷ ts) round no_dup h = (
    round.rows x.id ∙ rw (other t x ts no_dup) h.0,
    h.1,
    h.2,
    Fresh-Round t w w' ts round (others t x ts no_dup) h.3,
  )
    where
      other : (t x : Task) (ts : List Task) → listed t.id (x ∷ ts) ≡ false → (t.id == x.id) ≡ false
      other t x ts h = ground (arith, eq_iff t.id x.id, eq_iff x.id t.id)

      others : (t x : Task) (ts : List Task) → listed t.id (x ∷ ts) ≡ false → listed t.id ts ≡ false
      others t x ts h = ground arith

  -- What the first loop does, for the rows of a snapshot.
  pub record Pass (ts : List Task) (w w' : World State) : Type 0 where
    pub unique : Unique w'.store.tasks
    pub rows :
        (j : String)
        → get j w'.store ≡ (
            if listed j ts
            then repaired_row (lease_token r j w.redis) (clock j 0) (get j w.store)
            else get j w.store)
    pub leases : (j : String) → lease_token r j w'.redis ≡ lease_token r j w.redis
    pub queue :
        (j : String)
        → contains j (queued_ids r w.redis) ≡ true
        → contains j (queued_ids r w'.redis) ≡ true

  reclaim_step :
      (t : Task) (ts : List Task) (w w' : World State) (st st' : Stats)
      → reclaim_one r clock t w st ≡ (ok st', w')
      → reclaim r clock (t ∷ ts) w st ≡ reclaim r clock ts w' st'
  unfolding reclaim
  reclaim_step t ts w w' st st' e = rw e

  pub reclaim-Pass :
      (ts : List Task) (w : World State) (st : Stats)
      → Unique w.store.tasks
      → Fresh w.store ts
      → (st' : Stats) × (w' : World State) × (reclaim r clock ts w st ≡ (ok st', w')) × Pass ts w w'
  unfolding reclaim
  reclaim-Pass [] w st u h =
      (st, w, refl, record { unique = u; rows = λ j. refl; leases = λ j. refl; queue = λ j q. q })
  reclaim-Pass (t ∷ ts) w st u h =
      let (st₁, w₁, e, round) = reclaim_one-Round r clock t w h.0 h.1 u st in
      let (st₂, w₂, e', pass) =
        reclaim-Pass ts w₁ st₁ round.unique (Fresh-Round t w w₁ ts round h.2 h.3) in
      (
        st₂,
        w₂,
        reclaim_step t ts w w₁ st st₁ e ∙ e',
        record {
          unique = pass.unique;
          rows = λ j. ground (arith, pass.rows j, round.rows j, round.leases j, h.2, eq_iff t.id j);
          leases = λ j. pass.leases j ∙ round.leases j;
          queue = λ j q. pass.queue j (round.queue j q);
        },
      )

  case_old :
      (in_redis : List String) (t : Task) (ts : List Task) (w : World State) (j : String)
      → (contains j (queued_ids r w.redis) ≡ true) ⊎ (listed j (t ∷ ts) ≡ true)
      → contains t.id in_redis ≡ true
      → ((i : String) → contains i in_redis ≡ true → contains i (queued_ids r w.redis) ≡ true)
      → (contains j (queued_ids r w.redis) ≡ true) ⊎ (listed j ts ≡ true)
  case_old in_redis t ts w j h old sub = ground (arith, eq_iff t.id j, sub t.id old)

  case_new :
      (t : Task) (ts : List Task) (w : World State) (j : String)
      → (contains j (queued_ids r w.redis) ≡ true) ⊎ (listed j (t ∷ ts) ≡ true)
      → (contains j (queued_ids r (enqueue r t.id w.redis)) ≡ true) ⊎ (listed j ts ≡ true)
  case_new t ts w j h = rw (contains-enqueue r clock t.id j w.redis) (ground arith)

  -- The second loop: tasks that were not in the list are pushed, and nothing is taken out.
  pub contains-repush :
      (in_redis : List String) (ts : List Task) (w : World State) (st : Stats) (j : String)
      → (contains j (queued_ids r w.redis) ≡ true) ⊎ (listed j ts ≡ true)
      → ((i : String) → contains i in_redis ≡ true → contains i (queued_ids r w.redis) ≡ true)
      → contains j (queued_ids r (repush r clock in_redis ts w st).1.redis) ≡ true
  unfolding repush
  contains-repush in_redis [] w st j (inl h) sub = h
  contains-repush in_redis [] w st j (inr h) sub = cc
  contains-repush in_redis (t ∷ ts) w st j h sub = elim (Bool-cases (contains t.id in_redis)) [
    | inl old ↦
        rw (old, repush)
          (contains-repush in_redis ts w st j (case_old in_redis t ts w j h old sub) sub)
    | inr new ↦
        rw (new, repush)
          (contains-repush in_redis ts _ _ j (case_new t ts w j h)
            (λ i m. rw (contains-enqueue r clock t.id i w.redis) (ground (arith, sub i m))))
  ]

  pub store-repush :
      (in_redis : List String) (ts : List Task) (w : World State) (st : Stats)
      → (repush r clock in_redis ts w st).1.store ≡ w.store
  unfolding repush
  store-repush in_redis [] w st = refl
  store-repush in_redis (t ∷ ts) w st = elim (Bool-cases (contains t.id in_redis)) [
    | inl old ↦ rw (old, repush) (store-repush in_redis ts w st)
    | inr new ↦ rw (new, repush) (store-repush in_redis ts _ _)
  ]

  pub leases-repush :
      (in_redis : List String) (ts : List Task) (w : World State) (st : Stats) (j : String)
      → lease_token r j (repush r clock in_redis ts w st).1.redis ≡ lease_token r j w.redis
  unfolding repush
  leases-repush in_redis [] w st j = refl
  leases-repush in_redis (t ∷ ts) w st j = elim (Bool-cases (contains t.id in_redis)) [
    | inl old ↦ rw (old, repush) (leases-repush in_redis ts w st j)
    | inr new ↦
        rw (new, repush) (leases-repush in_redis ts _ _ j ∙ lease_token-enqueue r j t.id w.redis)
  ]

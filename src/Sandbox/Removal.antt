-- ===== src/Sandbox/Removal.antt =====
-- `gc` and `remove_for_task` of sandbox/docker_provider.py: which containers are left.
use cloudagentperform.Base.{
  ℕ, String, Bool, true, not, ◌&&◌, ◌≡◌, refl, ap, ◌∙◌, subst, none, some, List, [], ◌∷◌, keep,
  length, any, ◌==◌, ◌+◌, Bool-cases, inl, inr, arith,
}
use cloudagentperform.Agent.{Try, done}
use cloudagentperform.Sandbox.{
  Docker, Container, answered, counted, remove_all, gc, remove_for_task,
}

-- The container is one of these.
abbrev pub listed : String → List Container → Bool
listed id cs = any (λ c. c.id == id) cs

keep_all : (cs : List Container) → keep (λ c. true) cs ≡ cs
keep_all [] = refl
keep_all (c ∷ cs) = ap (λ l. c ∷ l) (keep_all cs)

-- What the daemon documents of a forced removal that it answers: that container is gone, and no other.
pub record Removes (k : Docker) : Type 0 where
  pub alive : String → k.D → Bool
  pub answers : (id : String) (d : k.D) → (k.remove id d).0 ≡ answered tt
  pub effect :
      (id : String) (d : k.D) (id' : String)
      → alive id' (k.remove id d).1 ≡ (not (id == id') && alive id' d)

module _ (k : Docker) (l : Removes k) where
  open k use {D}

  -- These containers are gone, and no others; their number is returned.
  pub record Cleared (gone : List Container) (removed : ℕ) (d : D) (p : Try ℕ × D) : Type 0 where
    pub count : p.0 ≡ done (removed + length gone)
    pub alive : (id : String) → l.alive id p.1 ≡ (not (listed id gone) && l.alive id d)

  counted-Cleared :
      (c : Container) (gone : List Container) (removed : ℕ) (d : D) (rest : ℕ → D → Try ℕ × D)
      → Cleared gone (removed + 1) (k.remove c.id d).1 (rest (removed + 1) (k.remove c.id d).1)
      → Cleared (c ∷ gone) removed d (counted k (k.remove c.id d) removed rest)
  counted-Cleared c gone removed d rest h = rw (l.answers c.id d) (record {
    count = h.count ∙ ap done (omega arith);
    alive = λ id. ground (arith, h.alive id, l.effect c.id d id);
  })

  remove_all_lem :
      (chosen : Container → Bool) (cs : List Container) (removed : ℕ) (d : D)
      → Cleared (keep chosen cs) removed d (remove_all k chosen cs removed d)
  unfolding remove_all
  remove_all_lem chosen [] removed d = record { count = ap done (omega arith); alive = λ id. refl }
  remove_all_lem chosen (c ∷ cs) removed d = elim (Bool-cases (chosen c)) [
    | inl h ↦ rw (h) (
        counted-Cleared c (keep chosen cs) removed d (remove_all k chosen cs)
          (remove_all_lem chosen cs (removed + 1) (k.remove c.id d).1))
    | inr h ↦ rw (h) (remove_all_lem chosen cs removed d)
  ]

  -- If the daemon answers every removal, `gc` ends, and of the containers that it is told of it removes
  -- exactly those whose task is not active; every other container stays as it is. The number of removed
  -- ones is returned.
  pub gc-Cleared :
      (active : List String) (d : D) {cs : List Container} {d' : D}
      → k.list_all none d ≡ (answered cs, d')
      → Cleared (keep (λ c. not (any (λ tid. tid == c.task_id) active)) cs) 0 d' (gc k active d)
  unfolding gc
  gc-Cleared active d {cs} {d'} h = rw (h) (remove_all_lem _ cs 0 d')

  -- If the daemon answers every removal, `remove_for_task` ends with exactly the containers removed that
  -- the daemon lists for the task.
  pub remove_for_task-Cleared :
      (task_id : String) (d : D) {cs : List Container} {d' : D}
      → k.list_all (some task_id) d ≡ (answered cs, d')
      → Cleared cs 0 d' (remove_for_task k task_id d)
  unfolding remove_for_task
  remove_for_task-Cleared task_id d {cs} {d'} h = rw (h) (
      subst (λ gone. Cleared gone 0 d' (remove_all k (λ c. true) cs 0 d')) (keep_all cs)
        (remove_all_lem (λ c. true) cs 0 d'))

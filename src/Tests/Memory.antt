-- ===== src/Tests/Memory.antt =====
-- A Redis server in memory, without clients or time: enough for core/queuebus.py to run on.
use cloudagentperform.Base.{
  Dict, map, any, sym, Bool-cases, arith, eq_iff, ◌≡◌, ◌≢◌, refl, ap, ◌∙◌, inl, inr, String, Bool,
  true, false, not, Option, none, some, List, [], ◌∷◌, ◌++◌, ◌==◌, if◌then◌else◌, Option-cases,
  keep, eq_refl, ==-false,
}
use cloudagentperform.Models.{Event}
use cloudagentperform.Redis.{Redis}

pub record Memory : Type 0 where
  pub lists : String → List String
  pub values : Dict String
  pub published : List (String × Event)

abbrev pub store_at {ℓ} : {A : Type ℓ} → String → A → (String → A) → String → A
store_at k v f j = if j == k then v else f j

abbrev pub pop_last : List String → Option String × List String
pop_last [] = (none, [])
pop_last (x ∷ []) = (some x, [])
pop_last (x ∷ y ∷ l) = let (v, rest) = pop_last (y ∷ l) in (v, x ∷ rest)

pop_last-snoc : (l : List String) (v : String) → pop_last (l ++ v ∷ []) ≡ (some v, l)
pop_last-snoc [] v = refl
pop_last-snoc (x ∷ []) v = refl
pop_last-snoc (x ∷ y ∷ l) v = rw (pop_last-snoc (y ∷ l) v)

abbrev pub popped : String → List String → Memory → Option String × Memory
popped k [] m = (none, m)
popped k (x ∷ l) m =
    ((pop_last (x ∷ l)).0, record m { lists = store_at k (pop_last (x ∷ l)).1 m.lists })

abbrev pub brpop : String → Memory → Option String × Memory
brpop k m = popped k (m.lists k) m

abbrev pub find : String → Dict String → Option String
find k [] = none
find k ((j, v) ∷ d) = if j == k then some v else find k d

abbrev pub set_free : Option String → String → String → Memory → Bool × Memory
set_free none k v m = (true, record m { values = (k, v) ∷ m.values })
set_free (some w) k v m = (false, m)

abbrev pub set_nx : String → String → Memory → Bool × Memory
set_nx k v m = set_free (find k m.values) k v m

abbrev pub delete : String → Memory → Memory
delete k m = record m { values = keep (λ e. not (e.0 == k)) m.values }

abbrev pub keys : Memory → List String
keys m = map (λ e. e.0) m.values

pub store_at_self : {A : Type 0} (k : String) (v : A) (f : String → A) → store_at k v f k ≡ v
store_at_self k v f = rw (eq_refl k)

pub store_at-other :
    {A : Type 0} (j k : String) (v : A) (f : String → A) → j ≢ k → store_at k v f j ≡ f j
store_at-other j k v f h = rw (==-false h)

pub set_nx_free :
    (k v : String) (m : Memory)
    → find k m.values ≡ none
    → ((set_nx k v m).0 ≡ true) × (find k (set_nx k v m).1.values ≡ some v)
set_nx_free k v m h = rw (h, set_nx) (refl, rw (eq_refl k) refl)

pub set_nx_taken :
    (k v w : String) (m : Memory) → find k m.values ≡ some w → set_nx k v m ≡ (false, m)
set_nx_taken k v w m h = rw (h, set_nx) refl

pub get-set_nx :
    (j k v : String) (m : Memory) → j ≢ k → find j (set_nx k v m).1.values ≡ find j m.values
get-set_nx j k v m h = elim (Option-cases (find k m.values)) [
  | inl free ↦ rw (free, set_nx) (rw (==-false {s = k} {t = j} (λ e. h (sym e))) refl)
  | inr (w, taken) ↦ rw (taken, set_nx) refl
]

pub find-keep_self : (k : String) (d : Dict String) → find k (keep (λ e. not (e.0 == k)) d) ≡ none
find-keep_self k [] = refl
find-keep_self k ((j, v) ∷ d) = ground (arith, find-keep_self k d)

pub find-keep :
    (j k : String) (d : Dict String)
    → (j == k) ≡ false
    → find j (keep (λ e. not (e.0 == k)) d) ≡ find j d
find-keep j k [] h = refl
find-keep j k ((i, v) ∷ d) h = ground (arith, eq_iff i j, eq_iff i k, eq_iff j k, find-keep j k d h)

pub keys_find :
    (k : String) (d : Dict String) {v : String}
    → find k d ≡ some v
    → any (λ j. j == k) (map (λ (e : String × String). e.0) d) ≡ true
keys_find k [] h = cc h
keys_find k ((j, w) ∷ d) h = elim (Bool-cases (j == k)) [
  | inl e ↦ rw e refl
  | inr e ↦ rw e (keys_find k d (rw e at h))
]

pub brpop_last :
    (k v : String) (l : List String) (m : Memory)
    → m.lists k ≡ l ++ v ∷ []
    → ((brpop k m).0 ≡ some v) × ((brpop k m).1.lists k ≡ l)
brpop_last k v [] m h = rw h (refl, store_at_self k [] m.lists)
brpop_last k v (x ∷ l) m h = rw h (
  ap (λ (p : Option String × List String). p.0) (pop_last-snoc (x ∷ l) v),
  store_at_self k _ m.lists
      ∙ ap (λ (p : Option String × List String). p.1) (pop_last-snoc (x ∷ l) v),
)

pub get-popped :
    (j k : String) (l : List String) (m : Memory) → find j (popped k l m).1.values ≡ find j m.values
get-popped j k [] m = refl
get-popped j k (x ∷ l) m = refl

abbrev pub memory : Redis
memory = record {
  State = Memory;
  lpush = λ k v m. record m { lists = store_at k (v ∷ m.lists k) m.lists };
  brpop = brpop;
  lrange = λ k m. m.lists k;
  set_nx = λ k v ttl m. set_nx k v m;
  get = λ k m. find k m.values;
  expire = λ k ttl m. (true, m);
  delete = delete;
  scan = λ pattern m. keys m;
  publish = λ c e m. record m { published = (c, e) ∷ m.published };
  scan-finds = λ p k v m h e. keys_find _ m.values e;
  lrange-lpush = λ k v m. store_at_self k (v ∷ m.lists k) m.lists;
  get-lpush = λ j k v m h. refl;
  brpop-empty = λ k m h. rw h;
  brpop-last = brpop_last;
  get-brpop = λ j k m h. get-popped j k (m.lists k) m;
  set_nx-free = λ k v ttl m h. set_nx_free k v m h;
  set_nx-taken = λ k v w ttl m h. set_nx_taken k v w m h;
  get-set_nx = λ j k v ttl m h. get-set_nx j k v m h;
  get-expire = λ j k ttl m h. refl;
  get-delete_self = λ k m. find-keep_self k m.values;
  get-delete = λ j k m h. find-keep j k m.values (==-false h);
  get-publish = λ j c e m. refl;
  lrange-publish = λ k c e m. refl;
}

abbrev pub empty : Memory
empty = record { lists = λ k. []; values = []; published = [] }

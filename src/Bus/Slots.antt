-- ===== src/Bus/Slots.antt =====
-- The leases are the slots for running tasks: how many of them `active_leases` of core/queuebus.py counts.
use cloudagentperform.Base.{
  ◌+◌, ◌≤◌, ◌≡◌, refl, String, Bool, true, false, not, ◌==◌, some, List, [], ◌∷◌, any, keep, length,
  All, arith, eq_iff, Bool-cases, inl, inr, if◌then◌else◌,
}
use cloudagentperform.Redis.{Redis, is_plain_glob}
use cloudagentperform.Bus.{lease_key, lease_token, active_leases}
use cloudagentperform.Bus.Leases.{lease_key_injective}

abbrev present : String → List String → Bool
present k l = any (λ j. j == k) l

-- No text stands twice in the list.
abbrev pub Distinct : List String → Type 0
Distinct [] = Unit
Distinct (x ∷ xs) = (any (λ y. y == x) xs ≡ false) × Distinct xs

-- Without a text that stands in it, a list is shorter, and has the others still.
length-without :
    (k : String) (l : List String)
    → length (keep (λ j. not (j == k)) l) + (if present k l then 1 else 0) ≤ length l
length-without k [] = omega arith
length-without k (j ∷ l) = ground (arith, length-without k l)

present-without :
    (i k : String) (l : List String)
    → (i == k) ≡ false
    → present i l ≡ true
    → present i (keep (λ j. not (j == k)) l) ≡ true
present-without i k [] h p = p
present-without i k (j ∷ l) h p =
    ground (arith, eq_iff j i, eq_iff j k, eq_iff i k, present-without i k l h)

-- The keys of distinct tasks are distinct.
keys_apart : (i j : String) → (i == j) ≡ false → (lease_key i == lease_key j) ≡ false
keys_apart i j h = elim (Bool-cases (lease_key i == lease_key j)) [
  | inl e ↦ cc (h, (eq_iff i j).1 (lease_key_injective i j ((eq_iff _ _).0 e)))
  | inr e ↦ e
]

keys-without :
    (i : String) (ids l : List String)
    → any (λ y. y == i) ids ≡ false
    → All (λ j. present (lease_key j) l ≡ true) ids
    → All (λ j. present (lease_key j) (keep (λ k. not (k == lease_key i)) l) ≡ true) ids
keys-without i [] l d h = tt
keys-without i (j ∷ ids) l d h = (
  present-without (lease_key j) (lease_key i) l (keys_apart j i (ground arith)) h.0,
  keys-without i ids l (ground arith) h.1,
)

-- As many keys as distinct tasks.
length-keys :
    (ids l : List String)
    → Distinct ids
    → All (λ j. present (lease_key j) l ≡ true) ids
    → length ids ≤ length l
length-keys [] l d h = omega arith
length-keys (i ∷ ids) l d h = ground (
  arith,
  length-without (lease_key i) l,
  h.0,
  length-keys ids (keep (λ k. not (k == lease_key i)) l) d.1 (keys-without i ids l d.0 h.1),
)

module _ (r : Redis) where
  open r use {State}

  -- The task has a lease.
  abbrev pub Leased : State → String → Type 0
  Leased s tid = (token : String) × (lease_token r tid s ≡ some token)

  Leased-present :
      (s : State) (ids : List String)
      → All (Leased s) ids
      → All (λ j. present (lease_key j) (r.scan "cap:lease:*" s) ≡ true) ids
  unfolding lease_token lease_key is_plain_glob
  Leased-present s [] h = tt
  Leased-present s (i ∷ ids) ((token, e), hs) =
      (r.scan-finds "cap:lease:" i token s refl e, Leased-present s ids hs)

  -- Each task with a lease is counted.
  pub length-active_leases :
      (s : State) (ids : List String)
      → Distinct ids
      → All (Leased s) ids
      → length ids ≤ active_leases r s
  unfolding active_leases
  length-active_leases s ids d h =
      length-keys ids (r.scan "cap:lease:*" s) d (Leased-present s ids h)

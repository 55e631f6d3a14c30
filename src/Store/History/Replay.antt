-- ===== src/Store/History/Replay.antt =====
-- `events_after` of core/store.py over a history: what a client that reads, detaches and comes back
-- with the id of its last event is given.
use cloudagentperform.Base.{
  ℕ, ◌≤◌, ◌<◌, ◌≡◌, refl, sym, subst, inl, inr, String, Bool, ◌&&◌, ◌==◌, List, [], ◌∷◌, ◌++◌, ltb,
  leb, arith, Bool-cases, keep, keep-append,
}
use cloudagentperform.Models.{Event}
use cloudagentperform.Store.Table.{Store, init, insert_by_id, order_by_id}
use cloudagentperform.Store.{events_after}
use cloudagentperform.Store.History.{Txn, run}
use cloudagentperform.Store.History.Distinct.{run-Unique}
use cloudagentperform.Store.History.Log.{Ascends, Extends, Extends-trans, run-Extends}

-- Strictly increasing ids above `lo`.
abbrev pub IsAscending : ℕ → List Event → Type 0
IsAscending lo [] = Unit
IsAscending lo (e ∷ es) = (lo < e.id) × IsAscending e.id es

abbrev pub of_task_after : String → ℕ → Event → Bool
of_task_after tid after e = e.task_id == tid && ltb after e.id

IsAscending-weaken :
    (lo mid : ℕ) (es : List Event) → lo ≤ mid → IsAscending mid es → IsAscending lo es
IsAscending-weaken lo mid [] h k = tt
IsAscending-weaken lo mid (e ∷ es) h k = (omega arith, k.1)

pub IsAscending-keep :
    (p : Event → Bool) (lo : ℕ) (es : List Event) → IsAscending lo es → IsAscending lo (keep p es)
IsAscending-keep p lo [] h = tt
IsAscending-keep p lo (e ∷ es) h = elim (Bool-cases (p e)) [
  | inl pass ↦ rw pass (h.0, IsAscending-keep p e.id es h.1)
  | inr fail ↦
      rw fail
        (IsAscending-weaken lo e.id (keep p es) (omega arith) (IsAscending-keep p e.id es h.1))
]

Ascends-IsAscending : (lo hi : ℕ) (es : List Event) → Ascends lo es hi → IsAscending lo es
Ascends-IsAscending lo hi [] h = tt
Ascends-IsAscending lo hi (e ∷ es) h = (h.0, Ascends-IsAscending e.id hi es h.1)

pub Ascends-le : (lo hi : ℕ) (es : List Event) → Ascends lo es hi → lo ≤ hi
Ascends-le lo hi [] h = h
Ascends-le lo hi (e ∷ es) h = omega (arith, Ascends-le e.id hi es h.1)

insert_by_id-first :
    (e : Event) (es : List Event) → IsAscending e.id es → insert_by_id e es ≡ e ∷ es
unfolding insert_by_id
insert_by_id-first e [] h = refl
insert_by_id-first e (x ∷ es) h = ground arith

order_by_id-IsAscending : (lo : ℕ) (es : List Event) → IsAscending lo es → order_by_id es ≡ es
unfolding order_by_id
order_by_id-IsAscending lo [] h = refl
order_by_id-IsAscending lo (e ∷ es) h =
    rw (order_by_id-IsAscending e.id es h.1) (insert_by_id-first e es h.1)

keep_late :
    (b lo : ℕ) (p : Event → Bool) (es : List Event)
    → IsAscending lo es
    → b ≤ lo
    → keep (λ e. leb e.id b) (keep p es) ≡ []
keep_late b lo p [] h k = refl
keep_late b lo p (e ∷ es) h k = ground (arith, keep_late b e.id p es h.1)

module _ (tid : String) where
  keep-IsAscending :
      (a lo : ℕ) (es : List Event)
      → IsAscending lo es
      → IsAscending a (keep (of_task_after tid a) es)
  keep-IsAscending a lo [] h = tt
  keep-IsAscending a lo (e ∷ es) h = elim (Bool-cases (of_task_after tid a e)) [
    | inl pass ↦ rw pass (ground arith, IsAscending-keep (of_task_after tid a) e.id es h.1)
    | inr fail ↦ rw fail (keep-IsAscending a e.id es h.1)
  ]

  -- Events above both bounds pass both tests alike.
  keep_above :
      (a b lo : ℕ) (es : List Event)
      → IsAscending lo es
      → a ≤ lo
      → b ≤ lo
      → keep (of_task_after tid a) es ≡ keep (of_task_after tid b) es
  keep_above a b lo [] h k l = refl
  keep_above a b lo (e ∷ es) h k l = ground (arith, keep_above a b e.id es h.1)

  -- Events at or below the bound do not pass.
  keep_below :
      (lo hi : ℕ) (es : List Event) → Ascends lo es hi → keep (of_task_after tid hi) es ≡ []
  keep_below lo hi [] h = refl
  keep_below lo hi (e ∷ es) h = ground (arith, keep_below e.id hi es h.1, Ascends-le e.id hi es h.1)

  -- What is after `a` is what is after `a` up to `b`, then what is after `b`.
  keep_split :
      (a b lo : ℕ) (es : List Event)
      → IsAscending lo es
      → a ≤ b
      → keep (of_task_after tid a) es
        ≡ keep (λ e. leb e.id b) (keep (of_task_after tid a) es) ++ keep (of_task_after tid b) es
  keep_split a b lo [] h k = refl
  keep_split a b lo (e ∷ es) h k = elim (Bool-cases (leb e.id b)) [
    | inl early ↦ ground (arith, keep_split a b e.id es h.1)
    | inr late ↦
        ground (arith, keep_late b e.id (of_task_after tid a) es h.1, keep_above a b e.id es h.1)
  ]

grown :
    (tid : String) (a last : ℕ) (old new : List Event) {all : List Event}
    → all ≡ old ++ new
    → Ascends 0 old last
    → IsAscending last new
    → a ≤ last
    → keep (of_task_after tid a) all
      ≡ keep (of_task_after tid a) old ++ keep (of_task_after tid last) all
grown tid a last old new e below above h = rw (
  e,
  keep-append (of_task_after tid a) old new,
  keep-append (of_task_after tid last) old new,
  keep_below tid 0 last old below,
  keep_above tid a last last new above h (omega arith),
)

pub log_of : (s : Store) → Extends init s → Ascends 0 s.events s.last_id
log_of s (new, e, h) = rw e h

pub in_order :
    (tid : String) (a : ℕ) (s : Store)
    → Extends init s
    → events_after tid a s ≡ keep (of_task_after tid a) s.events
unfolding events_after
in_order tid a s h =
    order_by_id-IsAscending 0 _ (IsAscending-keep _ 0 _ (Ascends-IsAscending 0 _ _ (log_of s h)))

pub from_init : (xs : List Txn) → Extends init (run xs init)
from_init xs = run-Extends xs init tt

pub ascending :
    (tid : String) (a : ℕ) (s : Store) → Extends init s → IsAscending a (events_after tid a s)
ascending tid a s h =
    subst (IsAscending a) (sym (in_order tid a s h))
      (keep-IsAscending tid a 0 _ (Ascends-IsAscending 0 _ _ (log_of s h)))

-- After any history the events of a task come in the order of strictly increasing ids, all above
-- the id that was asked for.
pub events_after-IsAscending :
    (xs : List Txn) (tid : String) (a : ℕ) → IsAscending a (events_after tid a (run xs init))
events_after-IsAscending xs tid a = ascending tid a (run xs init) (from_init xs)

-- What comes after `a` is its part up to an id `b` that is not smaller, and then what comes after `b`:
-- a client that has read up to `b` and asks for what comes after it is given the rest.
events_after-resume :
    (xs : List Txn) (tid : String) (a b : ℕ)
    → a ≤ b
    → events_after tid a (run xs init)
      ≡ keep (λ e. leb e.id b) (events_after tid a (run xs init))
        ++ events_after tid b (run xs init)
events_after-resume xs tid a b h =
    rw (in_order tid a (run xs init) (from_init xs), in_order tid b (run xs init) (from_init xs))
      (keep_split tid a b 0 _ (Ascends-IsAscending 0 _ _ (log_of (run xs init) (from_init xs))) h)

pub grows :
    (tid : String) (a : ℕ) (s s' : Store)
    → Extends init s
    → Extends s s'
    → a ≤ s.last_id
    → events_after tid a s' ≡ events_after tid a s ++ events_after tid s.last_id s'
grows tid a s s' old (new, e, above) h =
    let whole = Extends-trans init s s' old (new, e, above) in
    rw (in_order tid a s' whole, in_order tid s.last_id s' whole, in_order tid a s old)
      (grown tid a s.last_id s.events new e (log_of s old)
        (Ascends-IsAscending s.last_id s'.last_id new above) h)

-- The history is never rewritten: what was read earlier is the beginning of what is read later, and
-- the rest is what comes after the last id that was given out by then (from the same id on, which
-- had been given out by then).
events_after-grows :
    (before after : List Txn) (tid : String) (a : ℕ)
    → a ≤ (run before init).last_id
    → events_after tid a (run after (run before init))
      ≡ events_after tid a (run before init)
        ++ events_after tid (run before init).last_id (run after (run before init))
events_after-grows before after tid a h =
    let s = run before init in
    grows tid a s (run after s) (from_init before) (run-Extends after s (run-Unique before init tt))
      h

-- ===== src/Redis.antt =====
-- The commands of Redis that core/queuebus.py sends, as an interface: the server is not part of the
-- repository. The laws are the documented effect of each command on the keys that the program uses.
-- A published message is the event whose JSON text it is.
use Prim.Native.Char.{code}
use Prim.Native.String.{◌++◌ as ◌+++◌}
use cloudagentperform.Base.{
  ℕ, ◌≡◌, ◌≢◌, String, Bool, true, false, not, ◌&&◌, ◌||◌, ◌==◌, nat_eq, any, Option, none, some,
  List, [], ◌∷◌, ◌++◌,
}
use cloudagentperform.Models.{Event}

-- A text without the characters that a pattern of Redis reads as more than themselves: `*?[]\`.
unfoldable pub is_plain_glob : String → Bool
is_plain_glob String.[] = true
is_plain_glob (String.◌∷◌ c s) =
    not (
      nat_eq (code c) 42
      || nat_eq (code c) 63
      || nat_eq (code c) 91
      || nat_eq (code c) 93
      || nat_eq (code c) 92)
    && is_plain_glob s

pub record Redis : Type 1 where
  pub State : Type 0
  pub lpush : String → String → State → State
  -- BRPOP: `none` after the timeout
  pub brpop : String → State → Option String × State
  -- LRANGE key 0 -1
  pub lrange : String → State → List String
  -- SET key value NX EX ttl
  pub set_nx : String → String → ℕ → State → Bool × State
  pub get : String → State → Option String
  pub expire : String → ℕ → State → Bool × State
  pub delete : String → State → State
  -- SCAN MATCH pattern, to its end
  pub scan : String → State → List String
  pub publish : String → Event → State → State
  -- A pattern of plain characters before a `*` finds every key that begins with them.
  pub scan-finds :
      (p k v : String) (s : State)
      → is_plain_glob p ≡ true
      → get (p +++ k) s ≡ some v
      → any (λ j. j == (p +++ k)) (scan (p +++ "*") s) ≡ true
  pub lrange-lpush : (k v : String) (s : State) → lrange k (lpush k v s) ≡ v ∷ lrange k s
  pub get-lpush : (j k v : String) (s : State) → j ≢ k → get j (lpush k v s) ≡ get j s
  pub brpop-empty : (k : String) (s : State) → lrange k s ≡ [] → brpop k s ≡ (none, s)
  pub brpop-last :
      (k v : String) (l : List String) (s : State)
      → lrange k s ≡ l ++ v ∷ []
      → ((brpop k s).0 ≡ some v) × (lrange k (brpop k s).1 ≡ l)
  pub get-brpop : (j k : String) (s : State) → j ≢ k → get j (brpop k s).1 ≡ get j s
  pub set_nx-free :
      (k v : String) (ttl : ℕ) (s : State)
      → get k s ≡ none
      → ((set_nx k v ttl s).0 ≡ true) × (get k (set_nx k v ttl s).1 ≡ some v)
  pub set_nx-taken :
      (k v w : String) (ttl : ℕ) (s : State) → get k s ≡ some w → set_nx k v ttl s ≡ (false, s)
  pub get-set_nx :
      (j k v : String) (ttl : ℕ) (s : State) → j ≢ k → get j (set_nx k v ttl s).1 ≡ get j s
  pub get-expire : (j k : String) (ttl : ℕ) (s : State) → j ≢ k → get j (expire k ttl s).1 ≡ get j s
  pub get-delete_self : (k : String) (s : State) → get k (delete k s) ≡ none
  pub get-delete : (j k : String) (s : State) → j ≢ k → get j (delete k s) ≡ get j s
  pub get-publish : (j c : String) (e : Event) (s : State) → get j (publish c e s) ≡ get j s
  pub lrange-publish :
      (k c : String) (e : Event) (s : State) → lrange k (publish c e s) ≡ lrange k s

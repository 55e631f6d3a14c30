-- ===== src/Api/Listing/Members.antt =====
-- What the lists of `list_artifacts` hold.
use mathlib.Core.List.{flat_map}
use cloudagentperform.Base.{
  ℕ, zero, suc, ◌≤◌, String, Bool, false, not, ◌&&◌, ◌||◌, ◌≡◌, refl, sym, ap, ◌∙◌, Option, none,
  some, List, [], ◌∷◌, ◌++◌, ◌==◌, map, keep, any, arith, eq_iff, eq_refl, Bool-cases, inl, inr,
}
use cloudagentperform.Sandbox.Files.{FilePath, same}
use cloudagentperform.Sandbox.Artifacts.{placed, sorted}
use cloudagentperform.Api.Listing.{
  uniq, relative, added, below, firsts, file_names, dir_names, os_walk, parts,
}

unfoldable pub mem : FilePath → List FilePath → Bool
unfolding same
mem p ps = any (same p) ps

unfoldable pub has : String → List String → Bool
has x xs = any (λ y. x == y) xs

pub any-append :
    {A : Type 0} (f : A → Bool) (xs ys : List A) → any f (xs ++ ys) ≡ (any f xs || any f ys)
any-append f [] ys = refl
any-append f (x ∷ xs) ys = ground (arith, any-append f xs ys)

pub mem-append : (p : FilePath) (ps qs : List FilePath) → mem p (ps ++ qs) ≡ (mem p ps || mem p qs)
unfolding mem
mem-append p ps qs = any-append (same p) ps qs

has-placed : (x y : String) (ys : List String) → has x (placed y ys) ≡ (x == y || has x ys)
unfolding has placed
has-placed x y [] = refl
has-placed x y (z ∷ zs) = ground (arith, has-placed x y zs)

pub has-sorted : (x : String) (xs : List String) → has x (sorted xs) ≡ has x xs
unfolding has sorted
has-sorted x [] = refl
has-sorted x (y ∷ ys) = ground (arith, has-placed x y (sorted ys), has-sorted x ys)

pub has-keep :
    (x : String) (f : String → Bool) (xs : List String) → has x (keep f xs) ≡ (f x && has x xs)
unfolding has
has-keep x f [] = ground arith
has-keep x f (y ∷ ys) = elim (Bool-cases (x == y)) [
  | inl e ↦ ground (arith, has-keep x f ys, e, ap f ((eq_iff x y).0 e))
  | inr e ↦ ground (arith, has-keep x f ys, e)
]

pub has-uniq : (x : String) (xs : List String) → has x (uniq xs) ≡ has x xs
unfolding has uniq
has-uniq x [] = refl
has-uniq x (y ∷ ys) = ground (arith, has-keep x (λ z. not (z == y)) (uniq ys), has-uniq x ys)

pub mem-names :
    (x : String) (p : FilePath) (xs : List String)
    → mem (x ∷ p) (map (λ y. y ∷ []) xs) ≡ (has x xs && same p [])
unfolding mem has same
mem-names x p [] = refl
mem-names x p (y ∷ ys) = ground (arith, mem-names x p ys)

mem-behind :
    (x d : String) (p : FilePath) (ps : List FilePath)
    → mem (x ∷ p) (map (λ q. d ∷ q) ps) ≡ (x == d && mem p ps)
unfolding mem same
mem-behind x d p [] = ground arith
mem-behind x d p (q ∷ qs) = ground (arith, mem-behind x d p qs)

-- What only `inside x` can hold.
pub any-flat_map :
    {B : Type 0} (f : B → Bool) (inside : String → List B) (x : String) (ds : List String)
    → ((d : String) → (x == d) ≡ false → any f (inside d) ≡ false)
    → any f (flat_map inside ds) ≡ (has x ds && any f (inside x))
unfolding has flat_map
any-flat_map f inside x [] other = refl
any-flat_map f inside x (d ∷ ds) other =
    let rest = any-flat_map f inside x ds other in
    rw (any-append f (inside d) (flat_map inside ds), rest)
      (elim (Bool-cases (x == d)) [
        | inl e ↦ ground (arith, e, ap (λ y. any f (inside y)) ((eq_iff x d).0 e))
        | inr e ↦ ground (arith, e, other d e)
      ])

pub mem-flat_map :
    (x : String) (p : FilePath) (inside : String → List FilePath) (ds : List String)
    → mem (x ∷ p) (flat_map (λ d. map (λ q. d ∷ q) (inside d)) ds) ≡ (has x ds && mem p (inside x))
unfolding mem
mem-flat_map x p inside ds =
    any-flat_map (same (x ∷ p)) (λ d. map (λ q. d ∷ q) (inside d)) x ds
      (λ d e. mem-behind x d p (inside d) ∙ ap (λ b. b && mem p (inside d)) e)
    ∙ ap (λ b. has x ds && b)
        (mem-behind x x p (inside x) ∙ ap (λ b. b && mem p (inside x)) (eq_refl x))

abbrev same_opt : FilePath → Option FilePath → Bool
unfolding same
same_opt p none = false
same_opt p (some q) = same p q

same-relative : (base p q : FilePath) → same_opt p (relative base q) ≡ same (base ++ p) q
unfolding same relative
same-relative [] p q = refl
same-relative (x ∷ base) p [] = refl
same-relative (x ∷ base) p (y ∷ q) = ground (arith, same-relative base p q)

mem-added :
    (p : FilePath) (o : Option FilePath) (ps : List FilePath)
    → mem p (added o ps) ≡ (same_opt p o || mem p ps)
unfolding mem
mem-added p none ps = refl
mem-added p (some q) ps = refl

pub mem-below :
    (base p : FilePath) (ps : List FilePath) → mem p (below base ps) ≡ mem (base ++ p) ps
unfolding mem below
mem-below base p [] = refl
mem-below base p (q ∷ qs) = ground (
  arith,
  mem-added p (relative base q) (below base qs),
  same-relative base p q,
  mem-below base p qs,
)

pub has-file_names : (x : String) (ps : List FilePath) → has x (file_names ps) ≡ mem (x ∷ []) ps
unfolding has mem file_names same
has-file_names x [] = refl
has-file_names x ([] ∷ ps) = has-file_names x ps
has-file_names x ((y ∷ []) ∷ ps) = ground (arith, has-file_names x ps)
has-file_names x ((y ∷ z ∷ q) ∷ ps) = ground (arith, has-file_names x ps)

pub has-dir_names :
    (x y : String) (p : FilePath) (ps : List FilePath)
    → (has x (dir_names ps) && mem (x ∷ y ∷ p) ps) ≡ mem (x ∷ y ∷ p) ps
unfolding has mem dir_names same
has-dir_names x y p [] = refl
has-dir_names x y p ([] ∷ ps) = has-dir_names x y p ps
has-dir_names x y p ((z ∷ []) ∷ ps) = ground (arith, has-dir_names x y p ps)
has-dir_names x y p ((z ∷ w ∷ q) ∷ ps) = ground (arith, has-dir_names x y p ps)

pub has-firsts :
    (x : String) (p : FilePath) (ps : List FilePath)
    → (has x (firsts ps) && mem (x ∷ p) ps) ≡ mem (x ∷ p) ps
unfolding has mem firsts same
has-firsts x p [] = refl
has-firsts x p ([] ∷ ps) = has-firsts x p ps
has-firsts x p ((z ∷ q) ∷ ps) = ground (arith, has-firsts x p ps)

below_le : (x : String) (ps : List FilePath) → parts (below (x ∷ []) ps) ≤ parts ps
unfolding parts below relative
below_le x [] = omega arith
below_le x ([] ∷ ps) = omega (arith, below_le x ps)
below_le x ((y ∷ p) ∷ ps) = elim (Bool-cases (x == y)) [
  | inl e ↦ rw e (omega (arith, below_le x ps))
  | inr e ↦ rw e (omega (arith, below_le x ps))
]

-- Below a directory the paths are shorter.
parts-below :
    (x : String) (ps : List FilePath) {n : ℕ} → parts ps ≤ suc n → parts (below (x ∷ []) ps) ≤ n
unfolding parts below relative
parts-below x [] h = omega arith
parts-below x ([] ∷ ps) h = parts-below x ps (omega (arith, h))
parts-below x ((y ∷ p) ∷ ps) h = elim (Bool-cases (x == y)) [
  | inl e ↦ rw e (omega (arith, h, below_le x ps))
  | inr e ↦ rw e (parts-below x ps (omega (arith, h)))
]

mem-few : (x : String) (p : FilePath) (ps : List FilePath) → parts ps ≤ 0 → mem (x ∷ p) ps ≡ false
unfolding mem parts same
mem-few x p [] h = refl
mem-few x p ([] ∷ ps) h = mem-few x p ps (omega (arith, h))
mem-few x p ((y ∷ q) ∷ ps) h = ground (arith, h)

nil-behind :
    {A : Type 0} (g : A → FilePath) (xs : List A)
    → ((a : A) → same [] (g a) ≡ false)
    → mem [] (map g xs) ≡ false
unfolding mem
nil-behind g [] h = refl
nil-behind g (a ∷ xs) h = ground (arith, h a, nil-behind g xs h)

nil-flat_map :
    (inside : String → List FilePath) (ds : List String)
    → mem [] (flat_map (λ d. map (λ q. d ∷ q) (inside d)) ds) ≡ false
unfolding mem flat_map same
nil-flat_map inside [] = refl
nil-flat_map inside (d ∷ ds) =
    rw
      (
        any-append (same []) (map (λ q. d ∷ q) (inside d)) _,
        nil-flat_map inside ds,
        nil-behind (λ q. d ∷ q) (inside d) (λ q. refl),
      )
      refl

mem-nil : (fuel : ℕ) (ps : List FilePath) → mem [] (os_walk fuel ps) ≡ false
unfolding mem os_walk same
mem-nil zero ps = refl
mem-nil (suc fuel) ps =
    rw
      (
        any-append (same []) (map (λ x. x ∷ []) (sorted (uniq (file_names ps)))) _,
        nil-behind (λ x. x ∷ []) (sorted (uniq (file_names ps))) (λ x. refl),
        nil-flat_map (λ d. os_walk fuel (below (d ∷ []) ps)) (uniq (dir_names ps)),
      )
      refl

-- One round of the walk: the files of the directory, and the walk of each directory in it.
mem-round :
    (fuel : ℕ) (x : String) (p : FilePath) (ps : List FilePath)
    → mem (x ∷ p) (os_walk (suc fuel) ps) ≡ (
        (mem (x ∷ []) ps && same p [])
        || (has x (dir_names ps) && mem p (os_walk fuel (below (x ∷ []) ps))))
unfolding os_walk
mem-round fuel x p ps =
    let names = sorted (uniq (file_names ps)) in
    let inside : String → List FilePath = λ d. os_walk fuel (below (d ∷ []) ps) in
    ground (
      arith,
      mem-append (x ∷ p) (map (λ y. y ∷ []) names)
          (flat_map (λ d. map (λ q. d ∷ q) (inside d)) (uniq (dir_names ps))),
      mem-names x p names,
      has-sorted x (uniq (file_names ps)),
      has-uniq x (file_names ps),
      has-file_names x ps,
      mem-flat_map x p inside (uniq (dir_names ps)),
      has-uniq x (dir_names ps),
    )

-- With enough fuel, the walk finds the files, and nothing else.
pub mem-os_walk :
    (fuel : ℕ) (x : String) (p : FilePath) (ps : List FilePath)
    → parts ps ≤ fuel
    → mem (x ∷ p) (os_walk fuel ps) ≡ mem (x ∷ p) ps
unfolding same mem os_walk
mem-os_walk zero x p ps h = sym (mem-few x p ps h)
mem-os_walk (suc fuel) x [] ps h =
    ground (arith, mem-round fuel x [] ps, mem-nil fuel (below (x ∷ []) ps))
mem-os_walk (suc fuel) x (y ∷ p) ps h = ground (
  arith,
  mem-round fuel x (y ∷ p) ps,
  mem-os_walk fuel y p (below (x ∷ []) ps) (parts-below x ps h),
  mem-below (x ∷ []) (y ∷ p) ps,
  has-dir_names x y p ps,
)

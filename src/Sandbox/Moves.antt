-- ===== src/Sandbox/Moves.antt =====
-- Moves of a file, for `download_artifacts` of sandbox/docker_provider.py: the other files stay.
use cloudagentperform.Base.{
  String, true, false, ◌||◌, ◌≡◌, refl, ◌∙◌, some, List, [], ◌∷◌, ◌++◌, All, ==-sym, eq_refl,
}
use cloudagentperform.Sandbox.Files.{
  FilePath, Files, same, above, stored, without, put, blocked, move,
}

-- Neither file is the other or stands above it.
pub record Apart (f g : FilePath × String) : Type 0 where
  pub differ : same f.0 g.0 ≡ false
  pub not_above : above f.0 g.0 ≡ false
  pub not_below : above g.0 f.0 ≡ false

abbrev pub AllApart : Files → Type 0
AllApart [] = Unit
AllApart (f ∷ fs) = All (Apart f) fs × AllApart fs

pub same_refl : (p : FilePath) → same p p ≡ true
unfolding same
same_refl [] = refl
same_refl (x ∷ p) = rw (eq_refl x, same_refl p) refl

same-sym : (p q : FilePath) → same p q ≡ same q p
unfolding same
same-sym [] [] = refl
same-sym [] (y ∷ q) = refl
same-sym (x ∷ p) [] = refl
same-sym (x ∷ p) (y ∷ q) = rw (==-sym x y, same-sym p q) refl

pub Apart-sym : {f g : FilePath × String} → Apart f g → Apart g f
Apart-sym {f} {g} a = record {
  differ = same-sym g.0 f.0 ∙ a.differ;
  not_above = a.not_below;
  not_below = a.not_above;
}

-- A file that a move leaves alone.
pub record Quiet (src dst : FilePath) (f : FilePath × String) : Type 0 where
  pub from : same src f.0 ≡ false
  pub to : same dst f.0 ≡ false
  pub free : (above dst f.0 || above f.0 dst) ≡ false

without-same : (p : FilePath) (fs : Files) → All (λ f. same p f.0 ≡ false) fs → without p fs ≡ fs
unfolding without
without-same p [] h = refl
without-same p (f ∷ fs) (e, h) = rw (e, without-same p fs h) refl

blocked-free :
    (p : FilePath) (fs : Files)
    → All (λ f. (above p f.0 || above f.0 p) ≡ false) fs
    → blocked p fs ≡ false
unfolding blocked
blocked-free p [] h = refl
blocked-free p (f ∷ fs) (e, h) = rw (e, blocked-free p fs h) refl

pub All-map {ℓ κ} :
    {A : Type ℓ} {P Q : A → Type κ} (f : (a : A) → P a → Q a) (xs : List A) → All P xs → All Q xs
All-map f [] h = tt
All-map f (x ∷ xs) (p, h) = (f x p, All-map f xs h)

stored-head :
    (p : FilePath) (content : String) (fs : Files) → stored p ((p, content) ∷ fs) ≡ some content
unfolding stored
stored-head p content fs = rw (same_refl p) refl

without-head :
    (p : FilePath) (content : String) (fs : Files)
    → All (λ f. same p f.0 ≡ false) fs
    → without p ((p, content) ∷ fs) ≡ fs
unfolding without
without-head p content fs h = rw (same_refl p) (without-same p fs h)

pub put-same :
    (p : FilePath) (content : String) (fs : Files)
    → All (λ f. same p f.0 ≡ false) fs
    → put p content fs ≡ fs ++ (p, content) ∷ []
unfolding put
put-same p content fs h = rw (without-same p fs h) refl

pub move_lem :
    (src dst : FilePath) (content : String) (fs : Files)
    → (above dst src || above src dst) ≡ false
    → All (Quiet src dst) fs
    → move src dst ((src, content) ∷ fs) ≡ some (fs ++ (dst, content) ∷ [])
unfolding move
move_lem src dst content fs free quiet =
    rw
      (
        stored-head src content fs,
        blocked-free dst ((src, content) ∷ fs) (free, All-map (λ f q. q.free) fs quiet),
        without-head src content fs (All-map (λ f q. q.from) fs quiet),
        put-same dst content fs (All-map (λ f q. q.to) fs quiet),
      )
      refl

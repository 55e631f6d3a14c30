-- ===== src/Api/Inside.antt =====
-- The path guard of `download_artifact` in api/main.py.
use cloudagentperform.Base.{
  String, Bool, true, false, not, ◌||◌, ◌≡◌, refl, sym, ap, ◌∙◌, subst, Option, none, some, [], ◌∷◌,
  ◌++◌, ◌==◌, if◌then◌else◌, All, All-append, arith, eq_iff, Bool-cases, inl, inr,
}
use mathlib.Core.List.{append_assoc, append-nil}
use cloudagentperform.Models.{Task}
use cloudagentperform.Store.Table.{Store}
use cloudagentperform.Store.{get}
use cloudagentperform.Sandbox.Files.{FilePath, Files, above, stored}
use cloudagentperform.Api.Artifacts.{
  all_digits, is_digits, follow, walk, Download, file_response, not_found, respond, guarded,
  located, download_artifact,
}

-- A part that names a file or a directory.
abbrev pub is_plain : String → Bool
is_plain part = not (part == "" || part == "." || part == "..")

abbrev pub AllPlain : FilePath → Type 0
AllPlain p = All (λ part. is_plain part ≡ true) p

follow_plain :
    (here : FilePath) (part : String) → is_plain part ≡ true → follow here part ≡ here ++ part ∷ []
follow_plain here part h = ground (arith, h)

pub walk-AllPlain : (here p : FilePath) → AllPlain p → walk here p ≡ here ++ p
unfolding walk
walk-AllPlain here [] h = sym (append-nil here)
walk-AllPlain here (part ∷ p) (h, hs) =
    rw (follow_plain here part h)
      (walk-AllPlain (here ++ part ∷ []) p hs ∙ append_assoc here (part ∷ []) p)

all_digits_ne : (s t : String) → all_digits s ≡ true → all_digits t ≡ false → (s == t) ≡ false
all_digits_ne s t h k = elim (Bool-cases (s == t)) [
  | inl e ↦ cc (h, k, ap all_digits ((eq_iff s t).0 e))
  | inr e ↦ e
]

pub digits_plain : (s : String) → is_digits s ≡ true → is_plain s ≡ true
unfolding is_digits
digits_plain s h =
    let d : all_digits s ≡ true = ground (arith, h) in
    ground (arith, h, all_digits_ne s "." d refl, all_digits_ne s ".." d refl)

-- What is below a path.
pub record Below (base full : FilePath) : Type 0 where
  pub first : String
  pub rest : FilePath
  pub path : full ≡ base ++ first ∷ rest

step_path :
    (x y : String) (q : FilePath) {r : FilePath}
    → x ≡ y
    → q ≡ r
    → ◌≡◌ {A = FilePath} (y ∷ q) (x ∷ r)
step_path x y q e h = cc (e, h)

above-Below : (p q : FilePath) → above p q ≡ true → Below p q
unfolding above
above-Below [] [] h = cc h
above-Below [] (y ∷ q) h = record { first = y; rest = q; path = refl }
above-Below (x ∷ p) [] h = cc h
above-Below (x ∷ p) (y ∷ q) h =
    let b = above-Below p q (ground (arith, h)) in
    record {
      first = b.first;
      rest = b.rest;
      path = step_path x y q ((eq_iff x y).0 (ground (arith, h))) b.path;
    }

respond-file :
    (full : FilePath) (b : Bool) (found : Option String) {path : FilePath} {content : String}
    → respond full b found ≡ file_response path content
    → (b ≡ true) × ((found ≡ some content) × (full ≡ path))
respond-file full true (some c) h = (refl, (cc h, cc h))
respond-file full true none h = cc h
respond-file full false found h = cc h

passed :
    (b : Bool) (answer : Download) {path : FilePath} {content : String}
    → (if not b then not_found "artifact not found" else answer) ≡ file_response path content
    → (b ≡ true) × (answer ≡ file_response path content)
passed true answer h = (refl, h)
passed false answer h = cc h

pub AllPlain-base :
    (dir : FilePath) (tid attempt : String)
    → AllPlain dir
    → is_plain tid ≡ true
    → is_plain attempt ≡ true
    → AllPlain (dir ++ tid ∷ attempt ∷ [])
AllPlain-base dir tid attempt d t a =
    All-append (λ part. is_plain part ≡ true) dir (tid ∷ attempt ∷ []) d (t, (a, tt))

guarded-Below :
    (base full : FilePath) (files : Files) {path : FilePath} {content : String}
    → guarded base full files ≡ file_response path content
    → Below base path × (stored path files ≡ some content)
guarded-Below base full files {path} {content} h =
    let (inside, (found, same)) = respond-file full (above base full) (stored full files) h in
    subst (λ p. Below base p × (stored p files ≡ some content)) same
      (above-Below base full inside, found)

located-Below :
    (dir : FilePath) (files : Files) (found : Option Task) (tid attempt : String) (name : FilePath)
    {path : FilePath} {content : String}
    → AllPlain dir
    → is_plain tid ≡ true
    → located dir files found tid attempt name ≡ file_response path content
    → Below (dir ++ tid ∷ attempt ∷ []) path × (stored path files ≡ some content)
located-Below dir files none tid attempt name d t h = cc h
located-Below dir files (some row) tid attempt name {path} {content} d t h =
    let (digits, answered) = passed (is_digits attempt) _ h in
    subst (λ base. Below base path × (stored path files ≡ some content))
      (walk-AllPlain [] _ (AllPlain-base dir tid attempt d t (digits_plain attempt digits)))
      (guarded-Below (walk [] (dir ++ tid ∷ attempt ∷ [])) _ files answered)

-- Whatever attempt and name a client asks for, `download_artifact` serves only a file that stands below
-- the directory of that task and attempt, with its content, if the artifacts' directory and the task's id
-- have no part that is empty, `.` or `..`.
pub download_artifact-Below :
    (dir : FilePath) (files : Files) (s : Store) (tid attempt : String) (name : FilePath)
    {path : FilePath} {content : String}
    → AllPlain dir
    → is_plain tid ≡ true
    → download_artifact dir files s tid attempt name ≡ file_response path content
    → Below (dir ++ tid ∷ attempt ∷ []) path × (stored path files ≡ some content)
unfolding download_artifact
download_artifact-Below dir files s tid attempt name d t h =
    located-Below dir files (get tid s) tid attempt name d t h

-- ===== src/Sandbox/Placed.antt =====
-- Where `download_artifacts` of sandbox/docker_provider.py leaves the files.
use cloudagentperform.Base.{
  String, true, false, ◌||◌, ◌≡◌, refl, sym, ap, ◌∙◌, some, List, [], ◌∷◌, ◌++◌, map, keep, ◌==◌,
  All, All-append, ==-sym,
}
use mathlib.Core.List.{append-nil, append_assoc, map-append}
use cloudagentperform.Sandbox.{Member, answered}
use cloudagentperform.Sandbox.Files.{FilePath, Files, same, above, put, is_dir, rmtree}
use cloudagentperform.Sandbox.Moves.{Apart, AllApart, Quiet, Apart-sym, All-map, put-same, move_lem}
use cloudagentperform.Sandbox.Artifacts.{
  relpath, joined, sorted, extract_all, flatten, promoted, promote, download,
}

-- The path has a first part, and that is not `output`.
abbrev pub Outside : FilePath × String → Type 0
Outside ([], content) = ⊥
Outside (x ∷ p, content) = (x == "output") ≡ false

-- The file as a member of the archive, and where it is extracted to.
abbrev pub member_of : FilePath × String → Member
member_of (rel, content) = record { name = "output" ∷ rel; is_file = true; content = content }

abbrev pub out : FilePath × String → FilePath × String
out (rel, content) = ("output" ∷ rel, content)

-- A file that has not been moved yet, and one that has.
Quiet-out : (f g : FilePath × String) → Outside f → Apart f g → Quiet ("output" ∷ f.0) f.0 (out g)
unfolding same above
Quiet-out ([], c) g o a = absurd o
Quiet-out (x ∷ p, c) (q, d) o a = record {
  from = a.differ;
  to = rw (o) refl;
  free = rw (o, ==-sym "output" x, o) refl;
}

Quiet-done :
    (f g : FilePath × String) → Outside f → Outside g → Apart f g → Quiet ("output" ∷ f.0) f.0 g
unfolding same
Quiet-done ([], c) g o o' a = absurd o
Quiet-done (x ∷ p, c) ([], d) o o' a = absurd o'
Quiet-done (x ∷ p, c) (y ∷ q, d) o o' a = record {
  from = rw (==-sym "output" y, o') refl;
  to = a.differ;
  free = rw (a.not_above, a.not_below) refl;
}

All-map-out :
    (P : FilePath × String → Type 0) (fs : Files) → All (λ f. P (out f)) fs → All P (map out fs)
All-map-out P [] h = tt
All-map-out P (f ∷ fs) (p, h) = (p, All-map-out P fs h)

All-Quiet-done :
    (f : FilePath × String) (done : Files)
    → Outside f
    → All Outside done
    → All (Apart f) done
    → All (Quiet ("output" ∷ f.0) f.0) done
All-Quiet-done f [] o os a = tt
All-Quiet-done f (g ∷ done) o (o', os) (a, h) =
    (Quiet-done f g o o' a, All-Quiet-done f done o os h)

Outside-above :
    (f : FilePath × String)
    → Outside f
    → (above f.0 ("output" ∷ f.0) || above ("output" ∷ f.0) f.0) ≡ false
unfolding above
Outside-above ([], c) o = absurd o
Outside-above (x ∷ p, c) o = rw (o, ==-sym "output" x, o) refl

-- One more file is in its place.
cross_more :
    (f : FilePath × String) (todo done : Files)
    → All (Apart f) todo
    → All (λ g. All (Apart g) done) todo
    → All (λ g. All (Apart g) (done ++ f ∷ [])) todo
cross_more f [] done h k = tt
cross_more f (g ∷ todo) done (a, h) (b, k) =
    (All-append (Apart g) done (f ∷ []) b (Apart-sym a, tt), cross_more f todo done h k)

flatten_lem :
    (todo done : Files)
    → All Outside todo
    → All Outside done
    → AllApart todo
    → All (λ f. All (Apart f) done) todo
    → flatten (map (λ f. f.0) todo) (map out todo ++ done) ≡ some (done ++ todo)
unfolding flatten
flatten_lem [] done o o' a c = ap some (sym (append-nil done))
flatten_lem (f ∷ todo) done (o, os) o' (a, h) (c, k) =
    rw
      (
        move_lem ("output" ∷ f.0) f.0 f.1 (map out todo ++ done) (Outside-above f o) (
            All-append _ (map out todo) done
              (All-map-out _ todo (All-map (λ g. Quiet-out f g o) todo a))
              (All-Quiet-done f done o o' c)),
        append_assoc (map out todo) done (f ∷ []),
      )
      (flatten_lem todo (done ++ f ∷ []) os (All-append Outside done (f ∷ []) o' (o, tt)) h
          (cross_more f todo done a k)
        ∙ ap some (append_assoc done (f ∷ []) todo))

put-out :
    (f : FilePath × String) (done : Files)
    → All (Apart f) done
    → put ("output" ∷ f.0) f.1 (map out done) ≡ map out (done ++ f ∷ [])
unfolding same
put-out f done c =
    put-same ("output" ∷ f.0) f.1 (map out done)
      (All-map-out (λ g. same ("output" ∷ f.0) g.0 ≡ false) done (All-map (λ g q. q.differ) done c))
    ∙ sym (map-append out done (f ∷ []))

extract_lem :
    (todo done : Files)
    → AllApart todo
    → All (λ f. All (Apart f) done) todo
    → extract_all (map member_of todo) (map out done) ≡ map out (done ++ todo)
unfolding extract_all
extract_lem [] done a c = ap (map out) (sym (append-nil done))
extract_lem (f ∷ todo) done (a, h) (c, k) =
    rw (extract_all, put-out f done c)
      (extract_lem todo (done ++ f ∷ []) h (cross_more f todo done a k)
        ∙ ap (map out) (append_assoc done (f ∷ []) todo))

relpath-member_of : (fs : Files) → map (λ m. relpath m.name) (map member_of fs) ≡ map (λ f. f.0) fs
unfolding relpath
relpath-member_of [] = refl
relpath-member_of (f ∷ fs) = ap (λ l. f.0 ∷ l) (relpath-member_of fs)

rmtree-Outside : (fs : Files) → All Outside fs → rmtree ("output" ∷ []) fs ≡ fs
unfolding rmtree above
rmtree-Outside [] o = refl
rmtree-Outside (([], c) ∷ fs) (o, os) = absurd o
rmtree-Outside ((x ∷ p, c) ∷ fs) (o, os) = rw (==-sym "output" x, o, rmtree-Outside fs os) refl

none_crossed : (fs : Files) → All (λ f. All (Apart f) []) fs
none_crossed [] = tt
none_crossed (f ∷ fs) = (tt, none_crossed fs)

is_dir-out :
    (f : FilePath × String) (fs : Files)
    → Outside f
    → is_dir ("output" ∷ []) (map out (f ∷ fs)) ≡ true
unfolding is_dir above
is_dir-out ([], c) fs o = absurd o
is_dir-out (x ∷ p, c) fs o = refl

map-joined : (fs : Files) → map joined (map (λ f. f.0) fs) ≡ map (λ f. joined f.0) fs
map-joined [] = refl
map-joined (f ∷ fs) = ap (λ l. joined f.0 ∷ l) (map-joined fs)

flatten-out :
    (fs : Files) → All Outside fs → AllApart fs → flatten (map (λ f. f.0) fs) (map out fs) ≡ some fs
flatten-out fs o a =
    ap (flatten (map (λ f. f.0) fs)) (sym (append-nil (map out fs)))
    ∙ flatten_lem fs [] o tt a (none_crossed fs)

promoted_lem :
    (fs : Files)
    → All Outside fs
    → AllApart fs
    → promoted (map (λ f. f.0) fs) (map out fs) ≡ some (sorted (map (λ f. joined f.0) fs), fs)
unfolding promoted
promoted_lem [] o a = refl
promoted_lem (f ∷ fs) o a =
    rw (is_dir-out f fs o.0, flatten-out (f ∷ fs) o a, map-joined fs, rmtree-Outside (f ∷ fs) o)
      refl

promote_lem :
    (fs : Files)
    → All Outside fs
    → AllApart fs
    → promote (map member_of fs) [] ≡ some (sorted (map (λ f. joined f.0) fs), fs)
unfolding promote
promote_lem fs o a =
    rw (relpath-member_of fs, extract_lem fs [] a (none_crossed fs)) (promoted_lem fs o a)

-- If the archive's regular files are files below `output/`, none of them called `output` there or in a
-- directory of that name, and no path is that of another file or of a directory that holds one, as in any file system,
-- then the artifacts are exactly these files with their contents, each at its path below `output/`,
-- and the names are those paths in order. The directory was empty before.
pub download_lem :
    (ms : List Member) (fs : Files)
    → keep (λ m. m.is_file) ms ≡ map member_of fs
    → All Outside fs
    → AllApart fs
    → download (answered ms) [] ≡ some (sorted (map (λ f. joined f.0) fs), fs)
unfolding download promote
download_lem ms fs files o a = rw (files) (promote_lem fs o a)

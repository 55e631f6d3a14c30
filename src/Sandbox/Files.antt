-- ===== src/Sandbox/Files.antt =====
-- The files below a directory, for the file operations of sandbox/docker_provider.py. A path is the
-- list of its parts; a directory exists if a file is below it.
use cloudagentperform.Base.{
  String, Bool, true, false, not, ◌&&◌, ◌||◌, Option, none, some, List, [], ◌∷◌, ◌++◌, ◌==◌,
  if◌then◌else◌, any, keep,
}

abbrev pub FilePath : Type 0
FilePath = List String

abbrev pub Files : Type 0
Files = List (FilePath × String)

unfoldable pub same : FilePath → FilePath → Bool
same [] [] = true
same [] (y ∷ q) = false
same (x ∷ p) [] = false
same (x ∷ p) (y ∷ q) = x == y && same p q

-- Is the second path below the first?
unfoldable pub above : FilePath → FilePath → Bool
above [] [] = false
above [] (y ∷ q) = true
above (x ∷ p) [] = false
above (x ∷ p) (y ∷ q) = x == y && above p q

-- The data of a file.
unfoldable pub stored : FilePath → Files → Option String
unfolding same
stored p [] = none
stored p (f ∷ fs) = if same p f.0 then some f.1 else stored p fs

unfoldable pub without : FilePath → Files → Files
unfolding same
without p fs = keep (λ f. not (same p f.0)) fs

unfoldable pub put : FilePath → String → Files → Files
unfolding without
put p content fs = without p fs ++ (p, content) ∷ []

unfoldable pub is_dir : FilePath → Files → Bool
unfolding above
is_dir p fs = any (λ f. above p f.0) fs

-- Something that is no directory stands where a directory is to be, or the other way round.
unfoldable pub blocked : FilePath → Files → Bool
unfolding above
blocked p fs = any (λ f. above p f.0 || above f.0 p) fs

-- `os.makedirs` of the new path's directory, and `os.replace`; `none` is an `OSError`.
abbrev pub moved : Option String → FilePath → FilePath → Files → Option Files
moved none src dst fs = none
moved (some content) src dst fs =
    if blocked dst fs then none else some (put dst content (without src fs))

unfoldable pub move : FilePath → FilePath → Files → Option Files
unfolding stored blocked put
move src dst fs = moved (stored src fs) src dst fs

-- `shutil.rmtree`
unfoldable pub rmtree : FilePath → Files → Files
unfolding above
rmtree p fs = keep (λ f. not (above p f.0)) fs

-- ===== src/Sandbox/Artifacts.antt =====
-- sandbox/docker_provider.py, `download_artifacts`.
use Prim.Native.Char.{code}
use Prim.Native.String.{◌++◌ as ◌+++◌}
use cloudagentperform.Base.{
  String, Bool, true, false, ◌||◌, ◌&&◌, Option, none, some, List, [], ◌∷◌, map, keep, ◌==◌,
  if◌then◌else◌, ltb, nat_eq,
}
use cloudagentperform.Sandbox.{Member, Reply, answered, not_found, api_error, docker_error}
use cloudagentperform.Sandbox.Files.{FilePath, Files, put, is_dir, move, rmtree}

-- `posixpath.relpath(name, "output")`, of a name without `..`
unfoldable pub relpath : FilePath → FilePath
relpath [] = ".." ∷ []
relpath (x ∷ p) = if x == "output" then p else ".." ∷ x ∷ p

-- The path as a text.
unfoldable pub joined : FilePath → String
joined [] = "."
joined (x ∷ []) = x
joined (x ∷ y ∷ p) = x +++ ("/" +++ joined (y ∷ p))

-- `sorted(names)`
unfoldable pub before : String → String → Bool
before String.[] t = true
before (String.◌∷◌ c s) String.[] = false
before (String.◌∷◌ c s) (String.◌∷◌ d t) =
    let rest = before s t in ltb (code c) (code d) || (nat_eq (code c) (code d) && rest)

unfoldable pub placed : String → List String → List String
unfolding before
placed s [] = s ∷ []
placed s (t ∷ ts) = let rest = placed s ts in if before s t then s ∷ t ∷ ts else t ∷ rest

unfoldable pub sorted : List String → List String
unfolding placed
sorted [] = []
sorted (s ∷ ss) = placed s (sorted ss)

-- `tf.extractall(dest_dir, members=members)`
unfoldable pub extract_all : List Member → Files → Files
unfolding put
extract_all [] fs = fs
extract_all (m ∷ ms) fs = extract_all ms (put m.name m.content fs)

-- The loop that moves the files out of `output/`.
abbrev pub carried_on : Option Files → (Files → Option Files) → Option Files
carried_on none rest = none
carried_on (some fs) rest = rest fs

unfoldable pub flatten : List FilePath → Files → Option Files
unfolding move
flatten [] fs = some fs
flatten (rel ∷ rels) fs = carried_on (move ("output" ∷ rel) rel fs) (flatten rels)

abbrev pub listed : List String → Option Files → Option (List String × Files)
listed names none = none
listed names (some fs) = some (names, rmtree ("output" ∷ []) fs)

unfoldable pub promoted : List FilePath → Files → Option (List String × Files)
unfolding sorted joined is_dir flatten
promoted rels fs =
    let names = sorted (map joined rels) in
    if is_dir ("output" ∷ []) fs then listed names (flatten rels fs) else some (names, fs)

unfoldable pub promote : List Member → Files → Option (List String × Files)
unfolding extract_all relpath promoted
promote members fs = promoted (map (λ m. relpath m.name) members) (extract_all members fs)

-- `download_artifacts`, from the reply to `get_archive` on: the names, and the files below `dest_dir`.
-- `none` is an `OSError`.
unfoldable pub download : Reply (List Member) → Files → Option (List String × Files)
unfolding promote
download (answered ms) fs = promote (keep (λ m. m.is_file) ms) fs
download (not_found why) fs = some ([], fs)
download (api_error why) fs = some ([], fs)
download (docker_error why) fs = some ([], fs)

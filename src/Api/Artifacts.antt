-- ===== src/Api/Artifacts.antt =====
-- api/main.py, `download_artifact`. A path is the list of its parts, from the root of the file system.
-- There are no symbolic links: only regular files are put below the artifacts' directory.
use Prim.Native.Char.{code}
use cloudagentperform.Base.{
  ℕ, nat_eq, String, Bool, true, false, not, ◌&&◌, ◌||◌, Option, none, some, [], ◌∷◌, ◌++◌, ◌==◌,
  if◌then◌else◌, leb,
}
use cloudagentperform.Models.{Task}
use cloudagentperform.Store.Table.{Store}
use cloudagentperform.Store.{get}
use cloudagentperform.Sandbox.Files.{FilePath, Files, above, stored}

-- The digits of Latin-1: ten of ASCII, and three superscripts. (The digits of other scripts, of which
-- `isdigit` is true too, do not occur in the model.)
abbrev pub is_digit : ℕ → Bool
is_digit c = (leb 48 c && leb c 57) || nat_eq c 178 || nat_eq c 179 || nat_eq c 185

-- `attempt.isdigit()`
abbrev pub all_digits : String → Bool
all_digits String.[] = true
all_digits (String.◌∷◌ c s) = is_digit (code c) && all_digits s

unfoldable pub is_digits : String → Bool
is_digits s = not (s == "") && all_digits s

-- The part above.
abbrev pub parent : FilePath → FilePath
parent [] = []
parent (x ∷ []) = []
parent (x ∷ y ∷ p) = x ∷ parent (y ∷ p)

-- `os.path.realpath`: the parts are followed one by one.
abbrev pub follow : FilePath → String → FilePath
follow here part =
    if part == "" || part == "."
    then here
    else if part == ".."
    then parent here
    else here ++ part ∷ []

unfoldable pub walk : FilePath → FilePath → FilePath
walk here [] = here
walk here (part ∷ p) = walk (follow here part) p

-- `os.path.join(base, name)`: a name that begins with a slash has an empty first part.
abbrev pub join : FilePath → FilePath → FilePath
join base [] = base
join base (String.[] ∷ x ∷ p) = x ∷ p
join base p = base ++ p

-- The answer: a file, or an `HTTPException` with status 404.
pub data Download : Type 0 where
  file_response : FilePath → String → Download
  not_found : String → Download

-- `if not full.startswith(base + os.sep) or not os.path.isfile(full)`
abbrev pub respond : FilePath → Bool → Option String → Download
respond full true (some content) = file_response full content
respond full true none = not_found "artifact not found"
respond full false found = not_found "artifact not found"

abbrev pub guarded : FilePath → FilePath → Files → Download
guarded base full files = respond full (above base full) (stored full files)

abbrev pub located : FilePath → Files → Option Task → String → String → FilePath → Download
located dir files none tid attempt name = not_found "task not found"
located dir files (some t) tid attempt name =
    let base = walk [] (dir ++ tid ∷ attempt ∷ []) in
    if not (is_digits attempt)
    then not_found "artifact not found"
    else guarded base (walk [] (join base name)) files

-- `GET /tasks/{task_id}/artifacts/{attempt}/{name:path}`, of the path parameters; `dir` is `cfg.artifacts_dir`.
unfoldable pub download_artifact : FilePath → Files → Store → String → String → FilePath → Download
unfolding get is_digits walk above stored
download_artifact dir files s tid attempt name = located dir files (get tid s) tid attempt name

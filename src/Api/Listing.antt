-- ===== src/Api/Listing.antt =====
-- api/main.py, `list_artifacts`, with the parts of `os` that it calls over a list of files.
pub mod Members
pub mod Served
use mathlib.Core.List.{flat_map}
use cloudagentperform.Base.{
  ℕ, zero, suc, ◌+◌, String, Bool, true, false, not, Option, none, some, List, [], ◌∷◌, ◌++◌, ◌==◌,
  map, any, length, keep, if◌then◌else◌,
}
use cloudagentperform.Models.{Task}
use cloudagentperform.Store.Table.{Store}
use cloudagentperform.Store.{get}
use cloudagentperform.Sandbox.Files.{FilePath, Files, is_dir}
use cloudagentperform.Sandbox.Artifacts.{sorted}
use cloudagentperform.Cli.Parse.{int, is_none}
use cloudagentperform.Api.Artifacts.{is_digits}

-- Each name once.
unfoldable pub uniq : List String → List String
uniq [] = []
uniq (x ∷ xs) = x ∷ keep (λ y. not (y == x)) (uniq xs)

-- `os.path.relpath` of a path that is below `base`.
unfoldable pub relative : FilePath → FilePath → Option FilePath
relative [] p = some p
relative (x ∷ base) [] = none
relative (x ∷ base) (y ∷ p) = let rest = relative base p in if x == y then rest else none

abbrev pub added : Option FilePath → List FilePath → List FilePath
added none ps = ps
added (some p) ps = p ∷ ps

-- The paths below `base`, relative to it.
unfoldable pub below : FilePath → List FilePath → List FilePath
unfolding relative
below base [] = []
below base (p ∷ ps) = added (relative base p) (below base ps)

-- The first parts of the paths; of those that are a name only; and of the longer ones.
unfoldable pub firsts : List FilePath → List String
firsts [] = []
firsts ([] ∷ ps) = firsts ps
firsts ((x ∷ p) ∷ ps) = x ∷ firsts ps

unfoldable pub file_names : List FilePath → List String
file_names [] = []
file_names ([] ∷ ps) = file_names ps
file_names ((x ∷ []) ∷ ps) = x ∷ file_names ps
file_names ((x ∷ y ∷ p) ∷ ps) = file_names ps

unfoldable pub dir_names : List FilePath → List String
dir_names [] = []
dir_names ([] ∷ ps) = dir_names ps
dir_names ((x ∷ []) ∷ ps) = dir_names ps
dir_names ((x ∷ y ∷ p) ∷ ps) = x ∷ dir_names ps

-- `for root, _dirs, files in os.walk(adir): for name in sorted(files)`: the paths relative to `adir`.
-- The depth of the directories is bounded by `fuel`.
unfoldable pub os_walk : ℕ → List FilePath → List FilePath
unfolding sorted uniq below file_names dir_names flat_map
os_walk zero ps = []
os_walk (suc fuel) ps =
    map (λ x. x ∷ []) (sorted (uniq (file_names ps)))
    ++ flat_map (λ d. map (λ p. d ∷ p) (os_walk fuel (below (d ∷ []) ps))) (uniq (dir_names ps))

-- How many parts the paths have together, which is enough fuel.
unfoldable pub parts : List FilePath → ℕ
parts [] = 0
parts (p ∷ ps) = length p + parts ps

-- An entry of the list, with its `url` split at the slashes; the code quotes nothing in it. `attempt` is
-- `none` where `int(attempt)` raises.
pub record Item : Type 0 where
  pub attempt : Option ℕ
  pub name : FilePath
  pub url : FilePath

abbrev pub url_of : String → String → FilePath → FilePath
url_of tid attempt rel = "tasks" ∷ tid ∷ "artifacts" ∷ attempt ∷ rel

unfoldable pub item_of : String → String → FilePath → Item
unfolding int
item_of tid attempt rel = record { attempt = int attempt; name = rel; url = url_of tid attempt rel }

-- The files of one attempt, whose paths relative to its directory are given.
unfoldable pub of_attempt : String → String → List FilePath → List Item
unfolding os_walk parts item_of
of_attempt tid attempt ps = map (item_of tid attempt) (os_walk (parts ps) ps)

unfoldable pub items : FilePath → String → List FilePath → List Item
unfolding of_attempt below firsts uniq sorted flat_map is_digits
items base tid paths =
    flat_map (λ a. of_attempt tid a (below (base ++ a ∷ []) paths))
      (keep is_digits (sorted (uniq (firsts (below base paths)))))

-- The answer: the list, an `HTTPException` with status 404, or the `ValueError` of `int(attempt)`, which
-- nothing catches: the framework answers 500.
pub data Listing : Type 0 where
  artifacts : String → List Item → Listing
  no_task : String → Listing
  value_error : Listing

abbrev pub file_paths : Files → List FilePath
file_paths files = map (λ f. f.0) files

abbrev pub answered : Bool → String → List Item → Listing
answered true tid its = value_error
answered false tid its = artifacts tid its

abbrev pub checked_list : String → List Item → Listing
checked_list tid its = answered (any (λ (i : Item). is_none i.attempt) its) tid its

unfoldable pub listing : FilePath → Files → Option Task → String → Listing
unfolding is_dir items
listing dir files none tid = no_task "task not found"
listing dir files (some t) tid =
    checked_list tid (
      if is_dir (dir ++ tid ∷ []) files then items (dir ++ tid ∷ []) tid (file_paths files) else [])

-- `GET /tasks/{task_id}/artifacts`; `dir` is `cfg.artifacts_dir`.
unfoldable pub list_artifacts : FilePath → Files → Store → String → Listing
unfolding get listing
list_artifacts dir files s tid = listing dir files (get tid s) tid

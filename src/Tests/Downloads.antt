-- ===== src/Tests/Downloads.antt =====
-- A download at a concrete file system.
use cloudagentperform.Base.{◌≡◌, refl, some, [], ◌∷◌, ◌++◌}
use cloudagentperform.Models.{in_event_types}
use cloudagentperform.Store.Table.{init, select_id, select_key, update_rows}
use cloudagentperform.Store.{get, create_task, claim, append_event}
use cloudagentperform.Store.History.{exec, run}
use cloudagentperform.Sandbox.Files.{FilePath, Files, above, stored}
use cloudagentperform.Api.Artifacts.{is_digits, walk, download_artifact}
use cloudagentperform.Api.Inside.{Below, download_artifact-Below}
use cloudagentperform.Api.Listing.{value_error, url_of, item_of, items, file_paths, list_artifacts}
use cloudagentperform.Api.Listing.Served.{is_served, offers, request, list_artifacts-served}
use cloudagentperform.Tests.Stores.{begun}

abbrev dir : FilePath
dir = "data" ∷ "artifacts" ∷ []

abbrev files : Files
files =
    ("data" ∷ "artifacts" ∷ "t1" ∷ "1" ∷ "report.md" ∷ [], "ok")
    ∷ ("data" ∷ "cap.db" ∷ [], "secret")
    ∷ []

download_artifact-Below_example :
    Below
      ("data" ∷ "artifacts" ∷ "t1" ∷ "1" ∷ [])
      ("data" ∷ "artifacts" ∷ "t1" ∷ "1" ∷ "report.md" ∷ [])
    × (stored ("data" ∷ "artifacts" ∷ "t1" ∷ "1" ∷ "report.md" ∷ []) files ≡ some "ok")
unfolding get run exec create_task claim append_event in_event_types select_key select_id
    update_rows is_digits walk above stored download_artifact
download_artifact-Below_example =
    download_artifact-Below dir files (run begun init) "t1" "1" ("docs" ∷ ".." ∷ "report.md" ∷ [])
      (refl, (refl, tt)) refl refl

-- A second attempt with a directory in it, and a directory that no attempt has written.
abbrev more : Files
more =
    ("data" ∷ "artifacts" ∷ "t1" ∷ "2" ∷ "docs" ∷ "b.md" ∷ [], "b")
    ∷ ("data" ∷ "artifacts" ∷ "t1" ∷ "2" ∷ "docs" ∷ "a.md" ∷ [], "a")
    ∷ ("data" ∷ "artifacts" ∷ "t1" ∷ ".tmp" ∷ "x" ∷ [], "x")
    ∷ files

listed :
    items (dir ++ "t1" ∷ []) "t1" (file_paths more)
    ≡ item_of "t1" "1" ("report.md" ∷ [])
      ∷ item_of "t1" "2" ("docs" ∷ "a.md" ∷ [])
      ∷ item_of "t1" "2" ("docs" ∷ "b.md" ∷ [])
      ∷ []
unfolding items item_of
listed = refl

-- A stray directory whose name is a superscript makes the list raise.
listed_stray :
    list_artifacts dir
      (("data" ∷ "artifacts" ∷ "t1" ∷ "²" ∷ "x" ∷ [], "x") ∷ more)
      (run begun init)
      "t1"
    ≡ value_error
unfolding list_artifacts get select_id run exec create_task claim append_event in_event_types
    select_key update_rows
listed_stray = refl

list_artifacts-served_example :
    offers (url_of "t1" "2" ("docs" ∷ "a.md" ∷ [])) (list_artifacts dir more (run begun init) "t1")
    ≡ is_served (request dir more (run begun init) (url_of "t1" "2" ("docs" ∷ "a.md" ∷ [])))
unfolding list_artifacts get select_id run exec create_task claim append_event in_event_types
    select_key update_rows
list_artifacts-served_example =
    list_artifacts-served (λ url. url) dir more (run begun init) "t1" "2" "docs" ("a.md" ∷ [])
      (λ url h. refl) (refl, (refl, tt)) refl (refl, (refl, tt)) (refl, (refl, (refl, (refl, tt))))
      refl

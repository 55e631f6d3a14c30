-- ===== src/Sandbox/Nested.antt =====
-- `download_artifacts` of sandbox/docker_provider.py, where the artifacts themselves have an `output`.
use cloudagentperform.Base.{String, true, false, ◌≡◌, refl, none, some, [], ◌∷◌, ◌==◌, ==-sym}
use cloudagentperform.Sandbox.{answered}
use cloudagentperform.Sandbox.Files.{
  FilePath, same, above, stored, without, put, is_dir, blocked, move, rmtree,
}
use cloudagentperform.Sandbox.Artifacts.{
  relpath, joined, sorted, extract_all, flatten, promoted, promote, download, placed,
}
use cloudagentperform.Sandbox.Moves.{move_lem}

-- Let the archive that the daemon answers with hold one file and no other entry, and let the artifacts'
-- directory be empty. If the file is `output/output/x/…`, where `x` is not `output`, its name is in the
-- result, but no file is in the artifacts' directory. If it is `output/output`, the call raises an
-- `OSError`.
pub download_nested :
    (x : String) (p : FilePath) (content : String)
    → (x == "output") ≡ false
    → (download
          (answered
            (record { name = "output" ∷ "output" ∷ x ∷ p; is_file = true; content = content } ∷ []))
          []
        ≡ some (joined ("output" ∷ x ∷ p) ∷ [], []))
      × (download
            (answered
              (record { name = "output" ∷ "output" ∷ []; is_file = true; content = content } ∷ []))
            []
          ≡ none)
unfolding download promote promoted extract_all relpath put without stored blocked move flatten
    is_dir rmtree above same sorted placed
download_nested x p content h = (
  rw
      (move_lem ("output" ∷ "output" ∷ x ∷ p) ("output" ∷ x ∷ p) content []
        (rw (h, ==-sym "output" x, h) refl) tt)
      refl,
  refl,
)

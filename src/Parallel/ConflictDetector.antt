-- ===== src/Parallel/ConflictDetector.antt =====
-- internal/application/service/conflict_detector.go: which SBI is modifying which file. The mutex
-- makes each method one step. The methods read the id and the file paths of the SBI.
use deespec.Base.{
  ℕ, String, Bool, false, not, ◌||◌, none, some, List, [], ◌∷◌, length, str_eq, if◌then◌else◌,
}
use deespec.Base.Dict.{Dict, lookup, insert, delete}
use deespec.Model.Sbi.{Sbi}

pub record ConflictDetector : Type 0 where
  pub active_files : Dict String

unfoldable pub new_conflict_detector : ConflictDetector
new_conflict_detector = record { active_files = [] }

-- The test of HasConflict on one file.
unfoldable pub taken : Dict String → String → String → Bool
taken active id path = elim (lookup path active) [
  | none ↦ false
  | some owner ↦ not (str_eq owner id)
]

-- The loops over the file paths.
unfoldable pub any_taken : Dict String → String → List String → Bool
unfolding taken
any_taken active id [] = false
any_taken active id (path ∷ paths) = taken active id path || any_taken active id paths

unfoldable pub register_paths : Dict String → String → List String → Dict String
register_paths active id [] = active
register_paths active id (path ∷ paths) = register_paths (insert path id active) id paths

unfoldable pub unregister_path : Dict String → String → String → Dict String
unregister_path active id path = elim (lookup path active) [
  | none ↦ active
  | some owner ↦ if str_eq owner id then delete path active else active
]

unfoldable pub unregister_paths : Dict String → String → List String → Dict String
unfolding unregister_path
unregister_paths active id [] = active
unregister_paths active id (path ∷ paths) =
    unregister_paths (unregister_path active id path) id paths

unfoldable pub has_conflict : ConflictDetector → Sbi → Bool
has_conflict d s = any_taken d.active_files s.id s.metadata.file_paths

unfoldable pub register : ConflictDetector → Sbi → ConflictDetector
register d s = record { active_files = register_paths d.active_files s.id s.metadata.file_paths }

unfoldable pub unregister : ConflictDetector → Sbi → ConflictDetector
unregister d s = record {
  active_files = unregister_paths d.active_files s.id s.metadata.file_paths;
}

unfoldable pub get_conflicting_sbi_id : ConflictDetector → String → String
get_conflicting_sbi_id d path = elim (lookup path d.active_files) [ none ↦ "" | some id ↦ id ]

unfoldable pub get_active_files : ConflictDetector → Dict String
get_active_files d = d.active_files

unfoldable pub clear : ConflictDetector → ConflictDetector
clear d = record { active_files = [] }

unfoldable pub get_active_file_count : ConflictDetector → ℕ
get_active_file_count d = length d.active_files

-- ===== src/Picker/Locked.antt =====
-- Which SBI is picked and locked.
use deespec.Base.{◌≡◌, ◌⊎◌, String, Option, some, List, [], ◌∷◌, ◌++◌, Result, ok, err}
use deespec.Base.Text.{◌<>◌}
use deespec.Model.Sbi.{Sbi}
use deespec.Parallel.Runner.{SbiFilter, ids_of}
use deespec.Parallel.Ready.{AllAmong}
use deespec.Picker.Sbis.{in_progress_filter, completed_filter, pending_filter}

-- The dependencies cannot be read, or all are among the completed.
abbrev pub DependenciesMet : (Sbi → Result String (List String)) → List String → Sbi → Type 0
DependenciesMet get_dependencies completed s =
    ((e : String) × (get_dependencies s ≡ err e))
    ⊎ ((deps : List String) × (get_dependencies s ≡ ok deps) × AllAmong deps completed)

-- None of the SBIs may start.
abbrev pub NoneMet : (Sbi → Result String (List String)) → List String → List Sbi → Type 0
NoneMet get_dependencies completed [] = Unit
NoneMet get_dependencies completed (s ∷ sbis) =
    (DependenciesMet get_dependencies completed s → ⊥) × NoneMet get_dependencies completed sbis

-- The first of the listed SBIs that may start.
abbrev pub IsFirstMet : (Sbi → Result String (List String)) → List String → Sbi → List Sbi → Type 0
IsFirstMet get_dependencies completed s sbis =
    (earlier later : List Sbi) × (sbis ≡ earlier ++ s ∷ later)
    × NoneMet get_dependencies completed earlier
    × DependenciesMet get_dependencies completed s

-- What is picked: the first SBI in progress, or if there is none the first pending one that may start.
abbrev pub IsPicked :
    (SbiFilter → Result String (List Sbi)) → (Sbi → Result String (List String)) → Sbi → Type 0
IsPicked list get_dependencies s =
    ((others : List Sbi) × (list in_progress_filter ≡ ok (s ∷ others)))
    ⊎ ((list in_progress_filter ≡ ok [])
        × ((done pending : List Sbi) × (list completed_filter ≡ ok done)
            × (list pending_filter ≡ ok pending)
            × IsFirstMet get_dependencies (ids_of done) s pending))

-- The lock service has given this lock for the SBI.
abbrev pub IsLocked : (L : Type 0) → Option (String → Result String (Option L)) → Sbi → L → Type 0
IsLocked L service s lock =
    (acquire_state_lock : String → Result String (Option L)) × (service ≡ some acquire_state_lock)
    × (acquire_state_lock ("sbi/" <> s.id) ≡ ok (some lock))

-- ===== src/Parallel/Ready.antt =====
-- Which SBIs a batch is made of.
use mathlib.Core.List.{Memᴰ}
use deespec.Base.{
  ℕ, ◌≡◌, ◌*◌, ◌≤◌, ◌⊎◌, inl, inr, String, true, List, [], ◌∷◌, length, Result, ok, err, any,
  str_eq, Bool-cases,
}
use deespec.Model.Status
use deespec.Model.Status.{Status}
use deespec.Model.Sbi.{Sbi}
use deespec.Parallel.Runner.{SbiFilter, are_dependencies_met, ids_of}

pub ok_injective : (a b : List Sbi) → ◌≡◌ {A = Result String (List Sbi)} (ok a) (ok b) → a ≡ b
ok_injective a b e = cc

-- Every text of the first list is one of the second.
abbrev pub AllAmong : List String → List String → Type 0
AllAmong [] known = Unit
AllAmong (dep ∷ deps) known = (any (str_eq dep) known ≡ true) × AllAmong deps known

abbrev in_progress : List Status
in_progress = Status.picked ∷ Status.implementing ∷ Status.reviewing ∷ []

abbrev pub HasStatus : List Status → Sbi → Type 0
HasStatus statuses s = any (Status.same s.status) statuses ≡ true

-- An SBI may run: it is in progress, or it is PENDING and its dependencies could not be read or all
-- of them are completed.
abbrev pub Ready : (Sbi → Result String (List String)) → List String → Sbi → Type 0
Ready get_dependencies completed s =
    HasStatus in_progress s
    ⊎ ((Status.same s.status Status.pending ≡ true)
        × (((e : String) × (get_dependencies s ≡ err e))
            ⊎ ((deps : List String) × (get_dependencies s ≡ ok deps) × AllAmong deps completed)))

abbrev pub Each : (Sbi → Type 0) → List Sbi → Type 0
Each P [] = Unit
Each P (s ∷ rest) = P s × Each P rest

-- What List documents of a filter by status: every SBI it returns has one of the statuses.
abbrev pub FiltersStatuses : (SbiFilter → Result String (List Sbi)) → Type 0
FiltersStatuses list =
    (filter : SbiFilter) (found : List Sbi)
    → list filter ≡ ok found
    → Each (HasStatus filter.statuses) found

pub met-AllAmong :
    (completed deps : List String)
    → are_dependencies_met completed (ok deps) ≡ true
    → AllAmong deps completed
unfolding are_dependencies_met
met-AllAmong completed [] h = tt
met-AllAmong completed (dep ∷ deps) h = elim (Bool-cases (any (str_eq dep) completed)) [
  | inl found ↦ (found, met-AllAmong completed deps (simp (found, are_dependencies_met) at h))
  | inr missing ↦ cc (simp (missing, are_dependencies_met) at h)
]

abbrev listed : List Status
listed = Status.pending ∷ in_progress

-- The SBIs of the batch: where both reads have succeeded, with these results.
abbrev pub Fetched :
    (SbiFilter → Result String (List Sbi))
    → (Sbi → Result String (List String))
    → ℕ
    → List Sbi
    → List Sbi
    → List Sbi
    → Type 0
Fetched list get_dependencies limit completed candidates sbis =
    (list (record { statuses = Status.done ∷ []; limit = 1000 }) ≡ ok completed)
    × (list (record {
      statuses = Status.pending ∷ Status.picked ∷ Status.implementing ∷ Status.reviewing ∷ [];
      limit = limit * 3;
    })
        ≡ ok candidates)
    × Each (λ s. Memᴰ s candidates × Ready get_dependencies (ids_of completed) s) sbis
    × (length sbis ≤ limit)

-- ===== src/Picker/Sbis.antt =====
-- internal/application/service/sbi_execution_service.go: the pick of the next SBI, and its lock. The
-- repository's List and GetDependencies are arguments, and so is the lock service, with the states of
-- what it locks and its type of locks.
use deespec.Base.{String, Option, some, none, List, [], ◌∷◌, Result, ok, err, if◌then◌else◌}
use deespec.Base.Text.{◌<>◌}
use deespec.Model.Status
use deespec.Model.Sbi.{Sbi}
use deespec.Parallel.Runner.{SbiFilter, are_dependencies_met, ids_of}

pub data ServiceError : Type 0 where
  list_in_progress_failed list_completed_failed list_pending_failed : String → ServiceError
  acquire_failed : String → ServiceError

abbrev pub in_progress_filter : SbiFilter
in_progress_filter = record {
  statuses = Status.picked ∷ Status.implementing ∷ Status.reviewing ∷ [];
  limit = 1;
}

abbrev pub completed_filter : SbiFilter
completed_filter = record { statuses = Status.done ∷ []; limit = 1000 }

abbrev pub pending_filter : SbiFilter
pending_filter = record { statuses = Status.pending ∷ []; limit = 100 }

-- The first candidate whose dependencies are met.
unfoldable pub first_ready :
    (Sbi → Result String (List String)) → List String → List Sbi → Option Sbi
unfolding are_dependencies_met
first_ready get_dependencies completed [] = none
first_ready get_dependencies completed (candidate ∷ candidates) =
    let rest = first_ready get_dependencies completed candidates in
    if are_dependencies_met completed (get_dependencies candidate) then some candidate else rest

unfoldable pub get_completed_sbi_ids :
    (SbiFilter → Result String (List Sbi)) → Result String (List String)
get_completed_sbi_ids list = elim (list completed_filter) [
  | err e ↦ err e
  | ok sbis ↦ ok (ids_of sbis)
]

module _ (list : SbiFilter → Result String (List Sbi))
    (get_dependencies : Sbi → Result String (List String)) where
  unfoldable pub pick_pending : Result ServiceError (Option Sbi)
  unfolding get_completed_sbi_ids first_ready
  pick_pending = elim (get_completed_sbi_ids list) [
    | err e ↦ err (list_completed_failed e)
    | ok completed ↦ elim (list pending_filter) [
      | err e ↦ err (list_pending_failed e)
      | ok pending ↦ ok (first_ready get_dependencies completed pending)
    ]
  ]

  unfoldable pub pick_next_sbi : Result ServiceError (Option Sbi)
  unfolding pick_pending
  pick_next_sbi = elim (list in_progress_filter) [
    | err e ↦ err (list_in_progress_failed e)
    | ok [] ↦ pick_pending
    | ok (s ∷ _) ↦ ok (some s)
  ]

module _ (L : Type 0) (service : Option (String → Result String (Option L))) where
  -- Without a lock service there is no lock and no error.
  unfoldable pub acquire_sbi_lock : String → Result ServiceError (Option L)
  acquire_sbi_lock sbi_id = elim service [
    | none ↦ ok none
    | some acquire_state_lock ↦ elim (acquire_state_lock ("sbi/" <> sbi_id)) [
      | err e ↦ err (acquire_failed e)
      | ok lock ↦ ok lock
    ]
  ]

  -- The end of PickAndLockNextSBI, for the SBI picked.
  unfoldable pub lock_picked : Option Sbi → Result ServiceError (Option (Sbi × L))
  unfolding acquire_sbi_lock
  lock_picked none = ok none
  lock_picked (some s) = elim (acquire_sbi_lock s.id) [
    | err e ↦ err e
    | ok none ↦ ok none
    | ok (some lock) ↦ ok (some (s, lock))
  ]

  unfoldable pub pick_and_lock_next_sbi :
      Result ServiceError (Option Sbi) → Result ServiceError (Option (Sbi × L))
  unfolding lock_picked
  pick_and_lock_next_sbi (err e) = err e
  pick_and_lock_next_sbi (ok picked) = lock_picked picked

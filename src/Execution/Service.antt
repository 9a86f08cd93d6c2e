-- ===== src/Execution/Service.antt =====
-- internal/domain/execution/service.go, over the repository interface of repository.go.
use deespec.Base.{
  ℕ, String, Bool, false, not, ◌&&◌, Option, none, some, List, [], ◌∷◌, ◌++◌, Result, ok, err,
  ◌>>=◌, leb, ltb, if◌then◌else◌,
}
use deespec.Execution.Step
use deespec.Execution.Step.{Step}
use deespec.Execution.Status
use deespec.Execution.Status.{Status}
use deespec.Execution.Decision
use deespec.Execution.Decision.{Decision}
use deespec.Execution.Entity.{
  SbiExecution, Error, new_sbi_execution, transition_to, apply_decision, is_completed, next_step,
}

-- The methods of `SBIExecutionRepository` that the service calls. A call may change the store also
-- when it fails; a repository keeps values, so what a method does to a loaded execution is not
-- seen by the store before `Save` or `Update`.
pub record Repository : Type 1 where
  pub Store : Type 0
  pub save : Store → SbiExecution → Store × Option String
  pub find_by_id : Store → String → Result String SbiExecution
  pub find_by_sbi_id : Store → String → Result String (Option SbiExecution)
  pub update : Store → SbiExecution → Store × Option String

pub data ServiceError : Type 0 where
  already_active : String → ServiceError
  not_saved : String → ServiceError
  not_found : String → ServiceError
  already_completed : SbiExecution → ServiceError
  decision_not_applied : Error → ServiceError
  no_next_step : Error → ServiceError
  not_transitioned : Error → ServiceError
  not_completed : Error → ServiceError
  not_updated : String → ServiceError

abbrev pub map_err {ℓ} :
    {A : Type ℓ} → (Error → ServiceError) → Result Error A → Result ServiceError A
map_err f (ok a) = ok a
map_err f (err e) = err (f e)

-- "Apply decision if in review status".
unfoldable pub apply_in_review : SbiExecution → Decision → ℕ → Result ServiceError SbiExecution
unfolding Status.is_review Decision.is_valid Decision.is_pending apply_decision
apply_in_review e decision now =
    if Status.is_review e.status && Decision.is_valid decision && not (Decision.is_pending decision)
    then map_err decision_not_applied (apply_decision e decision now)
    else ok e

-- `ProgressExecution` between the load and the update.
unfoldable pub advance : SbiExecution → Decision → ℕ → Result ServiceError SbiExecution
unfolding is_completed apply_in_review next_step transition_to
advance e decision now = if is_completed e then err (already_completed e) else do
  decided ← apply_in_review e decision now
  next ← map_err no_next_step (next_step decided)
  map_err not_transitioned (transition_to decided next now)

-- `CompleteExecution` between the load and the update.
unfoldable pub finish : SbiExecution → Decision → ℕ → Result ServiceError SbiExecution
unfolding is_completed transition_to
finish e final_decision now =
    if is_completed e
    then err (already_completed e)
    else map_err not_completed
        (transition_to (record e { decision = final_decision }) Step.done now)

abbrev reached : Step → ℕ → Bool
reached s n = leb n (Step.to_number s)

abbrev within : Step → ℕ → Bool
within s n = leb (Step.to_number s) n

-- `GetExecutionPath` after the load.
unfoldable pub execution_path : SbiExecution → List Step
unfolding Step.to_number Step.same Decision.same
execution_path e =
    let first = Step.ready ∷ Step.implement_try ∷ Step.first_review ∷ [] in
    if within e.step 3 && Decision.same e.decision Decision.succeeded
    then first ++ Step.done ∷ []
    else let second =
        if reached e.step 4
        then first ++ Step.implement_second_try ∷ Step.second_review ∷ []
        else first in
      if within e.step 5 && Step.same e.step Step.done
      then second ++ Step.done ∷ []
      else let third =
          if reached e.step 6
          then second ++ Step.implement_third_try ∷ Step.third_review ∷ []
          else second in
        if within e.step 7 && Step.same e.step Step.done
        then third ++ Step.done ∷ []
        else if reached e.step 8
        then third ++ Step.reviewer_force_implement ∷ Step.implementer_review ∷ Step.done ∷ []
        else third

-- `IsExecutionStuck` after the load; the source also returns a text for each of the two reasons.
pub data Stuck : Type 0 where
  not_stuck review_failures too_many_attempts : Stuck

unfoldable pub stuck_reason : SbiExecution → Stuck
unfolding Status.same Decision.same
stuck_reason e =
    if Status.same e.status Status.review
      && Decision.same e.decision Decision.needs_changes
      && leb 3 e.attempt
    then review_failures
    else if Status.same e.status Status.wip && ltb 3 e.attempt
    then too_many_attempts
    else not_stuck

module _ (repository : Repository) where
  open repository use {Store, save, find_by_id, find_by_sbi_id, update}

  -- The guard of `StartExecution`: a failed or empty search finds nothing active.
  unfoldable pub has_active : Store → String → Bool
  unfolding is_completed
  has_active store sbi_id = elim (find_by_sbi_id store sbi_id) [
    | ok (some existing) ↦ not (is_completed existing)
    | ok none ↦ false
    | err e ↦ false
  ]

  unfoldable pub start_execution : Store → String → ℕ → Store × Result ServiceError SbiExecution
  unfolding has_active new_sbi_execution
  start_execution store sbi_id now =
      if has_active store sbi_id
      then (store, err (already_active sbi_id))
      else let execution = new_sbi_execution sbi_id now in
        let (stored, failure) = save store execution in
        (stored, elim failure [ none ↦ ok execution | some e ↦ err (not_saved e) ])

  -- The last lines that `ProgressExecution` and `CompleteExecution` share.
  unfoldable pub update_with :
      Store → Result ServiceError SbiExecution → Store × Result ServiceError SbiExecution
  update_with store (err e) = (store, err e)
  update_with store (ok execution) =
      let (stored, failure) = update store execution in
      (stored, elim failure [ none ↦ ok execution | some e ↦ err (not_updated e) ])

  unfoldable pub progress_execution :
      Store → String → Decision → ℕ → Store × Result ServiceError SbiExecution
  unfolding advance update_with
  progress_execution store id decision now = elim (find_by_id store id) [
    | err e ↦ (store, err (not_found e))
    | ok execution ↦ update_with store (advance execution decision now)
  ]

  unfoldable pub complete_execution :
      Store → String → Decision → ℕ → Store × Result ServiceError SbiExecution
  unfolding finish update_with
  complete_execution store id final_decision now = elim (find_by_id store id) [
    | err e ↦ (store, err (not_found e))
    | ok execution ↦ update_with store (finish execution final_decision now)
  ]

  unfoldable pub get_execution_path : Store → String → Result ServiceError (List Step)
  unfolding execution_path
  get_execution_path store id = elim (find_by_id store id) [
    | err e ↦ err (not_found e)
    | ok execution ↦ ok (execution_path execution)
  ]

  unfoldable pub is_execution_stuck : Store → String → Stuck
  unfolding stuck_reason
  is_execution_stuck store id = elim (find_by_id store id) [
    | err e ↦ not_stuck
    | ok execution ↦ stuck_reason execution
  ]

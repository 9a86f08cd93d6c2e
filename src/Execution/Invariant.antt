-- ===== src/Execution/Invariant.antt =====
-- What holds of an execution between two calls of the service.
use deespec.Base.{
  ℕ, ◌≡◌, ◌≢◌, ◌↔◌, ◌<◌, ◌⊎◌, String, Bool, true, false, not, ◌&&◌, ◌==◌, leb, Option, none, some,
  Succeeds, arith, if◌then◌else◌,
}
use deespec.Execution.Step
use deespec.Execution.Step.{Step}
use deespec.Execution.Status
use deespec.Execution.Decision
use deespec.Execution.Decision.{Decision}
use deespec.Execution.Entity.{SbiExecution, new_sbi_execution, is_completed, get_final_decision}
use deespec.Execution.Service.{advance, stuck_reason, review_failures, too_many_attempts}

-- The number of implementation attempts that each step allows.
abbrev pub attempt_fits : Step → ℕ → Bool
attempt_fits Step.ready n = n == 0
attempt_fits Step.implement_try n = n == 1
attempt_fits Step.first_review n = n == 1
attempt_fits Step.implement_second_try n = n == 2
attempt_fits Step.second_review n = n == 2
attempt_fits Step.implement_third_try n = n == 3
attempt_fits Step.third_review n = n == 3
attempt_fits Step.reviewer_force_implement n = n == 4
attempt_fits Step.implementer_review n = n == 4
attempt_fits Step.done n = leb 1 n && leb n 4
attempt_fits (Step.other s) n = false

-- An approval ends the workflow, so it stands only at its end; an execution that is done after at
-- most three attempts was approved.
abbrev pub decision_fits : Step → ℕ → Bool → Bool
decision_fits Step.done n approved = if leb n 3 then approved else true
decision_fits Step.implementer_review n approved = true
decision_fits _ n approved = not approved

abbrev pub stamped : Option ℕ → Bool
stamped none = false
stamped (some t) = true

pub record Inv (e : SbiExecution) : Type 0 where
  pub status_of_step : e.status ≡ Step.to_status e.step
  pub attempt_of_step : attempt_fits e.step e.attempt ≡ true
  pub decision_valid : Decision.is_valid e.decision ≡ true
  pub decision_of_step :
      decision_fits e.step e.attempt (Decision.same e.decision Decision.succeeded) ≡ true
  pub completed_stamp : stamped e.completed_at ≡ is_completed e

-- A new execution satisfies the invariant.
pub new_sbi_execution-Inv : (sbi_id : String) (now : ℕ) → Inv (new_sbi_execution sbi_id now)
unfolding new_sbi_execution Step.to_status Decision.is_valid Decision.same is_completed
new_sbi_execution-Inv sbi_id now = ground arith

-- From an execution that satisfies the invariant and is not completed, a call of `advance` succeeds,
-- keeps the invariant and takes the execution to a later step.
pub advance_total :
    (e : SbiExecution) (d : Decision) (now : ℕ)
    → Inv e
    → is_completed e ≡ false
    → Succeeds (λ e'. Inv e' × (Step.to_number e.step < Step.to_number e'.step)) (advance e d now)
unfolding advance Step.to_number
advance_total e d now h open_ = ground arith

-- The status machine follows the step machine: a permitted change of step is a permitted change
-- of the two steps' statuses.
pub can_transition_to-refines :
    (s t : Step)
    → Step.can_transition_to s t ≡ true
    → Status.can_transition_to (Step.to_status s) (Step.to_status t) ≡ true
unfolding Step.can_transition_to Status.can_transition_to Step.to_status
can_transition_to-refines s t h = ground arith

-- A completed execution that satisfies the invariant has a final decision, SUCCEEDED exactly if the
-- last decision applied to it was SUCCEEDED; before that the final decision is PENDING.
pub get_final_decision-IsFinal :
    (e : SbiExecution)
    → Inv e
    → (is_completed e ≡ true)
        × (Decision.is_final (get_final_decision e) ≡ true)
        × ((get_final_decision e ≡ Decision.succeeded) ↔ (e.decision ≡ Decision.succeeded))
      ⊎ (is_completed e ≡ false) × (get_final_decision e ≡ Decision.pending)
unfolding get_final_decision is_completed
get_final_decision-IsFinal e h = ground arith

-- `IsExecutionStuck` never gives its second reason, and gives the first exactly in the third review
-- and the implementer's review while the decision is NEEDS_CHANGES.
pub stuck_reason_iff :
    (e : SbiExecution)
    → Inv e
    → (stuck_reason e ≢ too_many_attempts)
      × ((stuck_reason e ≡ review_failures) ↔ (
          ((e.step ≡ Step.third_review) ⊎ (e.step ≡ Step.implementer_review))
          × (e.decision ≡ Decision.needs_changes)))
unfolding stuck_reason Step.to_status
stuck_reason_iff e h = ground arith

-- ===== src/Execution/Progress.antt =====
-- What the path and the end of an execution look like.
use deespec.Base.{ℕ, ◌≡◌, ◌⊎◌, ◌≤◌, true, false, List, [], ◌∷◌, any, Succeeds, arith}
use deespec.Execution.Step
use deespec.Execution.Step.{Step}
use deespec.Execution.Decision.{Decision}
use deespec.Execution.Entity.{SbiExecution, is_completed, get_final_decision}
use deespec.Execution.Service.{finish, execution_path}
use deespec.Execution.Invariant.{Inv}

abbrev pub full_path : List Step
full_path =
    Step.ready ∷ Step.implement_try ∷ Step.first_review ∷ Step.implement_second_try
    ∷ Step.second_review ∷ Step.implement_third_try ∷ Step.third_review
    ∷ Step.reviewer_force_implement ∷ Step.implementer_review ∷ Step.done ∷ []

-- The path of an execution that satisfies the invariant holds its current step. For a completed one
-- it is all ten steps, also where an early approval skipped most of them.
pub execution_path_shape :
    (e : SbiExecution)
    → Inv e
    → (any (Step.same e.step) (execution_path e) ≡ true)
      × ((is_completed e ≡ false) ⊎ (execution_path e ≡ full_path))
unfolding execution_path is_completed
execution_path_shape e h = ground arith

-- `CompleteExecution` succeeds exactly on the four review steps from which the workflow can end. It
-- keeps the given decision unchecked: the result is completed and has that decision, and where
-- fewer than three attempts were made it is also the final decision, whether it is final or not.
pub finish_outcome :
    (e : SbiExecution) (d : Decision) (now : ℕ)
    → Inv e
    → (Step.can_transition_to e.step Step.done ≡ true)
        × Succeeds
            (λ e'.
              (is_completed e' ≡ true)
              × (e'.decision ≡ d)
              × (e'.attempt ≡ e.attempt)
              × ((3 ≤ e.attempt) ⊎ (get_final_decision e' ≡ d)))
            (finish e d now)
      ⊎ (Step.can_transition_to e.step Step.done ≡ false)
        × ¬ Succeeds (λ e'. Unit {0}) (finish e d now)
unfolding finish is_completed get_final_decision
finish_outcome e d now h = ground arith

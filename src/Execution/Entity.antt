-- ===== src/Execution/Entity.antt =====
-- internal/domain/execution/entity.go. A method that mutates the execution returns the new record;
-- the clock is read once for each call, the argument `now` in nanoseconds since 1970.
use deespec.Base.{
  ℕ, ◌+◌, ◌/◌, String, Bool, not, ◌&&◌, Option, none, some, Result, ok, err, leb, if◌then◌else◌,
}
use deespec.Base.Text.{◌<>◌, decimal}
use deespec.Execution.Step
use deespec.Execution.Step.{Step}
use deespec.Execution.Status
use deespec.Execution.Status.{Status}
use deespec.Execution.Decision
use deespec.Execution.Decision.{Decision}

pub record SbiExecution : Type 0 where
  pub id : String
  pub sbi_id : String
  pub step : Step
  pub status : Status
  pub decision : Decision
  pub attempt : ℕ
  pub started_at : ℕ
  pub updated_at : ℕ
  pub completed_at : Option ℕ

pub data Error : Type 0 where
  invalid_transition : Step → Step → Error
  not_in_review : Status → Error
  invalid_decision : Decision → Error
  unknown_step : Step → Error

-- fmt.Sprintf("%s_%d", sbiID, startedAt.Unix())
unfoldable pub new_execution_id : String → ℕ → String
unfolding decimal
new_execution_id sbi_id started_at = sbi_id <> "_" <> decimal (started_at / 1_000_000_000)

unfoldable pub new_sbi_execution : String → ℕ → SbiExecution
unfolding new_execution_id
new_sbi_execution sbi_id now = record {
  id = new_execution_id sbi_id now;
  sbi_id = sbi_id;
  step = Step.ready;
  status = Status.ready;
  decision = Decision.pending;
  attempt = 0;
  started_at = now;
  updated_at = now;
  completed_at = none;
}

unfoldable pub transition_to : SbiExecution → Step → ℕ → Result Error SbiExecution
unfolding Step.can_transition_to Step.is_implementation Step.to_status Step.same
transition_to e next_step now =
    if not (Step.can_transition_to e.step next_step)
    then err (invalid_transition e.step next_step)
    else ok (record e {
      attempt = if Step.is_implementation next_step then e.attempt + 1 else e.attempt;
      step = next_step;
      status = Step.to_status next_step;
      updated_at = now;
      completed_at = if Step.same next_step Step.done then some now else e.completed_at;
    })

unfoldable pub apply_decision : SbiExecution → Decision → ℕ → Result Error SbiExecution
unfolding Status.is_review Decision.is_valid
apply_decision e decision now =
    if not (Status.is_review e.status)
    then err (not_in_review e.status)
    else if not (Decision.is_valid decision)
    then err (invalid_decision decision)
    else ok (record e { decision = decision; updated_at = now })

unfoldable pub is_completed : SbiExecution → Bool
unfolding Step.same
is_completed e = Step.same e.step Step.done

unfoldable pub should_force_terminate : SbiExecution → Bool
unfolding Decision.same
should_force_terminate e = leb 3 e.attempt && Decision.same e.decision Decision.needs_changes

-- The `switch` of `NextStep`; `approved` is `e.Decision == DecisionSucceeded`.
unfoldable pub step_after : Step → Bool → Result Error Step
step_after Step.ready approved = ok Step.implement_try
step_after Step.implement_try approved = ok Step.first_review
step_after Step.first_review approved =
    ok (if approved then Step.done else Step.implement_second_try)
step_after Step.implement_second_try approved = ok Step.second_review
step_after Step.second_review approved =
    ok (if approved then Step.done else Step.implement_third_try)
step_after Step.implement_third_try approved = ok Step.third_review
step_after Step.third_review approved =
    ok (if approved then Step.done else Step.reviewer_force_implement)
step_after Step.reviewer_force_implement approved = ok Step.implementer_review
step_after Step.implementer_review approved = ok Step.done
step_after Step.done approved = ok Step.done
step_after (Step.other s) approved = err (unknown_step (Step.other s))

unfoldable pub next_step : SbiExecution → Result Error Step
unfolding step_after Decision.same
next_step e = step_after e.step (Decision.same e.decision Decision.succeeded)

unfoldable pub get_final_decision : SbiExecution → Decision
unfolding is_completed Decision.is_final Step.same
get_final_decision e =
    if not (is_completed e)
    then Decision.pending
    else if Decision.is_final e.decision
    then e.decision
    else if Step.same e.step Step.done && leb 3 e.attempt
    then Decision.failed
    else e.decision

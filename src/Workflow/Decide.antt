-- ===== src/Workflow/Decide.antt =====
-- internal/domain/service/workflow_decision_service.go: which action follows a step of an SBI.
use deespec.Base.{String, Bool, true, false, Option, none, some, str_eq, ◌||◌, if◌then◌else◌}
use deespec.Base.Text.{◌<>◌}
use deespec.Base.Int.{ℤ, pos, leb_ℤ}
use deespec.Model.Status
use deespec.Model.Status.{Status}
use deespec.Model.Value.{Step}
use deespec.Model.Sbi.{Sbi}

-- internal/application/dto/execution_dto.go, ExecuteStepOutput without its times.
pub record StepOutput : Type 0 where
  pub success : Bool
  pub output : String
  pub decision : String
  pub artifact_path : String
  pub error_msg : String

pub record Action : Type 0 where
  pub next_status : Status
  pub next_step : Step
  pub should_increment_turn : Bool
  pub should_increment_attempt : Bool
  pub needs_reload : Bool
  pub skip_step_execution : Bool
  pub reason : String

-- An action with every flag at Go's zero value.
abbrev pub plain : Status → Step → String → Action
plain next_status next_step reason = record {
  next_status = next_status;
  next_step = next_step;
  should_increment_turn = false;
  should_increment_attempt = false;
  needs_reload = false;
  skip_step_execution = false;
  reason = reason;
}

abbrev pub with_turn : Action → Action
with_turn a = record a { should_increment_turn = true }

abbrev pub with_attempt : Action → Action
with_attempt a = record a { should_increment_attempt = true }

abbrev pub skipping : Action → Action
skipping a = record a { skip_step_execution = true }

unfoldable pub new_max_attempts : ℤ → ℤ
new_max_attempts max_attempts = if leb_ℤ max_attempts (pos 0) then pos 3 else max_attempts

unfoldable pub decide_for_implement_only : Step → Option StepOutput → Status → Action
decide_for_implement_only current_step result Status.pending = skipping (
    with_turn
      (plain Status.picked Step.implement "only_implement: PENDING→PICKED (task selection)"))
decide_for_implement_only current_step result Status.picked = skipping (
    with_turn
      (plain Status.implementing Step.implement "only_implement: PICKED→IMPLEMENTING (init)"))
decide_for_implement_only current_step none Status.implementing =
    plain Status.implementing Step.implement "only_implement: IMPLEMENTING (awaiting execution)"
decide_for_implement_only current_step (some result) Status.implementing =
    if result.success
    then with_turn (plain Status.done Step.done "only_implement: IMPLEMENTING→DONE (skip REVIEW)")
    else plain Status.failed Step.implement "only_implement: IMPLEMENTING→FAILED"
decide_for_implement_only current_step result Status.reviewing =
    skipping
      (plain Status.done Step.done "only_implement: REVIEWING→DONE (auto-complete stuck review)")
decide_for_implement_only current_step result Status.done =
    plain Status.done current_step "only_implement: terminal state (no change)"
decide_for_implement_only current_step result Status.failed =
    plain Status.failed current_step "only_implement: terminal state (no change)"
decide_for_implement_only current_step result (Status.other s) =
    plain Status.pending Step.implement "only_implement: unknown status, reset to PENDING"

unfoldable pub decide_for_review_step : Action
decide_for_review_step =
    record (plain Status.reviewing Step.review
      "full_workflow: REVIEWING (reload for AI decision)") { needs_reload = true }

unfoldable pub decide_for_full_workflow : Option StepOutput → Status → Action
unfolding decide_for_review_step
decide_for_full_workflow result Status.pending = skipping (
    with_turn (plain Status.picked Step.implement "full_workflow: PENDING→PICKED (task selection)"))
decide_for_full_workflow result Status.picked = skipping (
    with_turn
      (plain Status.implementing Step.implement "full_workflow: PICKED→IMPLEMENTING (init)"))
decide_for_full_workflow none Status.implementing =
    plain Status.implementing Step.implement "full_workflow: IMPLEMENTING (awaiting execution)"
decide_for_full_workflow (some result) Status.implementing =
    if result.success
    then with_turn (plain Status.reviewing Step.review "full_workflow: IMPLEMENTING→REVIEWING")
    else plain Status.failed Step.implement "full_workflow: IMPLEMENTING→FAILED"
decide_for_full_workflow result Status.reviewing = decide_for_review_step
decide_for_full_workflow result Status.done =
    plain Status.done Step.done "full_workflow: DONE (terminal state)"
decide_for_full_workflow result Status.failed =
    plain Status.failed Step.implement "full_workflow: FAILED (terminal state)"
decide_for_full_workflow result (Status.other s) =
    plain Status.pending Step.implement "full_workflow: unknown status, reset to PENDING"

unfoldable pub decide_next_action : Sbi → Option StepOutput → Action
unfolding decide_for_implement_only decide_for_review_step decide_for_full_workflow Status.same
decide_next_action s result =
    if s.metadata.only_implement
    then decide_for_implement_only s.current_step result s.status
    else if Status.same s.status Status.reviewing
    then decide_for_review_step
    else decide_for_full_workflow result s.status

unfoldable pub decide_for_review_decision : ℤ → Sbi → String → Action
decide_for_review_decision max_attempts s decision =
    if str_eq decision "SUCCEEDED"
    then with_turn (plain Status.done Step.done "review_decision: SUCCEEDED→DONE")
    else if str_eq decision "NEEDS_CHANGES" || str_eq decision "FAILED"
    then if leb_ℤ max_attempts (pos s.execution.current_attempt.value)
      then with_turn (
          plain Status.implementing Step.implement
            "review_decision: max attempts reached, force implement")
      else with_attempt (
          with_turn (
            plain Status.implementing Step.implement
              ("review_decision: " <> decision <> "→IMPLEMENTING (retry)")))
    else with_attempt (
        with_turn
          (plain Status.implementing Step.implement "review_decision: unknown decision, retry"))

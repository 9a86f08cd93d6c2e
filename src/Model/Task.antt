-- ===== src/Model/Task.antt =====
-- internal/domain/model/task/task.go. A method that mutates the task returns the new record; the
-- clock is the argument `now`, and the ULID of a new task the argument `id`.
use deespec.Base.{ℕ, String, not, Option, Result, ok, err, str_eq, if◌then◌else◌}
use deespec.Model.Status
use deespec.Model.Status.{Status}
use deespec.Model.Value.{TaskType, Step, is_valid_type, is_valid_step}

pub record BaseTask : Type 0 where
  pub id : String
  pub task_type : TaskType
  pub title : String
  pub description : String
  pub status : Status
  pub current_step : Step
  pub parent_id : Option String
  pub created_at : ℕ
  pub updated_at : ℕ

pub data TaskError : Type 0 where
  invalid_task_type empty_title invalid_status invalid_step : TaskError
  invalid_status_transition : Status → Status → TaskError

unfoldable pub new_base_task :
    TaskType → String → String → Option String → String → ℕ → Result TaskError BaseTask
unfolding is_valid_type
new_base_task task_type title description parent_id id now =
    if not (is_valid_type task_type)
    then err invalid_task_type
    else if str_eq title ""
    then err empty_title
    else ok (record {
      id = id;
      task_type = task_type;
      title = title;
      description = description;
      status = Status.pending;
      current_step = Step.pick;
      parent_id = parent_id;
      created_at = now;
      updated_at = now;
    })

unfoldable pub derive_step_from_status : Status → Step
derive_step_from_status Status.pending = Step.pick
derive_step_from_status Status.picked = Step.pick
derive_step_from_status Status.implementing = Step.implement
derive_step_from_status Status.reviewing = Step.review
derive_step_from_status Status.done = Step.done
derive_step_from_status Status.failed = Step.done
derive_step_from_status (Status.other _) = Step.pick

unfoldable pub update_status : BaseTask → Status → ℕ → Result TaskError BaseTask
unfolding Status.is_valid Status.can_transition_to derive_step_from_status
update_status b new_status now =
    if not (Status.is_valid new_status)
    then err invalid_status
    else if not (Status.can_transition_to b.status new_status)
    then err (invalid_status_transition b.status new_status)
    else ok (record b {
      status = new_status;
      current_step = derive_step_from_status new_status;
      updated_at = now;
    })

unfoldable pub update_step : BaseTask → Step → ℕ → Result TaskError BaseTask
unfolding is_valid_step
update_step b new_step now =
    if not (is_valid_step new_step)
    then err invalid_step
    else ok (record b { current_step = new_step; updated_at = now })

unfoldable pub update_title : BaseTask → String → ℕ → Result TaskError BaseTask
update_title b title now =
    if str_eq title "" then err empty_title else ok (record b { title = title; updated_at = now })

unfoldable pub update_description : BaseTask → String → ℕ → BaseTask
update_description b description now = record b { description = description; updated_at = now }

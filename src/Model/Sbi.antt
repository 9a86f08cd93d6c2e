-- ===== src/Model/Sbi.antt =====
-- internal/domain/model/sbi/sbi.go. EstimatedHours is a float that no method reads: it is left out.
-- Every SBI has an execution state, as `NewSBI` gives it one.
use deespec.Base.{
  ℕ, String, Bool, not, Option, some, List, [], ◌∷◌, ◌++◌, length, Result, ok, ◌>>=◌, ltb,
}
use deespec.Base.Int.{ℤ, pos, ltb_ℤ}
use deespec.Model.Status
use deespec.Model.Status.{Status}
use deespec.Model.Value.{
  TaskType, Turn, Attempt, new_turn, new_attempt, increment_turn, increment_attempt,
}
use deespec.Model.Task.{BaseTask, TaskError, new_base_task, update_status}

pub record SbiMetadata : Type 0 where
  pub priority : ℤ
  pub sequence : ℤ
  pub registered_at : ℕ
  pub started_at : Option ℕ
  pub completed_at : Option ℕ
  pub labels : List String
  pub assigned_agent : String
  pub file_paths : List String
  pub depends_on : List String
  pub only_implement : Bool

pub record ExecutionState : Type 0 where
  pub current_turn : Turn
  pub current_attempt : Attempt
  pub max_turns : ℤ
  pub max_attempts : ℤ
  pub last_error : String
  pub artifact_paths : List String

pub record Sbi : Type 0 where
  pub base : BaseTask
  pub open base use {id, status, current_step}
  pub metadata : SbiMetadata
  pub execution : ExecutionState

unfoldable pub new_sbi :
    String → String → Option String → SbiMetadata → String → ℕ → Result TaskError Sbi
unfolding new_base_task new_turn new_attempt
new_sbi title description parent_pbi_id metadata id now = do
  base ← new_base_task TaskType.sbi title description parent_pbi_id id now
  ok (record {
    base = base;
    metadata = metadata;
    execution = record {
      current_turn = new_turn;
      current_attempt = new_attempt;
      max_turns = pos 10;
      max_attempts = pos 3;
      last_error = "";
      artifact_paths = [];
    };
  })

-- `UpdateStatus` of the SBI is that of its base task.
unfoldable pub update_sbi_status : Sbi → Status → ℕ → Result TaskError Sbi
unfolding update_status
update_sbi_status s new_status now = do
  base ← update_status s.base new_status now
  ok (record s { base = base })

abbrev update_execution : Sbi → ExecutionState → Sbi
update_execution s execution = record s { execution = execution }

-- The attempt counter is reset.
unfoldable pub increment_sbi_turn : Sbi → Sbi
unfolding increment_turn new_attempt
increment_sbi_turn s = update_execution s (record s.execution {
  current_turn = increment_turn s.execution.current_turn;
  current_attempt = new_attempt;
})

unfoldable pub increment_sbi_attempt : Sbi → Sbi
unfolding increment_attempt
increment_sbi_attempt s =
    update_execution s
      (record s.execution { current_attempt = increment_attempt s.execution.current_attempt })

unfoldable pub record_error : Sbi → String → Sbi
record_error s error_msg = update_execution s (record s.execution { last_error = error_msg })

unfoldable pub clear_error : Sbi → Sbi
clear_error s = update_execution s (record s.execution { last_error = "" })

unfoldable pub add_artifact : Sbi → String → Sbi
add_artifact s artifact_path =
    update_execution s
      (record s.execution { artifact_paths = s.execution.artifact_paths ++ artifact_path ∷ [] })

unfoldable pub has_exceeded_max_turns : Sbi → Bool
has_exceeded_max_turns s = ltb_ℤ s.execution.max_turns (pos s.execution.current_turn.value)

unfoldable pub has_exceeded_max_attempts : Sbi → Bool
has_exceeded_max_attempts s = ltb_ℤ s.execution.max_attempts (pos s.execution.current_attempt.value)

unfoldable pub can_delete : Sbi → Bool
unfolding Status.same
can_delete s = not (Status.same s.status Status.implementing)

unfoldable pub is_sbi_completed : Sbi → Bool
unfolding Status.same
is_sbi_completed s = Status.same s.status Status.done

unfoldable pub is_sbi_failed : Sbi → Bool
unfolding Status.same
is_sbi_failed s = Status.same s.status Status.failed

unfoldable pub set_depends_on : Sbi → List String → Sbi
set_depends_on s depends_on = record s { metadata = record s.metadata { depends_on = depends_on } }

unfoldable pub add_dependency : Sbi → String → Sbi
add_dependency s sbi_id = record s {
  metadata = record s.metadata { depends_on = s.metadata.depends_on ++ sbi_id ∷ [] };
}

unfoldable pub has_dependencies : Sbi → Bool
has_dependencies s = ltb 0 (length s.metadata.depends_on)

unfoldable pub mark_as_started : Sbi → ℕ → Sbi
mark_as_started s now = record s { metadata = record s.metadata { started_at = some now } }

unfoldable pub mark_as_completed : Sbi → ℕ → Sbi
mark_as_completed s now = record s { metadata = record s.metadata { completed_at = some now } }

unfoldable pub set_only_implement : Sbi → Bool → Sbi
set_only_implement s only_implement = record s {
  metadata = record s.metadata { only_implement = only_implement };
}

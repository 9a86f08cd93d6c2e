-- ===== src/Workflow/Environment.antt =====
-- internal/application/usecase/execution/run_turn_use_case.go: what a turn reads, writes and returns.
use deespec.Base.{ℕ, String, Bool, Option, List, Result}
use deespec.Model.Task.{TaskError}
use deespec.Model.Sbi.{Sbi}

-- internal/domain/repository/journal_repository.go, without the elapsed time.
pub record JournalRecord : Type 0 where
  pub timestamp : ℕ
  pub sbi_id : String
  pub turn : ℕ
  pub step : String
  pub status : String
  pub attempt : ℕ
  pub decision : String
  pub error : String
  pub artifacts : List String

-- What the prompt of a step is built from.
pub record Request : Type 0 where
  pub sbi : Sbi
  pub step : String
  pub turn : ℕ
  pub attempt : ℕ
  pub artifact_path : String

-- `agent` builds the prompt and runs the agent, which may change the database by commands of its
-- own. `write_artifact` makes the parent directory and writes the file.
pub record Environment : Type 1 where
  pub World : Type 0
  pub find : World → String → Result String (Option Sbi)
  pub save : World → Sbi → World × Option String
  pub append : World → JournalRecord → World × Option String
  pub agent : World → Request → World × Result String String
  pub artifact_exists : World → String → Bool
  pub write_artifact : World → String → String → World × Option String

pub data TurnError : Type 0 where
  not_loaded : String → TurnError
  not_found : String → TurnError
  not_updated : TaskError → TurnError
  not_saved : String → TurnError
  not_reloaded : String → TurnError
  disappeared : String → TurnError

-- internal/application/dto/execution_dto.go, RunTurnOutput without its times and unused fields.
pub record TurnOutput : Type 0 where
  pub turn : ℕ
  pub sbi_id : String
  pub prev_status : String
  pub next_status : String
  pub decision : String
  pub attempt : ℕ
  pub artifact_path : String
  pub error_msg : String
  pub task_completed : Bool

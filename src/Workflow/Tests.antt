-- ===== src/Workflow/Tests.antt =====
-- The theorems about the workflow of an SBI at concrete inputs, and whole turns.
use deespec.Base.{ℕ, ◌≡◌, refl, ◌⊎◌, String, Bool, true, false, Option, none, some, [], ◌∷◌, ok}
use deespec.Base.Int.{pos}
use deespec.Model.Status
use deespec.Model.Status.{Status}
use deespec.Model.Value.{Step, TaskType}
use deespec.Model.Sbi.{Sbi}
use deespec.Workflow.Decide.{StepOutput, decide_next_action}
use deespec.Workflow.Environment.{Environment, TurnOutput}
use deespec.Workflow.Turn.{whole_turn}
use deespec.Workflow.Outcomes.{decide_next_action_permitted, execute_for_sbi-completed}

abbrev at_status : Status → Bool → ℕ → Sbi
at_status status only_implement turn = record {
  base = record {
    id = "SBI-1";
    task_type = TaskType.sbi;
    title = "Add a parser";
    description = "";
    status = status;
    current_step = Step.implement;
    parent_id = none;
    created_at = 5;
    updated_at = 9;
  };
  metadata = record {
    priority = pos 0;
    sequence = pos 1;
    registered_at = 5;
    started_at = none;
    completed_at = none;
    labels = [];
    assigned_agent = "claude-code";
    file_paths = "parser.go" ∷ [];
    depends_on = [];
    only_implement = only_implement;
  };
  execution = record {
    current_turn = record { value = turn };
    current_attempt = record { value = 2 };
    max_turns = pos 10;
    max_attempts = pos 3;
    last_error = "";
    artifact_paths = [];
  };
}

abbrev worked : StepOutput
worked = record {
  success = true;
  output = "ok";
  decision = "PENDING";
  artifact_path = "a.md";
  error_msg = "";
}

decide_next_action_permitted_example :
    ((decide_next_action (at_status Status.implementing false 3) (some worked)).needs_reload ≡ true)
      × (Status.implementing ≡ Status.reviewing)
    ⊎ ((Status.implementing ≡ Status.done) ⊎ (Status.implementing ≡ Status.failed))
      × ((decide_next_action (at_status Status.implementing false 3) (some worked)).next_status
          ≡ Status.implementing)
    ⊎ (Status.can_transition_to Status.implementing
          (decide_next_action (at_status Status.implementing false 3) (some worked)).next_status
        ≡ true)
unfolding Status.is_valid
decide_next_action_permitted_example =
    decide_next_action_permitted (at_status Status.implementing false 3) worked refl

abbrev after_work : Sbi
after_work = record (at_status Status.implementing true 4) {
  base = record (at_status Status.implementing true 4).base {
    status = Status.done;
    current_step = Step.done;
    updated_at = 20;
  };
  metadata = record (at_status Status.implementing true 4).metadata { completed_at = some 20 };
  execution = record (at_status Status.implementing true 4).execution {
    current_attempt = record { value = 1 };
  };
}

abbrev verdict : String
verdict = "FAILED"

-- A database that holds one SBI, an agent that always answers, and no artifact files.
abbrev one_sbi : Environment
one_sbi = record {
  World = Option Sbi;
  find = λ world id. ok world;
  save = λ world s. (some s, none);
  append = λ world entry. (world, none);
  agent = λ world request. (world, ok "done");
  artifact_exists = λ world path. false;
  write_artifact = λ world path text. (world, none);
}

abbrev last_turn : TurnOutput
last_turn = record {
  turn = 4;
  sbi_id = "SBI-1";
  prev_status = "WIP";
  next_status = "DONE";
  decision = "PENDING";
  attempt = 2;
  artifact_path = ".deespec/reports/sbi/SBI-1/implement_4.md";
  error_msg = "";
  task_completed = true;
}

execute_for_sbi-completed_example :
    (last_turn.task_completed ≡ false) ⊎ (last_turn.next_status ≡ "DONE")
unfolding whole_turn
execute_for_sbi-completed_example =
    execute_for_sbi-completed one_sbi (pos 8) (some (at_status Status.implementing true 3)) "SBI-1"
      7 last_turn refl

-- The turn that hands an SBI to its review reports it as completed.
abbrev review_turn : TurnOutput
review_turn = record last_turn { next_status = "REVIEW" }

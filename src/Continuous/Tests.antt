-- ===== src/Continuous/Tests.antt =====
-- The theorems about the continuous execution at concrete inputs.
use deespec.Base.{
  ok, true, Bool, String, ◌≤◌, ℕ, ◌≡◌, refl, false, some, none, List, [], ◌∷◌, arith,
}
use deespec.Continuous.Manager
use deespec.Continuous.Manager.{
  WorkflowManager, new_workflow_manager, register_workflow, run_workflow, count,
}
use deespec.Continuous.Single.{Runs, run_workflow-Runs_once}
use deespec.Continuous.Interval.{manager_next_interval, capped, doubled}
use deespec.Continuous.Errors.{
  classify_error, critical, is_temporary_error, is_configuration_error, is_critical_error, contains,
}
use deespec.Continuous.Loop.{
  Round, new_run, run_continuous, WorkflowRound, ran, shutdown_during, run_workflow_loop,
}
use deespec.Continuous.Statistics.{Balanced, run_continuous-Balanced}
use deespec.Continuous.Waits.{Tallied, Bounded, new_loop, run_workflow_loop-Bounded}

abbrev five_seconds : ℕ
five_seconds = 5000000000

abbrev large : ℕ → ℕ
large n = 9223372036854775808

-- After 31 errors in a row the wait is that of a negative duration.
negative_wait : manager_next_interval five_seconds 31 ≡ 10737418240000000000
unfolding manager_next_interval capped doubled
negative_wait = refl

disk_full : classify_error (some "write: disk full") ≡ critical
unfolding classify_error is_temporary_error is_configuration_error is_critical_error contains
disk_full = refl

abbrev rounds : List Round
rounds =
    record { done_waiting = false; turn_error = some "timeout"; done_after = false }
    ∷ record { done_waiting = false; turn_error = none; done_after = false }
    ∷ record { done_waiting = false; turn_error = some "disk full"; done_after = false }
    ∷ []

run_continuous-Balanced_example : Balanced (run_continuous large five_seconds rounds new_run)
run_continuous-Balanced_example = run_continuous-Balanced large five_seconds rounds

abbrev workflow_rounds : List WorkflowRound
workflow_rounds = ran (some "agent failed") false ∷ ran none false ∷ shutdown_during ∷ []

run_workflow_loop-Bounded_example :
    Tallied (run_workflow_loop five_seconds workflow_rounds new_loop)
    × Bounded five_seconds (run_workflow_loop five_seconds workflow_rounds new_loop).waits
run_workflow_loop-Bounded_example =
    run_workflow_loop-Bounded five_seconds workflow_rounds (omega arith) (omega arith) (omega arith)

abbrev with_sbi : WorkflowManager
with_sbi = record {
  workflows = ("sbi", "SBI tasks") ∷ [];
  configs = ("sbi", true) ∷ [];
  running = ("sbi", false) ∷ [];
  loops = [];
}

sbi_registered : register_workflow "sbi" "SBI tasks" true new_workflow_manager ≡ ok with_sbi
unfolding register_workflow
sbi_registered = refl

abbrev all_enabled : String → Bool
all_enabled name = true

run_workflow-Runs_once_example :
    (count "sbi" with_sbi.loops ≤ 1)
    × Runs all_enabled "sbi" with_sbi (run_workflow all_enabled "sbi" with_sbi)
run_workflow-Runs_once_example =
    run_workflow-Runs_once with_sbi all_enabled "sbi"
      (Manager.next Manager.here (Manager.registers "sbi" "SBI tasks" true sbi_registered))

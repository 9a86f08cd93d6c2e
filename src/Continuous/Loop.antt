-- ===== src/Continuous/Loop.antt =====
-- RunContinuous of internal/interface/cli/run/run_continuous.go and the loop of one workflow in
-- internal/application/workflow/manager.go (runWorkflowLoop), on the list of what each round meets.
use deespec.Base.{
  ℕ, String, Bool, true, false, ◌||◌, ◌&&◌, Option, some, none, List, [], ◌∷◌, ◌++◌, ◌+◌, ◌==◌, ltb,
  if◌then◌else◌,
}
use deespec.Continuous.Interval.{calculate_next_interval, manager_next_interval}
use deespec.Continuous.Errors.{Statistics, handle_execution_error, contains}

-- What a round meets: whether the context is done in the wait before it, the error of the turn, and
-- whether the context is done after it.
pub record Round : Type 0 where
  pub done_waiting : Bool
  pub turn_error : Option String
  pub done_after : Bool

pub data Ending : Type 0 where
  goes_on shut_down : Ending
  stopped_by : String → Ending

-- `waits` are the intervals waited so far.
pub record Run : Type 0 where
  pub stats : Statistics
  pub consecutive_errors : ℕ
  pub waits : List ℕ
  pub ending : Ending

abbrev pub blank : Statistics
blank = record {
  total_executions = 0;
  successful_runs = 0;
  temporary_errors = 0;
  config_errors = 0;
  critical_errors = 0;
  last_error = none;
}

abbrev pub new_run : Run
new_run = record { stats = blank; consecutive_errors = 0; waits = []; ending = goes_on }

-- The round after the turn, whose error HandleExecutionError has counted, goes on or stops.
unfoldable pub after_error : String → Statistics × Bool → Run → Run
after_error text (stats, true) r = record r {
  stats = stats;
  consecutive_errors = r.consecutive_errors + 1;
}
after_error text (stats, false) r = record r {
  stats = stats;
  consecutive_errors = r.consecutive_errors + 1;
  ending = stopped_by text;
}

unfoldable pub execute_turn : Option String → Run → Run
unfolding after_error handle_execution_error
execute_turn (some text) r =
    after_error text
      (handle_execution_error text
        (record r.stats { total_executions = r.stats.total_executions + 1 }))
      r
execute_turn none r = record r {
  stats = record r.stats {
    total_executions = r.stats.total_executions + 1;
    successful_runs = r.stats.successful_runs + 1;
  };
  consecutive_errors = 0;
}

-- A shutdown ends the loop where it goes on.
unfoldable pub check_shutdown : Bool → Run → Run
check_shutdown done r = elim r.ending [
  | goes_on ↦ if done then record r { ending = shut_down } else r
  | shut_down ↦ r
  | stopped_by _ ↦ r
]

module _ (large : ℕ → ℕ) (interval : ℕ) where
  unfoldable pub wait : Run → Run
  unfolding calculate_next_interval
  wait r =
      if ltb 0 r.stats.total_executions
      then record r {
        waits = r.waits ++ calculate_next_interval large interval r.consecutive_errors ∷ [];
      }
      else r

  -- The wait before the first round is none, and does not see the shutdown.
  unfoldable pub run_round : Round → Run → Run
  unfolding wait execute_turn check_shutdown
  run_round round r =
      if round.done_waiting && ltb 0 r.stats.total_executions
      then record (wait r) { ending = shut_down }
      else check_shutdown round.done_after (execute_turn round.turn_error (wait r))

  unfoldable pub run_continuous : List Round → Run → Run
  unfolding run_round
  run_continuous [] r = r
  run_continuous (round ∷ rounds) r = elim r.ending [
    | goes_on ↦ run_continuous rounds (run_round round r)
    | shut_down ↦ r
    | stopped_by _ ↦ r
  ]

-- The statistics of one workflow under the manager; the times are left out.
pub record WorkflowStats : Type 0 where
  pub total_executions : ℕ
  pub successful_runs : ℕ
  pub failed_runs : ℕ
  pub last_error : Option String

pub data WorkflowEnding : Type 0 where
  keeps_running interrupted waits_interrupted cannot_start : WorkflowEnding

pub record WorkflowLoop : Type 0 where
  pub stats : WorkflowStats
  pub consecutive_errors : ℕ
  pub waits : List ℕ
  pub ending : WorkflowEnding

-- What a round of the workflow's loop meets: a shutdown before it, one in the run, one in the wait.
pub data WorkflowRound : Type 0 where
  shutdown_before shutdown_during : WorkflowRound
  ran : Option String → Bool → WorkflowRound

unfoldable pub is_lock_error : String → Bool
unfolding contains
is_lock_error text =
    contains text "another instance"
    || contains text "another process is running"
    || contains text "state.lock: file exists"

unfoldable pub await_next : ℕ → Bool → WorkflowLoop → WorkflowLoop
unfolding manager_next_interval
await_next interval done l = record l {
  waits = l.waits ++ manager_next_interval interval l.consecutive_errors ∷ [];
  ending = if done then waits_interrupted else keeps_running;
}

unfoldable pub finish_run : ℕ → Option String → Bool → WorkflowLoop → WorkflowLoop
unfolding is_lock_error await_next
finish_run interval none done l = await_next interval done (record l {
  stats = record l.stats { successful_runs = l.stats.successful_runs + 1 };
  consecutive_errors = 0;
})
finish_run interval (some text) done l =
    let failed = record l {
      stats = record l.stats { failed_runs = l.stats.failed_runs + 1; last_error = some text };
      consecutive_errors = l.consecutive_errors + 1;
    } in
    if is_lock_error text && (l.stats.total_executions == 1)
    then record failed { ending = cannot_start }
    else await_next interval done failed

unfoldable pub workflow_round : ℕ → WorkflowRound → WorkflowLoop → WorkflowLoop
unfolding finish_run
workflow_round interval shutdown_before l = record l { ending = interrupted }
workflow_round interval shutdown_during l = record l {
  stats = record l.stats { total_executions = l.stats.total_executions + 1 };
  ending = interrupted;
}
workflow_round interval (ran result done) l =
    finish_run interval result done
      (record l { stats = record l.stats { total_executions = l.stats.total_executions + 1 } })

unfoldable pub run_workflow_loop : ℕ → List WorkflowRound → WorkflowLoop → WorkflowLoop
unfolding workflow_round
run_workflow_loop interval [] l = l
run_workflow_loop interval (round ∷ rounds) l = elim l.ending [
  | keeps_running ↦ run_workflow_loop interval rounds (workflow_round interval round l)
  | interrupted ↦ l
  | waits_interrupted ↦ l
  | cannot_start ↦ l
]

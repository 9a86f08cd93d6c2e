-- ===== src/Workflow/Turn.antt =====
-- internal/application/usecase/execution/run_turn_use_case.go: one turn of an SBI. The database, the
-- journal, the agent and the artifact files are an environment whose state each call passes on; the
-- clock is the argument `now`, and elapsed times and messages on stderr are left out.
use deespec.Base.{
  ℕ, ◌+◌, String, Bool, true, false, ◌||◌, none, some, [], ◌∷◌, Result, ok, err, str_eq,
  if◌then◌else◌,
}
use deespec.Base.Int.{ℤ, pos, ltb_ℤ, leb_ℤ, pos_part}
use deespec.Base.Text.{◌<>◌, decimal}
use deespec.Model.Status
use deespec.Model.Status.{Status}
use deespec.Model.Task.{TaskError}
use deespec.Model.Sbi.{
  Sbi, update_sbi_status, increment_sbi_turn, mark_as_started, mark_as_completed,
}
use deespec.Workflow.Decide.{StepOutput, Action, decide_next_action}
use deespec.Workflow.Labels.{map_domain_status_to_string, status_to_step}
use deespec.Workflow.Environment.{
  JournalRecord, Request, Environment, TurnError, TurnOutput, not_loaded, not_found, not_updated,
  not_saved, not_reloaded, disappeared,
}

-- The limit that `NewRunTurnUseCase` keeps.
unfoldable pub new_max_turns : ℤ → ℤ
new_max_turns max_turns = if leb_ℤ max_turns (pos 0) then pos 8 else max_turns

abbrev pub lift {ℓ} : {A : Type ℓ} → Result TaskError A → Result TurnError A
lift (err e) = err (not_updated e)
lift (ok a) = ok a

-- fmt.Sprintf("Exceeded max turns (%d)", uc.maxTurns); the limit is positive, as the constructor
-- makes it.
unfoldable pub exceeded : ℤ → String
unfolding decimal
exceeded max_turns = "Exceeded max turns (" <> decimal (pos_part max_turns) <> ")"

-- The guard of the forced end: an SBI under implementation goes through REVIEWING.
unfoldable pub force_done : Sbi → ℕ → Result TaskError Sbi
unfolding Status.same update_sbi_status
force_done s now =
    elim (if Status.same s.status Status.implementing
      then update_sbi_status s Status.reviewing now
      else ok s) [ err e ↦ err e | ok s' ↦ update_sbi_status s' Status.done now ]

unfoldable pub new_artifact_path : String → String → ℕ → String
unfolding decimal
new_artifact_path sbi_id step turn =
    if str_eq step "done"
    then ".deespec/reports/sbi/" <> sbi_id <> "/done.md"
    else ".deespec/reports/sbi/" <> sbi_id <> "/" <> step <> "_" <> decimal turn <> ".md"

-- "Apply the decided action".
unfoldable pub apply_action : Sbi → Action → ℕ → Result TaskError Sbi
unfolding Status.same update_sbi_status mark_as_started mark_as_completed increment_sbi_turn
apply_action s action now = elim (update_sbi_status s action.next_status now) [
  | err e ↦ err e
  | ok updated ↦
      let started =
        if Status.same action.next_status Status.picked
        then mark_as_started updated now
        else updated in
      let completed =
        if Status.same action.next_status Status.done
          || Status.same action.next_status Status.failed
        then mark_as_completed started now
        else started in
      ok (if action.should_increment_turn then increment_sbi_turn completed else completed)
]

-- The step's result where it failed: `executeStepForSBI` returned an error.
abbrev pub failed_step : String → StepOutput
failed_step message = record {
  success = false;
  output = "";
  decision = "NEEDS_CHANGES";
  artifact_path = "";
  error_msg = message;
}

unfoldable pub or_failed : Result String StepOutput → StepOutput
or_failed (err e) = failed_step e
or_failed (ok output) = output

module _ (env : Environment) where
  open env use {World, find, save, append, agent, artifact_exists, write_artifact}

  unfoldable pub execute_step_for_sbi : World → Sbi → ℕ → ℕ → World × Result String StepOutput
  unfolding map_domain_status_to_string status_to_step new_artifact_path
  execute_step_for_sbi world s turn attempt =
      let step = status_to_step (map_domain_status_to_string s.status) in
      let artifact_path = new_artifact_path s.id step turn in
      let request : Request = record {
        sbi = s;
        step = step;
        turn = turn;
        attempt = attempt;
        artifact_path = artifact_path;
      } in
      let (world', reply) = agent world request in
      elim reply [
        | err e ↦ (world', err e)
        | ok output ↦
            let done : StepOutput = record {
              success = true;
              output = output;
              decision = "PENDING";
              artifact_path = artifact_path;
              error_msg = "";
            } in
            if artifact_exists world' artifact_path
            then (world', ok done)
            else let (world'', failure) = write_artifact world' artifact_path output in
              (world'', elim failure [ none ↦ ok done | some e ↦ err e ])
      ]

  -- The save and the journal entry that end every branch; a journal that fails changes nothing.
  unfoldable pub save_and_log :
      World → Sbi → JournalRecord → TurnOutput → World × Result TurnError TurnOutput
  save_and_log world s entry output =
      let (world', failure) = save world s in
      elim failure [
        | some e ↦ (world', err (not_saved e))
        | none ↦ ((append world' entry).0, ok output)
      ]

  -- An entry of a turn that runs no agent, and its output.
  unfoldable pub conclude :
      World
      → Sbi
      → (prev : Status) (turn attempt reported : ℕ) (step status decision message : String) → Bool
      → ℕ
      → World × Result TurnError TurnOutput
  unfolding save_and_log map_domain_status_to_string
  conclude world s prev turn attempt reported step status decision message completed now =
      save_and_log world s
        (record {
          timestamp = now;
          sbi_id = s.id;
          turn = turn;
          step = step;
          status = status;
          attempt = attempt;
          decision = decision;
          error = message;
          artifacts = [];
        })
        (record {
          turn = turn;
          sbi_id = s.id;
          prev_status = map_domain_status_to_string prev;
          next_status = status;
          decision = decision;
          attempt = reported;
          artifact_path = "";
          error_msg = "";
          task_completed = completed;
        })

  -- The end of a turn that ran the agent. `completed` is the test that sets TaskCompleted.
  unfoldable pub log_step :
      (Status → Sbi → Bool)
      → World
      → Sbi
      → (prev next : Status) (turn attempt : ℕ) → StepOutput
      → ℕ
      → World × Result TurnError TurnOutput
  unfolding save_and_log map_domain_status_to_string status_to_step
  log_step completed world s prev next turn attempt output now =
      save_and_log world s
        (record {
          timestamp = now;
          sbi_id = s.id;
          turn = turn;
          step = status_to_step (map_domain_status_to_string next);
          status = map_domain_status_to_string next;
          attempt = attempt;
          decision = output.decision;
          error = output.error_msg;
          artifacts = output.artifact_path ∷ [];
        })
        (record {
          turn = turn;
          sbi_id = s.id;
          prev_status = map_domain_status_to_string prev;
          next_status = map_domain_status_to_string next;
          decision = output.decision;
          attempt = attempt;
          artifact_path = output.artifact_path;
          error_msg = output.error_msg;
          task_completed = completed next s;
        })

  -- "Use WorkflowDecisionService to determine next action", and what follows.
  unfoldable pub apply_output :
      (Status → Sbi → Bool)
      → World
      → Sbi
      → (turn attempt : ℕ) → StepOutput
      → ℕ
      → World × Result TurnError TurnOutput
  apply_output completed world s turn attempt output now =
      let action = decide_next_action s (some output) in
      if action.needs_reload
      then elim (find world s.id) [
        | err e ↦ (world, err (not_reloaded e))
        | ok none ↦ (world, err (disappeared s.id))
        | ok (some reloaded) ↦
            log_step completed world reloaded s.status reloaded.status turn attempt output now
      ]
      else let attempt' = if action.should_increment_attempt then attempt + 1 else attempt in
        elim (apply_action s action now) [
          | err e ↦ (world, err (not_updated e))
          | ok s' ↦ log_step completed world s' s.status action.next_status turn attempt' output now
        ]

  -- A turn of a loaded SBI.
  unfoldable pub run_turn :
      (Status → Sbi → Bool) → ℤ → World → Sbi → ℕ → World × Result TurnError TurnOutput
  run_turn completed max_turns world s now =
      let attempt = s.execution.current_attempt.value in
      let turn = s.execution.current_turn.value + 1 in
      if ltb_ℤ max_turns (pos turn)
      then elim (force_done s now) [
        | err e ↦ (world, err (not_updated e))
        | ok s' ↦
            conclude world (mark_as_completed s' now) s.status turn attempt 0 "force_terminated"
              "DONE" "FORCE_TERMINATED" (exceeded max_turns) true now
      ]
      else if Status.same s.status Status.pending
      then elim (update_sbi_status s Status.picked now) [
        | err e ↦ (world, err (not_updated e))
        | ok s' ↦
            conclude world (increment_sbi_turn (mark_as_started s' now)) s.status turn attempt
              attempt "pick" "WIP" "PICKED" "" false now
      ]
      else if Status.same s.status Status.picked
      then elim (update_sbi_status s Status.implementing now) [
        | err e ↦ (world, err (not_updated e))
        | ok s' ↦
            conclude world (increment_sbi_turn s') s.status turn attempt attempt "status_init" "WIP"
              "INITIALIZED" "" false now
      ]
      else let (world', result) = execute_step_for_sbi world s turn attempt in
        apply_output completed world' s turn attempt (or_failed result) now

  unfoldable pub execute_for_sbi : ℤ → World → String → ℕ → World × Result TurnError TurnOutput
  execute_for_sbi max_turns world sbi_id now = elim (find world sbi_id) [
    | err e ↦ (world, err (not_loaded e))
    | ok none ↦ (world, err (not_found sbi_id))
    | ok (some s) ↦ run_turn (λ next current. Status.same next Status.done) max_turns world s now
  ]

  -- `Execute` after it has picked and locked the SBI.
  unfoldable pub execute_picked : ℤ → World → Sbi → ℕ → World × Result TurnError TurnOutput
  execute_picked = run_turn (λ next current. Status.same next current.status)

-- To run a turn by evaluation, name this on the `unfolding` line.
unfoldable pub whole_turn : Unit {0}
unfolding run_turn apply_output conclude log_step execute_step_for_sbi force_done apply_action
    or_failed exceeded decide_next_action execute_for_sbi execute_picked
whole_turn = tt

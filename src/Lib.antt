-- ===== src/Lib.antt =====
-- A model of deespec, a tool that lets coding agents work through a backlog (EPIC, PBI and SBI
-- tasks) under a workflow of implementation and review, and theorems about it. An SBI is a small
-- task; a turn takes it one status further by an agent's work or a review; a runner executes several
-- SBIs at a time; files are registered by transactions that survive a crash.
--
-- The parts, with the source they translate (paths from the repository's root):
--
--   Execution  internal/domain/execution: the step-by-step execution of an SBI. Execution/Step, Status
--              and Decision are the enumerations of execution_step.go, execution_status.go and
--              decision.go (with a constructor for a string that is no constant); Execution/Entity is
--              SBIExecution of entity.go (TransitionTo, ApplyDecision, NextStep); Execution/Service is
--              service.go over the repository of repository.go, a record of functions. Invariant,
--              Progress and Stored are the proofs.
--   Model      internal/domain/model: Model/Status and Value are value_object.go, Model/Task is
--              task/task.go, Model/Sbi is sbi/sbi.go, Model/Epic is epic/epic.go. Model/Moves relates
--              CanTransitionTo and UpdateStatus to a diagram of permitted moves, and Children is about
--              the PBIs of an EPIC.
--   Workflow   Workflow/Decide is internal/domain/service/workflow_decision_service.go; Workflow/Turn
--              is a turn in internal/application/usecase/execution/run_turn_use_case.go
--              (ExecuteForSBI, the end of Execute and executeStepForSBI), Workflow/Labels its texts of
--              statuses, Workflow/Environment what it calls: database, journal, agent and files.
--              Decide uses Model; Turn applies the decisions to the SBI. Outcomes holds the proofs.
--   Parallel   Parallel/AgentPool and ConflictDetector are internal/application/service/agent_pool.go
--              and conflict_detector.go; Parallel/Runner is the loop and the goroutines of
--              internal/interface/cli/workflow_sbi/parallel_runner.go, as a step relation on a batch:
--              the loop starts or skips the next SBI, and each worker gives its slot back and then
--              exits, in any order. Files, Slots, Workers, Taken, Safety, Outcomes, Ends and Ready are the
--              proofs.
--   Txn        internal/infra/fs/txn: Txn/Types is types.go and checksum.go, Txn/Manager and Rollback
--              are transaction.go (Begin, StageFile, MarkIntent, Commit, Rollback, Cleanup),
--              Txn/Recovery is scanner.go and recovery.go for one transaction. Renames, Moved, Commit,
--              Staging, Crash, Undo and Restored are the proofs.
--   Picker     Picker/Tasks is internal/application/dto/sbi_task_dto.go and the filter and the
--              comparison of internal/application/service/task_picker_service.go, Picker/Cycles its search
--              for cycles, Picker/Pick the pick with its stable sort, and Picker/Texts Go's order on
--              texts. Picker/Sbis is internal/application/service/sbi_execution_service.go, the pick
--              of an SBI and its lock. Order, Filter, Picked, Locked, Topological and its helpers
--              Ordered, Visit and Depth are the proofs.
--   Pbi        Pbi/Item is internal/domain/model/pbi/pbi.go, Pbi/Approval sbi_approval.go beside it.
--              Pbi/Store is internal/infrastructure/persistence/pbi_sqlite_repository.go with the
--              manifests of internal/infrastructure/repository/sbi_approval_repository_impl.go, as maps
--              whose calls can fail. Pbi/Register and Execute are register_sbis_use_case.go of
--              internal/application/usecase/pbi, Pbi/Update update_pbi_use_case.go and
--              register_pbi_use_case.go there. Registration uses the SBIs of Model. Approvals, Loop,
--              Registered, Rows, Chained, Counts, Finish, Outcomes and Saved are the proofs.
--   Continuous Continuous/Interval and Errors are continuous_execution_service.go of
--              internal/application/service, with calculateNextInterval of
--              internal/application/workflow/manager.go. Continuous/Loop is RunContinuous of
--              internal/interface/cli/run/run_continuous.go and runWorkflowLoop of that manager, on the
--              list of what each round meets; Continuous/Manager is the registration and start of its
--              workflows. Backoff, Statistics, Waits and Single are the proofs.
--   Journal    Journal/Line is internal/validator/journal/types.go and the checks of fields in
--              validator.go beside it, Journal/Validator its validation of a line and of a file. What
--              the libraries for JSON and times make of a text is given with the line. Valid, Summary
--              and Accepted are the proofs.
--   Register   the registration of one SBI from a file, with the data types of
--              internal/application/dto/register_sbi_dto.go: Register/Policy and Config are the policy
--              and its configuration in internal/application/usecase/register_sbi_usecase.go and
--              register_sbi_usecase_helpers.go there, Register/Slug, Paths and Input the slug, the path
--              and the reading of the latter, Register/Execute the whole of Execute; Register/Validation
--              is internal/application/service/register_validation_service.go. Register/Runes has
--              texts as lists of code points. Limits, Resolvers, Slugs, Accepted, Collisions, Built,
--              Reads, Turns, Honest and Outcome are the proofs.
--   Lock       Lock/RunLock is internal/domain/model/lock/run_lock.go; Lock/Acquire and Statements are
--              internal/infrastructure/persistence/sqlite/run_lock_repository_impl.go, with each SQL
--              statement on the row of one lock as one step. Lock/StateLock and StateTable are the
--              state locks of internal/domain/model/lock/state_lock.go and their repository
--              internal/infrastructure/persistence/sqlite/state_lock_repository_impl.go; Lock/Heartbeats
--              and Service are internal/application/service/lock_service.go, its goroutines as a step
--              relation. Race, Renewal, States, Beating and Held are the proofs.
--   Base       the shared names, a result type for Go's pairs of a value and an error, Go's integers
--              where the source tests for a negative value, maps with string keys, and texts.
--
-- Conventions. A method that mutates its receiver returns the new record. The clock, new identifiers
-- and the results of external calls are arguments. Error texts are constructors. Numbers are natural
-- where the source cannot make them negative, and integers where it compares them to zero; the
-- overflow of a counter after 2^63 increments is left out; the waits of Continuous are the 64 bits of
-- a time.Duration, with their wrap-around. A time is a number of nanoseconds; the picker's times have a
-- location as well, and the rows of PBIs keep whole seconds. A commit takes a budget: the number of
-- writes (renames, journal entry, commit marker) before the process dies. A commit of n files makes
-- n + 2 writes, so that budget lets it end. The
-- search for cycles is given one level for each task and one more, and a call that goes deeper has one
-- task less off its path. Every other function here recurses on its data; the
-- digits of a number n are taken in at most n + 1 rounds, and each divides by ten.
--
-- Not modelled: the other SQL repositories, the command line, presenters, gateways to agents and
-- storage, configuration, templates, prompts and the validators of YAML files, which read and print or
-- call other programs; the failures of the operating system in a file transaction other than a missing
-- file; the retries of a recovery; the detection of incomplete instructions at a pick; leases; labels;
-- the transaction that writes a registered specification, which is an argument of its registration, and
-- the parsing of an SBI's file, whose result is an argument of the registration of a PBI's SBIs.
pub mod Base
pub mod Execution
pub mod Model
pub mod Workflow
pub mod Parallel
pub mod Txn
pub mod Lock
pub mod Picker
pub mod Pbi
pub mod Continuous
pub mod Journal
pub mod Register

-- ===== src/Continuous/Waits.antt =====
-- The loop of one workflow: its statistics, and how long it waits.
use deespec.Base.{
  ℕ, suc, ◌≡◌, refl, sym, subst, ◌⊎◌, inl, inr, ◌<◌, ◌≤◌, String, Bool, ◌&&◌, Option, some, none,
  List, [], ◌∷◌, ◌++◌, length, ◌+◌, ◌==◌, arith, Bool-cases,
}
use deespec.Continuous.Interval.{manager_next_interval, max_backoff}
use deespec.Continuous.Loop.{
  WorkflowLoop, WorkflowRound, WorkflowEnding, keeps_running, interrupted, waits_interrupted,
  cannot_start, shutdown_before, shutdown_during, ran, is_lock_error, await_next, finish_run,
  workflow_round, run_workflow_loop,
}
use deespec.Continuous.Backoff.{manager_next_interval-backoff}

abbrev pub new_loop : WorkflowLoop
new_loop = record {
  stats = record { total_executions = 0; successful_runs = 0; failed_runs = 0; last_error = none };
  consecutive_errors = 0;
  waits = [];
  ending = keeps_running;
}

-- Each wait is longer than nothing, and not longer than the interval or ten seconds.
abbrev pub Bounded : ℕ → List ℕ → Type 0
Bounded interval [] = Unit
Bounded interval (w ∷ waits) =
    ((0 < w) × ((w ≤ interval) ⊎ (w ≤ max_backoff))) × Bounded interval waits

-- Every execution succeeded or failed, but for one that a shutdown interrupted; the errors in a row
-- are failures.
abbrev pub Tallied : WorkflowLoop → Type 0
Tallied l =
    ((l.stats.total_executions ≡ l.stats.successful_runs + l.stats.failed_runs)
      ⊎ (l.ending ≡ interrupted)
        × (l.stats.total_executions ≡ l.stats.successful_runs + l.stats.failed_runs + 1))
    × (l.consecutive_errors ≤ l.stats.failed_runs)

Bounded-append :
    (interval : ℕ) (waits : List ℕ) (w : ℕ)
    → Bounded interval waits
    → (0 < w) × ((w ≤ interval) ⊎ (w ≤ max_backoff))
    → Bounded interval (waits ++ w ∷ [])
Bounded-append interval [] w h last = (last, tt)
Bounded-append interval (v ∷ waits) w (here, there) last =
    (here, Bounded-append interval waits w there last)

manager_next_interval-bounded :
    (interval n : ℕ)
    → 0 < interval
    → interval ≤ 600000000000
    → n ≤ 23
    → (0 < manager_next_interval interval n)
      × ((manager_next_interval interval n ≤ interval)
          ⊎ (manager_next_interval interval n ≤ max_backoff))
unfolding manager_next_interval
manager_next_interval-bounded interval n positive small few = elim (Bool-cases (n == 0)) [
  | inl first ↦ ground (arith, first)
  | inr later ↦
      let (_, more, less) =
        manager_next_interval-backoff interval n positive small (ground (arith, later)) few in
      (more, inr less)
]

all_tallied :
    (l : WorkflowLoop)
    → l.ending ≡ keeps_running
    → (l.stats.total_executions ≡ l.stats.successful_runs + l.stats.failed_runs)
      ⊎ (l.ending ≡ interrupted)
        × (l.stats.total_executions ≡ l.stats.successful_runs + l.stats.failed_runs + 1)
    → l.stats.total_executions ≡ l.stats.successful_runs + l.stats.failed_runs
all_tallied l open_ total = ground (arith, total, open_)

ending-cases :
    (e : WorkflowEnding)
    → (e ≡ keeps_running) ⊎ (e ≡ interrupted) ⊎ (e ≡ waits_interrupted) ⊎ (e ≡ cannot_start)
ending-cases keeps_running = inl refl
ending-cases interrupted = inr (inl refl)
ending-cases waits_interrupted = inr (inr (inl refl))
ending-cases cannot_start = inr (inr (inr refl))

module _ (interval : ℕ) (positive : 0 < interval) (small : interval ≤ 600000000000) where
  -- After `used` rounds.
  abbrev Kept : ℕ → WorkflowLoop → Type 0
  Kept used l = Tallied l × (l.consecutive_errors ≤ used) × Bounded interval l.waits

  await_next-Kept :
      (done : Bool) (used : ℕ) (l : WorkflowLoop)
      → used ≤ 23
      → l.stats.total_executions ≡ l.stats.successful_runs + l.stats.failed_runs
      → l.consecutive_errors ≤ l.stats.failed_runs
      → l.consecutive_errors ≤ used
      → Bounded interval l.waits
      → Kept used (await_next interval done l)
  unfolding await_next
  await_next-Kept done used l few total failures errors waits = (
    (inl total, failures),
    errors,
    Bounded-append interval l.waits _ waits
        (manager_next_interval-bounded interval l.consecutive_errors positive small (omega arith)),
  )

  -- The state after a run that succeeded, and after one that failed.
  abbrev succeeded : WorkflowLoop → WorkflowLoop
  succeeded l = record l {
    stats = record l.stats { successful_runs = l.stats.successful_runs + 1 };
    consecutive_errors = 0;
  }

  abbrev failed : String → WorkflowLoop → WorkflowLoop
  failed text l = record l {
    stats = record l.stats { failed_runs = l.stats.failed_runs + 1; last_error = some text };
    consecutive_errors = l.consecutive_errors + 1;
  }

  finish_run-Kept :
      (result : Option String) (done : Bool) (used : ℕ) (l : WorkflowLoop)
      → used < 23
      → l.stats.total_executions ≡ l.stats.successful_runs + l.stats.failed_runs + 1
      → l.consecutive_errors ≤ l.stats.failed_runs
      → l.consecutive_errors ≤ used
      → Bounded interval l.waits
      → Kept (suc used) (finish_run interval result done l)
  unfolding finish_run
  finish_run-Kept none done used l few total failures errors waits =
      await_next-Kept done (suc used) (succeeded l) (omega (arith, few)) (omega (arith, total))
        (omega arith) (omega arith) waits
  finish_run-Kept (some text) done used l few total failures errors waits =
      elim (Bool-cases (is_lock_error text && (l.stats.total_executions == 1))) [
        | inl locked ↦
            rw (locked, finish_run)
              ((inl (omega (arith, total)), omega (arith, failures)), omega (arith, errors), waits)
        | inr other ↦
            rw (other, finish_run)
              (await_next-Kept done (suc used) (failed text l) (omega (arith, few))
                (omega (arith, total)) (omega (arith, failures)) (omega (arith, errors)) waits)
      ]

  workflow_round-Kept :
      (round : WorkflowRound) (used : ℕ) (l : WorkflowLoop)
      → used < 23
      → l.ending ≡ keeps_running
      → Kept used l
      → Kept (suc used) (workflow_round interval round l)
  unfolding workflow_round
  workflow_round-Kept shutdown_before used l few open_ ((total, failures), errors, waits) =
      ((inl (all_tallied l open_ total), failures), omega (arith, errors), waits)
  workflow_round-Kept shutdown_during used l few open_ ((total, failures), errors, waits) = (
    (inr (refl, omega (arith, all_tallied l open_ total)), failures),
    omega (arith, errors),
    waits,
  )
  workflow_round-Kept (ran result done) used l few open_ ((total, failures), errors, waits) =
      finish_run-Kept result done used
        (record l { stats = record l.stats { total_executions = l.stats.total_executions + 1 } })
        few (omega (arith, all_tallied l open_ total)) failures errors waits

  run_workflow_loop-Kept :
      (rounds : List WorkflowRound) (used : ℕ) (l : WorkflowLoop)
      → used + length rounds ≤ 23
      → Kept used l
      → Tallied (run_workflow_loop interval rounds l)
        × Bounded interval (run_workflow_loop interval rounds l).waits
  unfolding run_workflow_loop
  run_workflow_loop-Kept [] used l few (tallied, errors, waits) = (tallied, waits)
  run_workflow_loop-Kept (round ∷ rounds) used l few (tallied, errors, waits) =
      elim (ending-cases l.ending) [
        | inl open_ ↦
            rw (open_, run_workflow_loop)
              (run_workflow_loop-Kept rounds (suc used) (workflow_round interval round l)
                (omega (arith, few))
                (workflow_round-Kept round used l (omega (arith, few)) open_
                  (tallied, errors, waits)))
        | inr closed ↦
            let same : run_workflow_loop interval (round ∷ rounds) l ≡ l = elim closed [
              | inl e ↦ simp (e, run_workflow_loop)
              | inr (inl e) ↦ simp (e, run_workflow_loop)
              | inr (inr e) ↦ simp (e, run_workflow_loop)
            ] in
            subst (λ l'. Tallied l' × Bounded interval l'.waits) (sym same) (tallied, waits)
      ]

-- With an interval that the parser lets through, in at most 23 rounds, whatever they meet: every
-- execution that the loop of a workflow counts succeeded or failed, but for one that a shutdown
-- interrupted; the errors in a row are failures; and each wait between rounds is longer than nothing
-- and not longer than the interval or ten seconds.
pub run_workflow_loop-Bounded :
    (interval : ℕ) (rounds : List WorkflowRound)
    → 0 < interval
    → interval ≤ 600000000000
    → length rounds ≤ 23
    → Tallied (run_workflow_loop interval rounds new_loop)
      × Bounded interval (run_workflow_loop interval rounds new_loop).waits
run_workflow_loop-Bounded interval rounds positive small few =
    run_workflow_loop-Kept interval positive small rounds 0 new_loop (omega (arith, few))
      ((inl refl, omega arith), omega arith, tt)

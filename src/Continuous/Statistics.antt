-- ===== src/Continuous/Statistics.antt =====
-- What the statistics of both loops say, and how long they wait.
use deespec.Base.{
  ℕ, ◌≡◌, refl, sym, subst, ◌∙◌, ◌⊎◌, inl, inr, ◌≤◌, String, Bool, ◌&&◌, Option, some, none, List,
  [], ◌∷◌, ◌+◌, ltb, arith, Bool-cases,
}
use deespec.Continuous.Errors.{
  Classification, temporary, configuration, critical, unknown, handle_class, handle_execution_error,
  classify_error,
}
use deespec.Continuous.Loop.{
  Round, Run, Ending, goes_on, shut_down, stopped_by, new_run, after_error, execute_turn,
  check_shutdown, wait, run_round, run_continuous,
}

abbrev pub critical_of : Ending → ℕ
critical_of (stopped_by _) = 1
critical_of shut_down = 0
critical_of goes_on = 0

-- Every execution succeeded or is counted under one class of errors, a critical error ends the run and
-- nothing else counts one, and the errors in a row are executions that did not succeed.
abbrev pub Balanced : Run → Type 0
Balanced r =
    (r.stats.total_executions
      ≡ r.stats.successful_runs + r.stats.temporary_errors + r.stats.config_errors
        + r.stats.critical_errors)
    × (r.stats.critical_errors ≡ critical_of r.ending)
    × (r.consecutive_errors + r.stats.successful_runs ≤ r.stats.total_executions)

handle_class-Balanced :
    (class : Classification) (text : String) (r : Run)
    → r.ending ≡ goes_on
    → Balanced r
    → Balanced (
        after_error text
          (handle_class class (record r.stats {
            total_executions = r.stats.total_executions + 1;
            last_error = some text;
          }))
          r)
unfolding handle_class after_error
handle_class-Balanced temporary text r open_ balanced = ground arith
handle_class-Balanced configuration text r open_ balanced = ground arith
handle_class-Balanced critical text r open_ balanced = ground arith
handle_class-Balanced unknown text r open_ balanced = ground arith

execute_turn-Balanced :
    (result : Option String) (r : Run)
    → r.ending ≡ goes_on
    → Balanced r
    → Balanced (execute_turn result r)
unfolding execute_turn handle_execution_error
execute_turn-Balanced none r open_ balanced = ground (arith, open_)
execute_turn-Balanced (some text) r open_ balanced =
    handle_class-Balanced (classify_error (some text)) text r open_ balanced

check_shutdown-Balanced : (done : Bool) (r : Run) → Balanced r → Balanced (check_shutdown done r)
unfolding check_shutdown
check_shutdown-Balanced done r balanced = ground arith

wait-same :
    (large : ℕ → ℕ) (interval : ℕ) (r : Run)
    → ((wait large interval r).stats ≡ r.stats)
      × ((wait large interval r).ending ≡ r.ending)
      × ((wait large interval r).consecutive_errors ≡ r.consecutive_errors)
unfolding wait
wait-same large interval r = ground arith

run_round-Balanced :
    (large : ℕ → ℕ) (interval : ℕ) (round : Round) (r : Run)
    → r.ending ≡ goes_on
    → Balanced r
    → Balanced (run_round large interval round r)
unfolding run_round wait
run_round-Balanced large interval round r open_ (total, criticals, errors) =
    let (stats, ending, in_a_row) = wait-same large interval r in
    let waited : Balanced (wait large interval r) =
      (ground (arith, total), ground (arith, criticals), ground (arith, errors)) in
    let turned =
      execute_turn-Balanced round.turn_error (wait large interval r) (ending ∙ open_) waited in
    let checked =
      check_shutdown-Balanced round.done_after
        (execute_turn round.turn_error (wait large interval r)) turned in
    elim (Bool-cases (round.done_waiting && ltb 0 r.stats.total_executions)) [
      | inl done ↦
          let same : run_round large interval round r
              ≡ record (wait large interval r) { ending = shut_down } =
            simp (done, run_round) in
          subst Balanced (sym same) (waited.0, ground (arith, criticals, open_, stats), waited.2)
      | inr not_done ↦
          let same : run_round large interval round r
              ≡ check_shutdown round.done_after
                  (execute_turn round.turn_error (wait large interval r)) =
            simp (not_done, run_round) in
          subst Balanced (sym same) checked
    ]

Ending-cases :
    (e : Ending) → (e ≡ goes_on) ⊎ (e ≡ shut_down) ⊎ ((text : String) × (e ≡ stopped_by text))
Ending-cases goes_on = inl refl
Ending-cases shut_down = inr (inl refl)
Ending-cases (stopped_by text) = inr (inr (text, refl))

run_continuous-keeps :
    (large : ℕ → ℕ) (interval : ℕ) (rounds : List Round) (r : Run)
    → Balanced r
    → Balanced (run_continuous large interval rounds r)
unfolding run_continuous
run_continuous-keeps large interval [] r balanced = balanced
run_continuous-keeps large interval (round ∷ rounds) r balanced = elim (Ending-cases r.ending) [
  | inl open_ ↦
      let same : run_continuous large interval (round ∷ rounds) r
          ≡ run_continuous large interval rounds (run_round large interval round r) =
        simp (open_, run_continuous) in
      subst Balanced (sym same) (
        run_continuous-keeps large interval rounds (run_round large interval round r)
          (run_round-Balanced large interval round r open_ balanced))
  | inr closed ↦
      let same : run_continuous large interval (round ∷ rounds) r ≡ r = elim closed [
        | inl down ↦ simp (down, run_continuous)
        | inr (text, stopped) ↦ simp (stopped, run_continuous)
      ] in
      subst Balanced (sym same) balanced
]

-- However many rounds the continuous execution runs, and whatever they meet, every execution it
-- counts succeeded or is counted under one class of errors; one critical error is counted if it
-- ended the run, and none otherwise; and the errors in a row are executions without success.
pub run_continuous-Balanced :
    (large : ℕ → ℕ) (interval : ℕ) (rounds : List Round)
    → Balanced (run_continuous large interval rounds new_run)
run_continuous-Balanced large interval rounds =
    run_continuous-keeps large interval rounds new_run (refl, refl, omega arith)

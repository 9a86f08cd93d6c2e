-- ===== src/Workflow/Outcomes.antt =====
-- What the decisions of the service and the turns of an SBI lead to.
use deespec.Base.{
  ℕ, ◌≡◌, ◌≢◌, refl, ◌⊎◌, ◌↔◌, ◌+◌, inl, inr, String, Bool, true, false, Option, none, some, arith,
  ok, err, Succeeds, eq_iff, eq_refl, Bool-cases, Result-cases, ◌∙◌,
}
use deespec.Base.Int.{ℤ, pos, ltb_ℤ}
use deespec.Model.Status
use deespec.Model.Status.{Status}
use deespec.Model.Task.{invalid_status_transition}
use deespec.Model.Sbi.{Sbi, update_sbi_status}
use deespec.Workflow.Decide.{StepOutput, Action, decide_next_action, decide_for_review_decision}
use deespec.Workflow.Labels.{map_domain_status_to_string}
use deespec.Workflow.Environment.{Environment, TurnOutput, not_updated}
use deespec.Workflow.Turn.{
  force_done, apply_action, execute_for_sbi, execute_picked, apply_output, log_step, run_turn,
  conclude,
}

-- For an SBI whose status is a constant, the action that follows a step is a reload, which only a
-- review asks for, keeps a final status, or is a move that the status machine permits.
pub decide_next_action_permitted :
    (s : Sbi) (output : StepOutput)
    → Status.is_valid s.status ≡ true
    → ((decide_next_action s (some output)).needs_reload ≡ true) × (s.status ≡ Status.reviewing)
      ⊎ ((s.status ≡ Status.done) ⊎ (s.status ≡ Status.failed))
        × ((decide_next_action s (some output)).next_status ≡ s.status)
      ⊎ (Status.can_transition_to s.status (decide_next_action s (some output)).next_status ≡ true)
unfolding decide_next_action Status.is_valid Status.can_transition_to
decide_next_action_permitted s output h = ground arith

-- No action raises the stored attempt counter: after an action it is what it was, or 1.
pub apply_action-attempt :
    (s : Sbi) (output : Option StepOutput) (now : ℕ) (s' : Sbi)
    → apply_action s (decide_next_action s output) now ≡ ok s'
    → ((decide_next_action s output).should_increment_attempt ≡ false)
      × ((s'.execution.current_attempt.value ≡ s.execution.current_attempt.value)
          ⊎ (s'.execution.current_attempt.value ≡ 1))
unfolding apply_action decide_next_action
apply_action-attempt s output now s' h = ground arith

-- The forced end at the turn limit works exactly for an SBI under implementation or review; in every
-- other status it is an error.
pub force_done_iff :
    (s : Sbi) (now : ℕ)
    → Succeeds (λ s'. s'.status ≡ Status.done) (force_done s now)
      ↔ ((s.status ≡ Status.implementing) ⊎ (s.status ≡ Status.reviewing))
unfolding force_done
force_done_iff s now = ground arith

-- A review decision ends the review only if it is SUCCEEDED. Any other text sends the SBI back to
-- IMPLEMENTING, also when the attempts are used up, and then only the attempt counter stays.
pub decide_for_review_decision_outcome :
    (max_attempts : ℤ) (s : Sbi) (decision : String)
    → ((decide_for_review_decision max_attempts s decision).next_status ≡ Status.done)
        × (decision ≡ "SUCCEEDED")
      ⊎ ((decide_for_review_decision max_attempts s decision).next_status ≡ Status.implementing)
        × (decision ≢ "SUCCEEDED")
unfolding decide_for_review_decision
decide_for_review_decision_outcome max_attempts s decision =
    ground (arith, eq_iff decision "SUCCEEDED")

apply_action-status :
    (s : Sbi) (action : Action) (now : ℕ) (s' : Sbi)
    → apply_action s action now ≡ ok s'
    → s'.status ≡ action.next_status
unfolding apply_action
apply_action-status s action now s' h = ground arith

same_self : (s : Status) → Status.same s s ≡ true
unfolding Status.same
same_self (Status.other t) = eq_refl t
same_self Status.pending = refl
same_self _ = refl

-- The two tests that set TaskCompleted.
abbrev pub unchanged : Status → Sbi → Bool
unchanged next current = Status.same next current.status

abbrev pub finished : Status → Sbi → Bool
finished next current = Status.same next Status.done

force_done-refused :
    (s : Sbi) (now : ℕ)
    → s.status ≢ Status.implementing
    → s.status ≢ Status.reviewing
    → force_done s now ≡ err (invalid_status_transition s.status Status.done)
unfolding force_done
force_done-refused s now p q = ground arith

module _ (env : Environment) where
  open env use {World, find}

  -- At the turn limit an SBI that is neither under implementation nor under review stays as it is:
  -- the turn fails with an invalid transition to DONE, and the environment is unchanged.
  pub turn_limit_stuck :
      (max_turns : ℤ) (world : World) (sbi_id : String) (now : ℕ) (s : Sbi)
      → find world sbi_id ≡ ok (some s)
      → ltb_ℤ max_turns (pos (s.execution.current_turn.value + 1)) ≡ true
      → s.status ≢ Status.implementing
      → s.status ≢ Status.reviewing
      → execute_for_sbi env max_turns world sbi_id now
        ≡ (world, err (not_updated (invalid_status_transition s.status Status.done)))
  unfolding execute_for_sbi run_turn
  turn_limit_stuck max_turns world sbi_id now s found late p q =
      rw (found, execute_for_sbi, late, run_turn, force_done-refused s now p q)

  log_step-completed :
      (completed : Status → Sbi → Bool) (world : World) (s : Sbi) (prev next : Status)
      (turn attempt : ℕ) (output : StepOutput) (now : ℕ) (result : TurnOutput)
      → (log_step env completed world s prev next turn attempt output now).1 ≡ ok result
      → (result.task_completed ≡ completed next s)
        × (result.next_status ≡ map_domain_status_to_string next)
  unfolding log_step
  log_step-completed completed world s prev next turn attempt output now result h = ground arith

  apply_output-completed :
      (completed : Status → Sbi → Bool) (world : World) (s : Sbi) (turn attempt : ℕ)
      (output : StepOutput) (now : ℕ) (result : TurnOutput)
      → (apply_output env completed world s turn attempt output now).1 ≡ ok result
      → (s' : Sbi) × (result.task_completed ≡ completed s'.status s')
        × (result.next_status ≡ map_domain_status_to_string s'.status)
  unfolding apply_output
  apply_output-completed completed world s turn attempt output now result h =
      elim (Bool-cases (decide_next_action s (some output)).needs_reload) [
        | inl reload ↦ elim (Result-cases (find world s.id)) [
          | inl (none, e) ↦ cc (rw (reload, apply_output, e) at h)
          | inl (some s', e) ↦
              let (done, next) =
                log_step-completed completed world s' s.status s'.status turn attempt output now
                  result (rw (reload, apply_output, e) at h) in
              (s', done, next)
          | inr (x, e) ↦ cc (rw (reload, apply_output, e) at h)
        ]
        | inr plain ↦
            elim (Result-cases (apply_action s (decide_next_action s (some output)) now)) [
              | inl (s', e) ↦
                  let (done, next) =
                    log_step-completed completed world s' s.status _ turn _ output now result
                      (rw e at (simp (plain, apply_output) at h)) in
                  let same = apply_action-status s (decide_next_action s (some output)) now s' e in
                  (s', rw (← same) at done, rw (← same) at next)
              | inr (x, e) ↦ cc (rw e at (simp (plain, apply_output) at h))
            ]
      ]

  conclude-completed :
      (world : World) (s : Sbi) (prev : Status) (turn attempt reported : ℕ)
      (step status decision message : String) (completed : Bool) (now : ℕ) (result : TurnOutput)
      → (conclude env world s prev turn attempt reported step status decision message completed
          now).1
        ≡ ok result
      → (result.task_completed ≡ completed) × (result.next_status ≡ status)
  unfolding conclude
  conclude-completed world s prev turn attempt reported step status decision message completed now
        result h =
      ground arith

  -- What a turn reports: by the end of `conclude` or by that of `log_step`.
  abbrev Reports : (Status → Sbi → Bool) → TurnOutput → Type 0
  Reports completed result =
      (result.task_completed ≡ true) × (result.next_status ≡ "DONE")
      ⊎ (result.task_completed ≡ false) × (result.next_status ≡ "WIP")
      ⊎ ((s' : Sbi) × (result.task_completed ≡ completed s'.status s')
          × (result.next_status ≡ map_domain_status_to_string s'.status))

  completed_done :
      (result : TurnOutput)
      → Reports finished result
      → (result.task_completed ≡ false) ⊎ (result.next_status ≡ "DONE")
  unfolding Status.same map_domain_status_to_string
  completed_done result (inl (_, done)) = inr done
  completed_done result (inr (inl (wip, _))) = inl wip
  completed_done result (inr (inr (s', done, next))) = ground arith

  run_turn-Reports :
      (completed : Status → Sbi → Bool) (max_turns : ℤ) (world : World) (s : Sbi) (now : ℕ)
      (result : TurnOutput)
      → (run_turn env completed max_turns world s now).1 ≡ ok result
      → Reports completed result
  unfolding run_turn
  run_turn-Reports completed max_turns world s now result h =
      elim (Bool-cases (ltb_ℤ max_turns (pos (s.execution.current_turn.value + 1)))) [
        | inl late ↦ elim (Result-cases (force_done s now)) [
          | inl (s', e) ↦
              inl
                (conclude-completed _ _ _ _ _ _ _ _ _ _ _ _ result (simp (late, e, run_turn) at h))
          | inr (x, e) ↦ cc (simp (late, e, run_turn) at h)
        ]
        | inr early ↦ elim (Bool-cases (Status.same s.status Status.pending)) [
          | inl is_pending ↦ elim (Result-cases (update_sbi_status s Status.picked now)) [
            | inl (s', e) ↦ inr (
                inl (
                  conclude-completed _ _ _ _ _ _ _ _ _ _ _ _ result
                    (simp (early, is_pending, e, run_turn) at h)))
            | inr (x, e) ↦ cc (simp (early, is_pending, e, run_turn) at h)
          ]
          | inr not_pending ↦ elim (Bool-cases (Status.same s.status Status.picked)) [
            | inl is_picked ↦ elim (Result-cases (update_sbi_status s Status.implementing now)) [
              | inl (s', e) ↦ inr (
                  inl (
                    conclude-completed _ _ _ _ _ _ _ _ _ _ _ _ result
                      (simp (early, not_pending, is_picked, e, run_turn) at h)))
              | inr (x, e) ↦ cc (simp (early, not_pending, is_picked, e, run_turn) at h)
            ]
            | inr not_picked ↦ inr (
                inr (
                  apply_output-completed completed _ s _ _ _ now result
                    (simp (early, not_pending, not_picked, run_turn) at h)))
          ]
        ]
      ]

  -- Where `ExecuteForSBI` succeeds, TaskCompleted is set only with the status DONE.
  pub execute_for_sbi-completed :
      (max_turns : ℤ) (world : World) (sbi_id : String) (now : ℕ) (result : TurnOutput)
      → (execute_for_sbi env max_turns world sbi_id now).1 ≡ ok result
      → (result.task_completed ≡ false) ⊎ (result.next_status ≡ "DONE")
  unfolding execute_for_sbi
  execute_for_sbi-completed max_turns world sbi_id now result h =
      elim (Result-cases (find world sbi_id)) [
        | inl (none, e) ↦ cc (simp (e, execute_for_sbi) at h)
        | inl (some s, e) ↦ completed_done result (
            run_turn-Reports finished max_turns world s now result (simp (e, execute_for_sbi) at h))
        | inr (x, e) ↦ cc (simp (e, execute_for_sbi) at h)
      ]

  -- `Execute` sets TaskCompleted after every turn that it completes, but for the two turns that pick
  -- and start the SBI, since the test compares the next status to the status just read.
  pub execute_picked-completed :
      (max_turns : ℤ) (world : World) (s : Sbi) (now : ℕ) (result : TurnOutput)
      → (execute_picked env max_turns world s now).1 ≡ ok result
      → (result.task_completed ≡ true)
        ⊎ (result.task_completed ≡ false) × (result.next_status ≡ "WIP")
  unfolding execute_picked
  execute_picked-completed max_turns world s now result h =
      elim (run_turn-Reports unchanged max_turns world s now result h) [
        | inl (done, _) ↦ inl done
        | inr (inl wip) ↦ inr wip
        | inr (inr (s', done, _)) ↦ inl (done ∙ same_self s'.status)
      ]

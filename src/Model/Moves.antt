-- ===== src/Model/Moves.antt =====
-- Which statuses a task can move between, and what a move does to the task.
use deespec.Base.{
  ℕ, ◌≡◌, ◌≢◌, refl, sym, subst, ◌⊎◌, inl, inr, ◌↔◌, true, false, arith, ok, Succeeds, Bool-cases,
}
use deespec.Model.Status
use deespec.Model.Status.{Status}
use deespec.Model.Task.{BaseTask, update_status, derive_step_from_status}

-- The diagram of the status machine.
infix 40 ◌⟶◌ ◌⟶*◌
pub data ◌⟶◌ : Status → Status → Type 0 where
  pick : Status.pending ⟶ Status.picked
  start : Status.picked ⟶ Status.implementing
  unpick : Status.picked ⟶ Status.pending
  submit : Status.implementing ⟶ Status.reviewing
  skip_review : Status.implementing ⟶ Status.done
  break_off : Status.implementing ⟶ Status.failed
  put_back : Status.implementing ⟶ Status.pending
  approve : Status.reviewing ⟶ Status.done
  reject : Status.reviewing ⟶ Status.implementing
  give_up : Status.reviewing ⟶ Status.failed
  retry : Status.failed ⟶ Status.pending

-- Moves that `CanTransitionTo` permits, one after the other.
pub data ◌⟶*◌ : Status → Status → Type 0 where
  here : {s : Status} → s ⟶* s
  then : {s t u : Status} → Status.can_transition_to s t ≡ true → t ⟶* u → s ⟶* u

ruleset moves =
    (pick, start, unpick, submit, skip_review, break_off, put_back, approve, reject, give_up, retry)

permitted-⟶ : (s t : Status) → Status.can_transition_to s t ≡ true → s ⟶ t
unfolding Status.can_transition_to
permitted-⟶ s t h = grind (arith, moves)

⟶-permitted : {s t : Status} → s ⟶ t → Status.can_transition_to s t ≡ true
unfolding Status.can_transition_to
⟶-permitted pick = refl
⟶-permitted start = refl
⟶-permitted unpick = refl
⟶-permitted submit = refl
⟶-permitted skip_review = refl
⟶-permitted break_off = refl
⟶-permitted put_back = refl
⟶-permitted approve = refl
⟶-permitted reject = refl
⟶-permitted give_up = refl
⟶-permitted retry = refl

-- `CanTransitionTo` decides the diagram.
pub can_transition_to-iff-⟶ : (s t : Status) → (Status.can_transition_to s t ≡ true) ↔ (s ⟶ t)
can_transition_to-iff-⟶ s t = (permitted-⟶ s t, ⟶-permitted)

-- `UpdateStatus` succeeds exactly if the new status is a constant and the move is permitted; then the
-- task has that status and the step that belongs to it, and nothing else but its time has changed.
pub update_status_outcome :
    (b : BaseTask) (s : Status) (now : ℕ)
    → (Status.can_transition_to b.status s ≡ true)
        × (update_status b s now
            ≡ ok (record b {
              status = s;
              current_step = derive_step_from_status s;
              updated_at = now;
            }))
      ⊎ (Status.can_transition_to b.status s ≡ false)
        × ¬ Succeeds (λ b'. Unit {0}) (update_status b s now)
unfolding update_status
update_status_outcome b s now = ground arith

⟶*-trans : {s t u : Status} → s ⟶* t → t ⟶* u → s ⟶* u
⟶*-trans here more = more
⟶*-trans (then move moves) more = then move (⟶*-trans moves more)

to_pending : (s : Status) → Status.is_valid s ≡ true → s ≢ Status.done → s ⟶* Status.pending
unfolding Status.is_valid Status.can_transition_to
to_pending Status.pending valid open_ = here
to_pending Status.picked valid open_ = then refl here
to_pending Status.implementing valid open_ = then refl here
to_pending Status.reviewing valid open_ = then {t = Status.implementing} refl (then refl here)
to_pending Status.done valid open_ = absurd (open_ refl)
to_pending Status.failed valid open_ = then refl here
to_pending (Status.other t) valid open_ = cc

implementing_first : {t : Status} → Status.implementing ⟶* t → Status.pending ⟶* t
unfolding Status.can_transition_to
implementing_first moves = then {t = Status.picked} refl (then refl moves)

from_pending : (t : Status) → Status.is_valid t ≡ true → Status.pending ⟶* t
unfolding Status.is_valid Status.can_transition_to
from_pending Status.pending valid = here
from_pending Status.picked valid = then refl here
from_pending Status.implementing valid = implementing_first here
from_pending Status.reviewing valid = implementing_first (then refl here)
from_pending Status.done valid = implementing_first (then refl here)
from_pending Status.failed valid = implementing_first (then refl here)
from_pending (Status.other t) valid = cc

done_stays : (t : Status) → Status.can_transition_to Status.done t ≡ true → ⊥
unfolding Status.can_transition_to
done_stays t h = cc h

only_done : {s t : Status} → s ⟶* t → s ≡ Status.done → t ≡ Status.done
only_done here same = same
only_done {s} (then {t = next} move moves) same =
    absurd
      (done_stays next (subst (λ (x : Status). Status.can_transition_to x next ≡ true) same move))

same_done : (s : Status) → Status.same s Status.done ≡ true → s ≡ Status.done
unfolding Status.same
same_done s h = grind arith

differs_done : (s : Status) → Status.same s Status.done ≡ false → s ≢ Status.done
unfolding Status.same
differs_done s h same = cc (subst (λ (x : Status). Status.same x Status.done ≡ false) same h)

-- Of two valid statuses, the second can be reached from the first by moves that `CanTransitionTo`
-- permits exactly if the first is not DONE or both are: DONE is the only final status, and no other
-- status is ever lost or cut off from it.
pub reachable_iff_open :
    (s t : Status)
    → Status.is_valid s ≡ true
    → Status.is_valid t ≡ true
    → (s ⟶* t) ↔ ((s ≢ Status.done) ⊎ ((s ≡ Status.done) × (t ≡ Status.done)))
reachable_iff_open s t valid valid' = (
  λ moves. elim (Bool-cases (Status.same s Status.done)) [
    | inl same ↦ let done_ = same_done s same in inr (done_, only_done moves done_)
    | inr differs ↦ inl (λ done_. differs_done s differs done_)
  ],
  λ ends. elim ends [
    | inl open_ ↦ ⟶*-trans (to_pending s valid open_) (from_pending t valid')
    | inr (same, same') ↦
        subst (λ (x : Status). x ⟶* t) (sym same)
          (subst (λ (x : Status). Status.done ⟶* x) (sym same') here)
  ],
)

-- ===== src/Model/Tests.antt =====
-- The theorems about tasks at concrete inputs.
use deespec.Base.{◌≡◌, ◌≢◌, ◌⊎◌, ◌↔◌, refl, none, [], ◌∷◌}
use deespec.Model.Status
use deespec.Model.Status.{Status}
use deespec.Model.Value.{Step, TaskType}
use deespec.Model.Task.{BaseTask}
use deespec.Model.Epic.{Epic}
use deespec.Model.Moves.{◌⟶*◌, reachable_iff_open}

abbrev submitted : BaseTask
submitted = record {
  id = "01J";
  task_type = TaskType.sbi;
  title = "Add a parser";
  description = "";
  status = Status.reviewing;
  current_step = Step.review;
  parent_id = none;
  created_at = 5;
  updated_at = 9;
}

reachable_iff_open_example : (Status.failed ⟶* Status.reviewing) ↔ (
    (Status.failed ≢ Status.done)
    ⊎ ((Status.failed ≡ Status.done) × (Status.reviewing ≡ Status.done)))
unfolding Status.is_valid
reachable_iff_open_example = reachable_iff_open Status.failed Status.reviewing refl refl

abbrev two_pbis : Epic
two_pbis = record { base = submitted; pbi_ids = "PBI-1" ∷ "PBI-2" ∷ [] }

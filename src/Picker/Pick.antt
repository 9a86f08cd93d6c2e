-- ===== src/Picker/Pick.antt =====
-- PickNextTask and sortTasksByPriority of internal/application/service/task_picker_service.go. The
-- repository's two reads are arguments; the detector of incomplete instructions, which only logs and
-- writes drafts, is left out.
use deespec.Base.{String, Bool, List, [], ◌∷◌, Option, some, none, Result, ok, err, if◌then◌else◌}
use deespec.Base.Int.{ℤ}
use deespec.Picker.Tasks.{SbiTask, filter_ready_tasks, comes_before}
use deespec.Picker.Texts.{before}
use deespec.Picker.Cycles.{detect_cycles}

-- Go's sort.SliceStable: an element goes behind those that are less, and before its equals.
unfoldable pub insert_stable : (SbiTask → SbiTask → Bool) → SbiTask → List SbiTask → List SbiTask
insert_stable less t [] = t ∷ []
insert_stable less t (u ∷ tasks) =
    let rest = insert_stable less t tasks in if less u t then u ∷ rest else t ∷ u ∷ tasks

unfoldable pub slice_stable : (SbiTask → SbiTask → Bool) → List SbiTask → List SbiTask
unfolding insert_stable
slice_stable less [] = []
slice_stable less (t ∷ tasks) = insert_stable less t (slice_stable less tasks)

unfoldable pub sort_tasks_by_priority : List String → List SbiTask → List SbiTask
unfolding slice_stable comes_before
sort_tasks_by_priority order_by tasks = slice_stable (comes_before before order_by) tasks

-- The filter after the search for cycles.
unfoldable pub ready_tasks : List SbiTask → List String → List SbiTask
unfolding filter_ready_tasks detect_cycles
ready_tasks tasks completed = filter_ready_tasks (detect_cycles tasks).in_cycle completed tasks

pub data Reason : Type 0 where
  no_reason no_tasks_found no_ready_tasks : Reason
  picked_by : List String → ℤ → ℤ → Reason

pub data PickError : Type 0 where
  load_failed : String → PickError
  completed_failed : String → PickError

pub record TaskPickOutput : Type 0 where
  pub task : Option SbiTask
  pub reason : Reason
  pub error : Option PickError

abbrev pub order_or_default : Option (List String) → List String
order_or_default (some order_by) = order_by
order_or_default none = "priority" ∷ "registered_at" ∷ "sequence" ∷ "id" ∷ []

unfoldable pub pick_first : List String → List SbiTask → TaskPickOutput
pick_first order_by [] = record { task = none; reason = no_ready_tasks; error = none }
pick_first order_by (t ∷ tasks) = record {
  task = some t;
  reason = picked_by order_by t.por t.priority;
  error = none;
}

unfoldable pub pick_loaded :
    Option (List String) → List SbiTask → Result String (List String) → TaskPickOutput
unfolding ready_tasks sort_tasks_by_priority pick_first
pick_loaded order_by [] completed = record { task = none; reason = no_tasks_found; error = none }
pick_loaded order_by (t ∷ tasks) (err e) = record {
  task = none;
  reason = no_reason;
  error = some (completed_failed e);
}
pick_loaded order_by (t ∷ tasks) (ok completed) =
    pick_first (order_or_default order_by)
      (sort_tasks_by_priority (order_or_default order_by) (ready_tasks (t ∷ tasks) completed))

unfoldable pub pick_next_task :
    Option (List String)
    → Result String (List SbiTask)
    → Result String (List String)
    → TaskPickOutput
unfolding pick_loaded
pick_next_task order_by (err e) completed = record {
  task = none;
  reason = no_reason;
  error = some (load_failed e);
}
pick_next_task order_by (ok tasks) completed = pick_loaded order_by tasks completed

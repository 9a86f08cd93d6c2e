-- ===== src/Picker/Tests.antt =====
-- The theorems about the pick at concrete inputs.
use deespec.Base.{
  Option, some, ◌==◌, if◌then◌else◌, Result, ℕ, none, ok, ◌≡◌, refl, any, str_eq, String, false,
  List, [], ◌∷◌,
}
use deespec.Base.Int.{ℤ, pos, negsuc}
use deespec.Picker.Tasks.{SbiTask}
use deespec.Picker.Cycles.{
  detect_cycles, search_from, dfs, leave, without, visit_all, then_visit, dependencies, find_task,
}
use deespec.Picker.Ordered.{Ordered, EachDependsOn}
use deespec.Picker.Topological.{Sorted, detect_cycles-exact}
use deespec.Picker.Pick.{pick_next_task}
use deespec.Picker.Picked.{Picks, pick_next_task-Picks}
use deespec.Model.Status.{Status}
use deespec.Model.Value.{Step, TaskType}
use deespec.Model.Sbi.{Sbi}
use deespec.Parallel.Runner.{SbiFilter}
use deespec.Picker.Sbis.{pick_next_sbi}

abbrev task : String → ℤ → List String → SbiTask
task id priority depends_on = record {
  id = id;
  priority = priority;
  por = pos 999;
  sequence = pos 1;
  registered_at = 5;
  location = 0;
  depends_on = depends_on;
}

abbrev urgent : SbiTask
urgent = task "SBI-1" (pos 2) []

abbrev normal : SbiTask
normal = task "SBI-2" (pos 0) ("SBI-0" ∷ [])

abbrev late : SbiTask
late = task "SBI-3" (negsuc 0) ("SBI-2" ∷ [])

abbrev criteria : List String
criteria = "priority" ∷ "registered_at" ∷ []

-- Two tasks that depend on each other, and one that depends on the first.
abbrev knot : List SbiTask
knot =
    task "A" (pos 1) ("B" ∷ [])
    ∷ task "B" (pos 1) ("A" ∷ [])
    ∷ task "C" (pos 9) ("A" ∷ [])
    ∷ urgent
    ∷ late
    ∷ normal
    ∷ []

unfoldable whole_search : Unit {0}
unfolding detect_cycles search_from dfs leave without visit_all then_visit dependencies find_task
whole_search = tt

knot_marks : (detect_cycles knot).in_cycle ≡ "C" ∷ "A" ∷ "B" ∷ []
unfolding whole_search
knot_marks = refl

knot_visits : (detect_cycles knot).visited ≡ "SBI-3" ∷ "SBI-2" ∷ "SBI-0" ∷ "SBI-1" ∷ []
unfolding whole_search
knot_visits = refl

detect_cycles-exact_example :
    EachDependsOn knot
      (λ x. any (str_eq x) (detect_cycles knot).in_cycle)
      (detect_cycles knot).in_cycle
    × Ordered knot (detect_cycles knot).visited
    × Sorted knot (detect_cycles knot).in_cycle (detect_cycles knot).visited
detect_cycles-exact_example = detect_cycles-exact knot

pick_next_task-Picks_example :
    Picks
      ("priority" ∷ "registered_at" ∷ "sequence" ∷ "id" ∷ [])
      knot
      ("SBI-0" ∷ [])
      (pick_next_task none (ok knot) (ok ("SBI-0" ∷ [])))
pick_next_task-Picks_example =
    pick_next_task-Picks none knot ("SBI-0" ∷ []) 0
      (refl, (refl, (refl, (refl, (refl, (refl, tt))))))

abbrev pending_sbi : String → List String → Status → Sbi
pending_sbi id file_paths status = record {
  base = record {
    id = id;
    task_type = TaskType.sbi;
    title = "Change files";
    description = "";
    status = status;
    current_step = Step.pick;
    parent_id = none;
    created_at = 5;
    updated_at = 9;
  };
  metadata = record {
    priority = pos 0;
    sequence = pos 1;
    registered_at = 5;
    started_at = none;
    completed_at = none;
    labels = [];
    assigned_agent = "claude-code";
    file_paths = file_paths;
    depends_on = [];
    only_implement = false;
  };
  execution = record {
    current_turn = record { value = 0 };
    current_attempt = record { value = 1 };
    max_turns = pos 10;
    max_attempts = pos 3;
    last_error = "";
    artifact_paths = [];
  };
}

abbrev waiting : Sbi
waiting = pending_sbi "SBI-1" [] Status.pending

abbrev listed_sbis : SbiFilter → Result String (List Sbi)
listed_sbis f = if f.limit == 100 then ok (waiting ∷ []) else ok []

abbrev no_dependencies : Sbi → Result String (List String)
no_dependencies s = ok []

abbrev first_lock : String → Result String (Option ℕ)
first_lock lock_id = ok (some 1)

-- Of two SBIs in progress the listing's order decides: one under review goes before one that is being
-- implemented.
abbrev reviewed : Sbi
reviewed = pending_sbi "SBI-4" [] Status.reviewing

abbrev implemented : Sbi
implemented = pending_sbi "SBI-5" [] Status.implementing

review_first :
    pick_next_sbi (λ f. ok (reviewed ∷ implemented ∷ [])) no_dependencies ≡ ok (some reviewed)
unfolding pick_next_sbi
review_first = refl

-- ===== src/Picker/Filter.antt =====
-- Which tasks the filter of the pick lets through.
use deespec.Base.{
  ◌≡◌, sym, subst, ◌⊎◌, inl, inr, String, true, false, List, [], ◌∷◌, any, str_eq, Bool-cases,
}
use deespec.Parallel.Ready.{AllAmong}
use deespec.Picker.Tasks.{SbiTask, filter_ready_tasks, are_task_dependencies_met, all_completed}

-- Every task is not completed, not marked as in a cycle, and has only completed dependencies.
abbrev pub AllReady : List String → List String → List SbiTask → Type 0
AllReady in_cycle completed [] = Unit
AllReady in_cycle completed (t ∷ tasks) =
    ((any (str_eq t.id) completed ≡ false)
      × (any (str_eq t.id) in_cycle ≡ false)
      × AllAmong t.depends_on completed)
    × AllReady in_cycle completed tasks

all_completed-AllAmong :
    (completed deps : List String) → all_completed completed deps ≡ true → AllAmong deps completed
unfolding all_completed
all_completed-AllAmong completed [] h = tt
all_completed-AllAmong completed (dep ∷ deps) h = elim (Bool-cases (any (str_eq dep) completed)) [
  | inl found ↦ (found, all_completed-AllAmong completed deps (simp (found, all_completed) at h))
  | inr missing ↦ cc (simp (missing, all_completed) at h)
]

-- The filter keeps the first task, which is then not completed, not marked and has only completed
-- dependencies, or it drops this task for one of these three reasons, and goes on with the others.
pub filter_ready_tasks-first :
    (in_cycle completed : List String) (t : SbiTask) (tasks : List SbiTask)
    → ((filter_ready_tasks in_cycle completed (t ∷ tasks)
          ≡ t ∷ filter_ready_tasks in_cycle completed tasks)
        × (any (str_eq t.id) completed ≡ false)
        × (any (str_eq t.id) in_cycle ≡ false)
        × AllAmong t.depends_on completed)
      ⊎ (filter_ready_tasks in_cycle completed (t ∷ tasks)
          ≡ filter_ready_tasks in_cycle completed tasks)
        × ((any (str_eq t.id) completed ≡ true)
            ⊎ (any (str_eq t.id) in_cycle ≡ true)
            ⊎ (are_task_dependencies_met completed t ≡ false))
unfolding filter_ready_tasks are_task_dependencies_met
filter_ready_tasks-first in_cycle completed t tasks =
    elim (Bool-cases (any (str_eq t.id) completed)) [
      | inl finished ↦ inr (simp (finished, filter_ready_tasks), inl finished)
      | inr open_ ↦ elim (Bool-cases (any (str_eq t.id) in_cycle)) [
        | inl marked ↦ inr (simp (open_, marked, filter_ready_tasks), inr (inl marked))
        | inr clear ↦ elim (Bool-cases (all_completed completed t.depends_on)) [
          | inl met ↦ inl (
            simp (open_, clear, met, filter_ready_tasks, are_task_dependencies_met),
            open_,
            clear,
            all_completed-AllAmong completed t.depends_on met,
          )
          | inr unmet ↦ inr (
            simp (open_, clear, unmet, filter_ready_tasks, are_task_dependencies_met),
            inr (inr unmet),
          )
        ]
      ]
    ]

-- The filter lets only tasks through that are not completed, not marked as in a cycle, and whose
-- dependencies are all completed.
pub filter_ready_tasks-AllReady :
    (in_cycle completed : List String) (tasks : List SbiTask)
    → AllReady in_cycle completed (filter_ready_tasks in_cycle completed tasks)
unfolding filter_ready_tasks
filter_ready_tasks-AllReady in_cycle completed [] = tt
filter_ready_tasks-AllReady in_cycle completed (t ∷ tasks) =
    elim (filter_ready_tasks-first in_cycle completed t tasks) [
      | inl (e, open_, clear, met) ↦
          subst (AllReady in_cycle completed) (sym e)
            ((open_, clear, met), filter_ready_tasks-AllReady in_cycle completed tasks)
      | inr (e, _) ↦
          subst (AllReady in_cycle completed) (sym e)
            (filter_ready_tasks-AllReady in_cycle completed tasks)
    ]

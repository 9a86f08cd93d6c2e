-- ===== src/Picker/Picked.antt =====
-- Which task the pick gives: a ready one, and the first of them.
use mathlib.Core.List.{Memᴰ}
use mathlib.Core.List.Memᴰ
use deespec.Base.{
  ℕ, ◌≡◌, refl, sym, ap, ◌∙◌, subst, ◌⊎◌, inl, inr, String, false, List, [], ◌∷◌, Option, some,
  none, any, str_eq, Bool-cases, arith, ok,
}
use deespec.Parallel.Ready.{AllAmong}
use deespec.Picker.Tasks.{SbiTask, filter_ready_tasks, comes_before}
use deespec.Picker.Texts.{before}
use deespec.Picker.Order.{comes_before_weak_order, comes_before-asymmetric}
use deespec.Picker.Cycles.{detect_cycles}
use deespec.Picker.Filter.{filter_ready_tasks-first}
use deespec.Picker.Pick.{
  TaskPickOutput, insert_stable, slice_stable, sort_tasks_by_priority, ready_tasks,
  order_or_default, pick_first, pick_loaded, pick_next_task,
}

-- No task of the list comes before the given one.
abbrev pub NoneBefore : List String → SbiTask → List SbiTask → Type 0
NoneBefore order_by t [] = Unit
NoneBefore order_by t (u ∷ tasks) =
    (comes_before before order_by u t ≡ false) × NoneBefore order_by t tasks

-- The first task of the list is one of the given tasks, and none of those comes before it.
abbrev First : List String → List SbiTask → List SbiTask → Type 0
First order_by tasks [] = tasks ≡ []
First order_by tasks (t ∷ rest) = Memᴰ t tasks × NoneBefore order_by t tasks

-- The registration times of the tasks are all in this location.
abbrev pub AllIn : ℕ → List SbiTask → Type 0
AllIn place [] = Unit
AllIn place (t ∷ tasks) = (t.location ≡ place) × AllIn place tasks

Memᴰ-AllIn :
    (place : ℕ) (t : SbiTask) (tasks : List SbiTask)
    → AllIn place tasks
    → Memᴰ t tasks
    → t.location ≡ place
Memᴰ-AllIn place t [] all m = elim (Memᴰ.not-nil m) [ ]
Memᴰ-AllIn place t (u ∷ tasks) (here, there) m = elim (Memᴰ.cases_cons m) [
  | inl same ↦ ap (λ (x : SbiTask). x.location) same ∙ here
  | inr later ↦ Memᴰ-AllIn place t tasks there later
]

NoneBefore-trans :
    (order_by : List String) (place : ℕ) (t u : SbiTask) (tasks : List SbiTask)
    → t.location ≡ place
    → u.location ≡ place
    → AllIn place tasks
    → comes_before before order_by t u ≡ false
    → NoneBefore order_by t tasks
    → NoneBefore order_by u tasks
NoneBefore-trans order_by place t u [] t_in u_in all h none_before = tt
NoneBefore-trans order_by place t u (v ∷ tasks) t_in u_in (v_in, all) h (here, there) = (
  ground (arith, comes_before_weak_order order_by v t u (v_in ∙ sym t_in) (t_in ∙ sym u_in)),
  NoneBefore-trans order_by place t u tasks t_in u_in all h there,
)

insert_stable-First :
    (order_by : List String) (place : ℕ) (t : SbiTask) (tasks sorted : List SbiTask)
    → t.location ≡ place
    → AllIn place tasks
    → First order_by tasks sorted
    → First order_by (t ∷ tasks) (insert_stable (comes_before before order_by) t sorted)
unfolding insert_stable
insert_stable-First order_by place t tasks [] t_in all none_left =
    subst (λ left. First order_by (t ∷ left) (t ∷ [])) (sym none_left)
      (Memᴰ.head refl, ((comes_before_weak_order order_by t t t refl refl).0, tt))
insert_stable-First order_by place t tasks (u ∷ sorted) t_in all (here, first) =
    let u_in = Memᴰ-AllIn place u tasks all here in
    elim (Bool-cases (comes_before before order_by u t)) [
      | inl less ↦
          rw (less, insert_stable)
            (Memᴰ.tail here, (comes_before-asymmetric order_by u t (u_in ∙ sym t_in) less, first))
      | inr not_less ↦
          rw (not_less, insert_stable)
            (
              Memᴰ.head refl,
              (
                (comes_before_weak_order order_by t t t refl refl).0,
                NoneBefore-trans order_by place u t tasks u_in t_in all not_less first,
              ),
            )
    ]

slice_stable-First :
    (order_by : List String) (place : ℕ) (tasks : List SbiTask)
    → AllIn place tasks
    → First order_by tasks (slice_stable (comes_before before order_by) tasks)
unfolding slice_stable
slice_stable-First order_by place [] all = refl
slice_stable-First order_by place (t ∷ tasks) (t_in, all) =
    insert_stable-First order_by place t tasks (slice_stable (comes_before before order_by) tasks)
      t_in all (slice_stable-First order_by place tasks all)

-- What the filter asks of a task that it lets through.
abbrev pub IsReady : List String → List String → SbiTask → Type 0
IsReady in_cycle completed t =
    (any (str_eq t.id) completed ≡ false)
    × (any (str_eq t.id) in_cycle ≡ false)
    × AllAmong t.depends_on completed

filter_ready_tasks-Mem :
    (in_cycle completed : List String) (t : SbiTask) (tasks : List SbiTask)
    → Memᴰ t (filter_ready_tasks in_cycle completed tasks)
    → Memᴰ t tasks × IsReady in_cycle completed t
unfolding filter_ready_tasks
filter_ready_tasks-Mem in_cycle completed t [] m = elim (Memᴰ.not-nil m) [ ]
filter_ready_tasks-Mem in_cycle completed t (u ∷ tasks) m =
    elim (filter_ready_tasks-first in_cycle completed u tasks) [
      | inl (e, open_, clear, met) ↦ elim (Memᴰ.cases_cons (subst (Memᴰ t) e m)) [
        | inl same ↦
            (Memᴰ.head same, subst (IsReady in_cycle completed) (sym same) (open_, clear, met))
        | inr later ↦
            let (there, fit) = filter_ready_tasks-Mem in_cycle completed t tasks later in
            (Memᴰ.tail there, fit)
      ]
      | inr (e, _) ↦
          let (there, fit) =
            filter_ready_tasks-Mem in_cycle completed t tasks (subst (Memᴰ t) e m) in
          (Memᴰ.tail there, fit)
    ]

filter_ready_tasks-AllIn :
    (in_cycle completed : List String) (place : ℕ) (tasks : List SbiTask)
    → AllIn place tasks
    → AllIn place (filter_ready_tasks in_cycle completed tasks)
unfolding filter_ready_tasks
filter_ready_tasks-AllIn in_cycle completed place [] all = tt
filter_ready_tasks-AllIn in_cycle completed place (t ∷ tasks) (t_in, all) =
    let others = filter_ready_tasks-AllIn in_cycle completed place tasks all in
    elim (filter_ready_tasks-first in_cycle completed t tasks) [
      | inl (e, _, _, _) ↦ subst (AllIn place) (sym e) (t_in, others)
      | inr (e, _) ↦ subst (AllIn place) (sym e) others
    ]

-- The two outcomes of a pick whose reads succeed.
abbrev pub Picks : List String → List SbiTask → List String → TaskPickOutput → Type 0
Picks order_by tasks completed output =
    ((output.task ≡ none) × (ready_tasks tasks completed ≡ []))
    ⊎ ((t : SbiTask) × (output.task ≡ some t)
        × Memᴰ t tasks
        × IsReady (detect_cycles tasks).in_cycle completed t
        × NoneBefore order_by t (ready_tasks tasks completed))

pick_first-Picks :
    (order_by : List String) (tasks : List SbiTask) (completed : List String)
    (sorted : List SbiTask)
    → First order_by (ready_tasks tasks completed) sorted
    → Picks order_by tasks completed (pick_first order_by sorted)
unfolding pick_first ready_tasks
pick_first-Picks order_by tasks completed [] none_left = inl (refl, none_left)
pick_first-Picks order_by tasks completed (t ∷ sorted) (here, first) =
    let (there, fit) =
      filter_ready_tasks-Mem (detect_cycles tasks).in_cycle completed t tasks here in
    inr (t, refl, there, fit, first)

-- A pick whose reads succeed, with registration times that are all in one location, gives no task, and then no task is ready, or it gives one of the tasks
-- that is not completed, not marked as leading to a cycle, and has only completed dependencies, and
-- no ready task comes before it in the order asked for.
pub pick_next_task-Picks :
    (order_by : Option (List String)) (tasks : List SbiTask) (completed : List String) (place : ℕ)
    → AllIn place tasks
    → Picks
        (order_or_default order_by)
        tasks
        completed
        (pick_next_task order_by (ok tasks) (ok completed))
unfolding pick_next_task pick_loaded sort_tasks_by_priority ready_tasks detect_cycles
    filter_ready_tasks
pick_next_task-Picks order_by [] completed place all = inl (refl, refl)
pick_next_task-Picks order_by (t ∷ tasks) completed place all =
    pick_first-Picks (order_or_default order_by) (t ∷ tasks) completed _ (
      slice_stable-First (order_or_default order_by) place (ready_tasks (t ∷ tasks) completed) (
        filter_ready_tasks-AllIn (detect_cycles (t ∷ tasks)).in_cycle completed place (t ∷ tasks)
          all))

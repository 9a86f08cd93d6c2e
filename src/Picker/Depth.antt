-- ===== src/Picker/Depth.antt =====
-- The depth of the search for cycles: one level for each task that is not on its path is enough.
use deespec.Base.{
  ℕ, zero, suc, ◌≡◌, refl, sym, subst, ◌<◌, ◌≤◌, inl, inr, String, Bool, false, List, [], ◌∷◌, any,
  str_eq, arith, Bool-cases, length, eq_iff, eq_refl, some, none, Option-cases, if◌then◌else◌, ◌+◌,
}
use deespec.Picker.Tasks.{SbiTask}
use deespec.Picker.Cycles.{Search, find_task, dependencies, visit_all, dfs}
use deespec.Picker.Ordered.{EachDependsOn-mono}
use deespec.Picker.Visit.{marked_or_on_path, Good, After, AfterAll, visit_all-AfterAll, leave-After}

-- The number of tasks that are not on the path.
abbrev pub off_path : List SbiTask → List String → ℕ
off_path [] path = 0
off_path (t ∷ tasks) path =
    let rest = off_path tasks path in if any (str_eq t.id) path then rest else rest + 1

off_path_le :
    (tasks : List SbiTask) (id : String) (path : List String)
    → off_path tasks (id ∷ path) ≤ off_path tasks path
off_path_le [] id path = omega arith
off_path_le (t ∷ tasks) id path = ground (arith, off_path_le tasks id path)

off_path_lt :
    (tasks : List SbiTask) (id : String) (path : List String) (u : SbiTask)
    → find_task tasks id ≡ some u
    → any (str_eq id) path ≡ false
    → off_path tasks (id ∷ path) < off_path tasks path
unfolding find_task
off_path_lt [] id path u known fresh = cc
off_path_lt (t ∷ tasks) id path u known fresh = elim (Option-cases (find_task tasks id)) [
  | inr (later, e) ↦ ground (arith, off_path_lt tasks id path later e fresh)
  | inl e ↦
      ground
        (arith, off_path_le tasks id path, eq_iff t.id id, simp (e, find_task) at known, eq_refl id)
]

pub off_path-length :
    (tasks : List SbiTask) (path : List String) → off_path tasks path ≤ length tasks
off_path-length [] path = omega arith
off_path-length (t ∷ tasks) path = ground (arith, off_path-length tasks path)

-- The loop inside a call, on the path that the call has lengthened.
deeper :
    (tasks : List SbiTask) (visit : String → Search → Bool × Search) (depth : ℕ) (id : String)
    (s : Search)
    → ((id' : String) (s' : Search)
        → off_path tasks s'.visiting < depth
        → Good tasks s'
        → After tasks id' s' (visit id' s'))
    → off_path tasks s.visiting < suc depth
    → any (str_eq id) s.visiting ≡ false
    → Good tasks s
    → AfterAll tasks
        (dependencies tasks id)
        (record s { visiting = id ∷ s.visiting })
        (visit_all visit (dependencies tasks id) (record s { visiting = id ∷ s.visiting }))
unfolding dependencies visit_all
deeper tasks visit depth id s after deep fresh good =
    let longer : Good tasks (record s { visiting = id ∷ s.visiting }) = record {
      ordered = good.ordered;
      chained =
          EachDependsOn-mono tasks (marked_or_on_path s)
            (marked_or_on_path (record s { visiting = id ∷ s.visiting })) (λ x h. ground arith)
            s.in_cycle good.chained;
    } in
    elim (Option-cases (find_task tasks id)) [
      | inl unknown ↦
          subst
            (λ found.
              AfterAll tasks (elim found [ some t ↦ t.depends_on | none ↦ [] ])
                (record s { visiting = id ∷ s.visiting })
                (visit_all visit (elim found [ some t ↦ t.depends_on | none ↦ [] ])
                  (record s { visiting = id ∷ s.visiting })))
            (sym unknown)
            (
              record { same_path = refl; same_marks = refl; visits_grow = λ x h. h; good = longer },
              tt,
            )
      | inr (t, known) ↦
          visit_all-AfterAll tasks visit (id ∷ s.visiting)
            (λ id' s' same good'.
              after id' s'
                (subst (λ path. off_path tasks path < depth) (sym same)
                  (omega (arith, off_path_lt tasks id s.visiting t known fresh, deep)))
                good')
            (dependencies tasks id) (record s { visiting = id ∷ s.visiting }) refl longer
    ]

pub dfs-After :
    (tasks : List SbiTask) (depth : ℕ) (id : String) (s : Search)
    → off_path tasks s.visiting < depth
    → Good tasks s
    → After tasks id s (dfs tasks depth id s)
unfolding dfs
dfs-After tasks zero id s deep good = ground (arith, deep)
dfs-After tasks (suc depth) id s deep good = elim (Bool-cases (any (str_eq id) s.visiting)) [
  | inl on_path ↦
      rw (on_path, dfs)
        (
          record {
            path_grows = λ x h. h;
            marks_grow = λ x h. h;
            path_marked = λ x h. inl h;
            visits_grow = λ x h. h;
            good = good;
          },
          on_path,
        )
  | inr fresh ↦ elim (Bool-cases (any (str_eq id) s.visited)) [
    | inl visited ↦
        rw (fresh, visited, dfs)
          (
            record { same_path = refl; same_marks = refl; visits_grow = λ x h. h; good = good },
            visited,
          )
    | inr new ↦
        rw (fresh, new, dfs)
          (leave-After tasks id s fresh good _
            (deeper tasks (dfs tasks depth) depth id s (dfs-After tasks depth) deep fresh good))
  ]
]

-- ===== src/Picker/Topological.antt =====
-- The search for cycles marks exactly the tasks that lead to a cycle.
use deespec.Base.{
  sym, subst, ◌⊎◌, inl, inr, String, Bool, true, false, List, [], ◌∷◌, any, str_eq, arith,
  Bool-cases, length, ◌+◌,
}
use deespec.Picker.Tasks.{SbiTask}
use deespec.Picker.Cycles.{Search, dfs, search_from, detect_cycles}
use deespec.Picker.Ordered.{In, Ordered, EachDependsOn, EachDependsOn-mono}
use deespec.Picker.Visit.{marked_or_on_path, Good, After}
use deespec.Picker.Depth.{off_path-length, dfs-After}

-- Every id of the tasks is in one of the lists.
abbrev pub Sorted : List SbiTask → List String → List String → Type 0
Sorted [] marked visited = Unit
Sorted (t ∷ tasks) marked visited = (In t.id marked ⊎ In t.id visited) × Sorted tasks marked visited

-- Between two calls of the search, everything on its path is marked.
record Between (tasks : List SbiTask) (s : Search) : Type 0 where
  good : Good tasks s
  path_marked : (x : String) → In x s.visiting → In x s.in_cycle

record Grown (s s' : Search) : Type 0 where
  marks : (x : String) → In x s.in_cycle → In x s'.in_cycle
  visits : (x : String) → In x s.visited → In x s'.visited

After-Between :
    (tasks : List SbiTask) (id : String) (s : Search) (r : Bool × Search)
    → Between tasks s
    → After tasks id s r
    → Between tasks r.1 × Grown s r.1 × (In id r.1.in_cycle ⊎ In id r.1.visited)
After-Between tasks id s (true, s') between (found, here) =
    let marked : (x : String) → In x s'.visiting → In x s'.in_cycle = (λ x h.
      elim (found.path_marked x h) [
        | inl before ↦ found.marks_grow x (between.path_marked x before)
        | inr now ↦ now
      ]) in
    (
      record { good = found.good; path_marked = marked },
      record { marks = found.marks_grow; visits = found.visits_grow },
      inl (marked id here),
    )
After-Between tasks id s (false, s') between (closed, here) =
    let grows : (x : String) → In x s.in_cycle → In x s'.in_cycle =
      (λ x h. subst (In x) (sym closed.same_marks) h) in
    (
      record {
        good = closed.good;
        path_marked = λ x h. grows x (between.path_marked x (subst (In x) closed.same_path h));
      },
      record { marks = grows; visits = closed.visits_grow },
      inr here,
    )

-- What the rest of the loop makes of the state between two calls.
abbrev Searched : List SbiTask → List SbiTask → Search → Search → Type 0
Searched tasks rest s s' = Between tasks s' × Grown s s' × Sorted rest s'.in_cycle s'.visited

Searched-first :
    (tasks rest : List SbiTask) (t : SbiTask) (s s' s'' : Search)
    → Grown s s'
    → In t.id s'.in_cycle ⊎ In t.id s'.visited
    → Searched tasks rest s' s''
    → Searched tasks (t ∷ rest) s s''
Searched-first tasks rest t s s' s'' grown here (between, grown', there) = (
  between,
  record {
    marks = λ x h. grown'.marks x (grown.marks x h);
    visits = λ x h. grown'.visits x (grown.visits x h);
  },
  (
    elim here [
      | inl marked ↦ inl (grown'.marks t.id marked)
      | inr visited ↦ inr (grown'.visits t.id visited)
    ],
    there,
  ),
)

search_from-Searched :
    (tasks rest : List SbiTask) (s : Search)
    → Between tasks s
    → Searched tasks rest s (search_from tasks rest s)
unfolding search_from
search_from-Searched tasks [] s between =
    (between, record { marks = λ x h. h; visits = λ x h. h }, tt)
search_from-Searched tasks (t ∷ rest) s between = elim (Bool-cases (any (str_eq t.id) s.visited)) [
  | inl visited ↦
      rw (visited, search_from)
        (Searched-first tasks rest t s s _ (record { marks = λ x h. h; visits = λ x h. h })
          (inr visited) (search_from-Searched tasks rest s between))
  | inr new ↦
      let (between', grown, here) =
        After-Between tasks t.id s (dfs tasks (length tasks + 1) t.id s) between (
          dfs-After tasks (length tasks + 1) t.id s
            (omega (arith, off_path-length tasks s.visiting)) between.good) in
      rw (new, search_from)
        (Searched-first tasks rest t s _ _ grown here
          (search_from-Searched tasks rest (dfs tasks (length tasks + 1) t.id s).1 between'))
]

-- The search marks exactly what leads to a cycle: every marked id depends on a marked one, so that
-- its dependencies go on for ever, and every task that is not marked stands in a list in which each
-- id comes before all its dependencies.
pub detect_cycles-exact :
    (tasks : List SbiTask)
    → EachDependsOn tasks
        (λ x. any (str_eq x) (detect_cycles tasks).in_cycle)
        (detect_cycles tasks).in_cycle
      × Ordered tasks (detect_cycles tasks).visited
      × Sorted tasks (detect_cycles tasks).in_cycle (detect_cycles tasks).visited
unfolding detect_cycles
detect_cycles-exact tasks =
    let (between, grown, sorted) =
      search_from-Searched tasks tasks (record { visited = []; visiting = []; in_cycle = [] })
        (record { good = record { ordered = tt; chained = tt }; path_marked = λ x h. h }) in
    let s = search_from tasks tasks (record { visited = []; visiting = []; in_cycle = [] }) in
    (
      EachDependsOn-mono tasks (marked_or_on_path s) (λ x. any (str_eq x) s.in_cycle)
          (λ x h. ground (arith, between.path_marked x)) s.in_cycle between.good.chained,
      between.good.ordered,
      sorted,
    )

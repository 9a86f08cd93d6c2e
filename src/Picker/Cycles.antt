-- ===== src/Picker/Cycles.antt =====
-- detectCycles of internal/application/service/task_picker_service.go: the depth-first search for
-- circular dependencies. A set is the list of its members. The search goes at most as deep as there
-- are tasks that are not on its path, and one further; Topological proves that this is enough.
use deespec.Base.{
  ℕ, zero, suc, String, Bool, true, false, List, [], ◌∷◌, Option, some, none, any, str_eq,
  if◌then◌else◌, length, ◌+◌,
}
use deespec.Picker.Tasks.{SbiTask}

-- The map from ids to tasks: of several tasks with one id it holds the last.
unfoldable pub find_task : List SbiTask → String → Option SbiTask
find_task [] id = none
find_task (t ∷ tasks) id = elim (find_task tasks id) [
  | some later ↦ some later
  | none ↦ if str_eq t.id id then some t else none
]

-- What the search goes on with: nothing where the id has no task.
unfoldable pub dependencies : List SbiTask → String → List String
unfolding find_task
dependencies tasks id = elim (find_task tasks id) [ some t ↦ t.depends_on | none ↦ [] ]

pub record Search : Type 0 where
  pub visited : List String
  pub visiting : List String
  pub in_cycle : List String

unfoldable pub without : String → List String → List String
without id [] = []
without id (x ∷ xs) = let rest = without id xs in if str_eq id x then rest else x ∷ rest

-- The end of dfs, by the outcome of its loop.
unfoldable pub leave : String → Bool × Search → Bool × Search
unfolding without
leave id (true, s) = (true, record s { in_cycle = id ∷ s.in_cycle })
leave id (false, s) =
    (false, record s { visiting = without id s.visiting; visited = id ∷ s.visited })

-- One round of the loop: it ends at the first dependency that leads to a cycle.
unfoldable pub then_visit : (Search → Bool × Search) → Bool × Search → Bool × Search
then_visit go_on (true, s) = (true, s)
then_visit go_on (false, s) = go_on s

unfoldable pub visit_all : (String → Search → Bool × Search) → List String → Search → Bool × Search
unfolding then_visit
visit_all visit [] s = (false, s)
visit_all visit (id ∷ ids) s = then_visit (visit_all visit ids) (visit id s)

unfoldable pub dfs : List SbiTask → ℕ → String → Search → Bool × Search
unfolding leave visit_all dependencies
dfs tasks zero id s = (false, s)
dfs tasks (suc depth) id s = elim (any (str_eq id) s.visiting) [
  | true ↦ (true, s)
  | false ↦ elim (any (str_eq id) s.visited) [
    | true ↦ (false, s)
    | false ↦ leave id (
        visit_all (dfs tasks depth) (dependencies tasks id)
          (record s { visiting = id ∷ s.visiting }))
  ]
]

-- The loop over the tasks that remain.
unfoldable pub search_from : List SbiTask → List SbiTask → Search → Search
unfolding dfs
search_from tasks [] s = s
search_from tasks (t ∷ rest) s = elim (any (str_eq t.id) s.visited) [
  | true ↦ search_from tasks rest s
  | false ↦ search_from tasks rest (dfs tasks (length tasks + 1) t.id s).1
]

unfoldable pub detect_cycles : List SbiTask → Search
unfolding search_from
detect_cycles tasks =
    search_from tasks tasks (record { visited = []; visiting = []; in_cycle = [] })

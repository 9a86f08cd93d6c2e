-- ===== src/Picker/Tasks.antt =====
-- internal/application/dto/sbi_task_dto.go and internal/application/service/task_picker_service.go:
-- tasks, the tests of the filter and the comparison of the sort. The time of a registration is an
-- instant and a location, which Go's `!=` compares as well, as a pointer.
use deespec.Base.{
  ℕ, String, Bool, true, false, not, ◌&&◌, List, [], ◌∷◌, any, str_eq, ltb, ◌==◌, length,
  if◌then◌else◌,
}
use deespec.Base.Int.{ℤ, leb_ℤ, ltb_ℤ}

pub record SbiTask : Type 0 where
  pub id : String
  pub priority : ℤ
  pub por : ℤ
  pub sequence : ℤ
  pub registered_at : ℕ
  pub location : ℕ
  pub depends_on : List String

unfoldable pub has_task_dependencies : SbiTask → Bool
has_task_dependencies t = ltb 0 (length t.depends_on)

-- `completed` are the keys of the map that are true.
unfoldable pub all_completed : List String → List String → Bool
all_completed completed [] = true
all_completed completed (dep ∷ deps) =
    let rest = all_completed completed deps in
    if not (any (str_eq dep) completed) then false else rest

unfoldable pub are_task_dependencies_met : List String → SbiTask → Bool
unfolding all_completed
are_task_dependencies_met completed t = all_completed completed t.depends_on

unfoldable pub task_exists : List SbiTask → String → Bool
task_exists tasks id = any (λ t. str_eq t.id id) tasks

-- `in_cycle` are the ids that detectCycles has marked.
unfoldable pub filter_ready_tasks : List String → List String → List SbiTask → List SbiTask
unfolding are_task_dependencies_met
filter_ready_tasks in_cycle completed [] = []
filter_ready_tasks in_cycle completed (t ∷ tasks) =
    let rest = filter_ready_tasks in_cycle completed tasks in
    if any (str_eq t.id) completed
    then rest
    else if any (str_eq t.id) in_cycle
    then rest
    else if not (are_task_dependencies_met completed t)
    then rest
    else t ∷ rest

abbrev pub eq_ℤ : ℤ → ℤ → Bool
eq_ℤ a b = leb_ℤ a b && leb_ℤ b a

-- The cases of the switch; another text does nothing.
pub data Criterion : Type 0 where
  by_por by_priority by_registered_at by_sequence by_id unknown : Criterion

unfoldable pub criterion_of : String → Criterion
criterion_of text =
    if str_eq text "por"
    then by_por
    else if str_eq text "priority"
    then by_priority
    else if str_eq text "registered_at"
    then by_registered_at
    else if str_eq text "sequence"
    then by_sequence
    else if str_eq text "id"
    then by_id
    else unknown

-- One round of the loop over the criteria, before it goes on with `rest`. `before` is Go's `<` on
-- texts.
unfoldable pub by_criterion : (String → String → Bool) → Criterion → SbiTask → SbiTask → Bool → Bool
by_criterion before by_por a b rest = if not (eq_ℤ a.por b.por) then ltb_ℤ a.por b.por else rest
by_criterion before by_priority a b rest =
    if not (eq_ℤ a.priority b.priority) then ltb_ℤ b.priority a.priority else rest
by_criterion before by_registered_at a b rest =
    if not (a.registered_at == b.registered_at && a.location == b.location)
    then ltb a.registered_at b.registered_at
    else rest
by_criterion before by_sequence a b rest =
    if not (eq_ℤ a.sequence b.sequence) then ltb_ℤ a.sequence b.sequence else rest
by_criterion before by_id a b rest = if not (str_eq a.id b.id) then before a.id b.id else rest
by_criterion before unknown a b rest = rest

-- The function that the sort is called with.
unfoldable pub comes_before : (String → String → Bool) → List String → SbiTask → SbiTask → Bool
unfolding by_criterion
comes_before before [] a b = false
comes_before before (criterion ∷ criteria) a b =
    by_criterion before (criterion_of criterion) a b (comes_before before criteria a b)

-- ===== src/Continuous/Manager.antt =====
-- internal/application/workflow/manager.go: the registration and the start of workflows. `is_enabled`
-- is IsEnabled of the runner with this name. The loops that have not returned stand by their names.
use deespec.Base.{
  ℕ, ◌+◌, ◌≡◌, String, Bool, true, false, not, ◌&&◌, ◌||◌, ◌<◌, str_eq, Option, some, none, List,
  [], ◌∷◌, Result, ok, err, if◌then◌else◌,
}
use deespec.Base.Dict.{Dict, lookup, insert}

-- The maps workflows (to descriptions), configs (to Enabled) and stats (to IsRunning).
pub record WorkflowManager : Type 0 where
  pub workflows : Dict String
  pub configs : Dict Bool
  pub running : Dict Bool
  pub loops : List String

-- `stats_missing` is a panic.
pub data ManagerError : Type 0 where
  already_registered workflow_not_found configuration_not_found workflow_disabled : ManagerError
  already_running stats_missing none_enabled : ManagerError

abbrev pub new_workflow_manager : WorkflowManager
new_workflow_manager = record { workflows = []; configs = []; running = []; loops = [] }

unfoldable pub register_workflow :
    String → String → Bool → WorkflowManager → Result ManagerError WorkflowManager
unfolding lookup insert
register_workflow name description enabled m = elim (lookup name m.workflows) [
  | some _ ↦ err already_registered
  | none ↦ ok (record m {
    workflows = insert name description m.workflows;
    configs = insert name enabled m.configs;
    running = insert name false m.running;
  })
]

-- The check of IsRunning, and the start of the loop.
unfoldable pub start_loop :
    String → Option Bool → WorkflowManager → Result ManagerError WorkflowManager
unfolding insert
start_loop name none m = err stats_missing
start_loop name (some true) m = err already_running
start_loop name (some false) m =
    ok (record m { running = insert name true m.running; loops = name ∷ m.loops })

module _ (is_enabled : String → Bool) where
  unfoldable pub run_workflow : String → WorkflowManager → Result ManagerError WorkflowManager
  unfolding start_loop lookup
  run_workflow name m = elim (lookup name m.workflows) [
    | none ↦ err workflow_not_found
    | some _ ↦ elim (lookup name m.configs) [
      | none ↦ err configuration_not_found
      | some enabled ↦
          if not enabled || not (is_enabled name)
          then err workflow_disabled
          else start_loop name (lookup name m.running) m
    ]
  ]

  abbrev pub is_startable : WorkflowManager → String → Bool
  unfolding lookup
  is_startable m name = elim (lookup name m.configs) [
    | none ↦ false
    | some enabled ↦ enabled && is_enabled name
  ]

  -- The names of the map in the order of its iteration, `names`.
  unfoldable pub get_enabled_workflows : List String → WorkflowManager → List String
  unfolding is_startable
  get_enabled_workflows [] m = []
  get_enabled_workflows (name ∷ names) m =
      let rest = get_enabled_workflows names m in if is_startable m name then name ∷ rest else rest

  -- The loop of RunAll, which only logs that a workflow does not start.
  unfoldable pub run_each : List String → WorkflowManager → WorkflowManager
  unfolding run_workflow
  run_each [] m = m
  run_each (name ∷ names) m = elim (run_workflow name m) [
    | err failure ↦ run_each names m
    | ok m' ↦ run_each names m'
  ]

  unfoldable pub run_all : List String → WorkflowManager → Result ManagerError WorkflowManager
  unfolding get_enabled_workflows run_each
  run_all names m = elim (get_enabled_workflows names m) [
    | [] ↦ err none_enabled
    | name ∷ rest ↦ ok (run_each (name ∷ rest) m)
  ]

unfoldable pub without_one : String → List String → List String
without_one name [] = []
without_one name (other ∷ names) =
    let rest = without_one name names in if str_eq name other then names else other ∷ rest

-- The deferred calls of a loop that returns.
unfoldable pub loop_ends : String → WorkflowManager → WorkflowManager
unfolding insert without_one
loop_ends name m = record m {
  running = insert name false m.running;
  loops = without_one name m.loops;
}

unfoldable pub count : String → List String → ℕ
count name [] = 0
count name (other ∷ names) =
    let rest = count name names in if str_eq name other then rest + 1 else rest

-- What happens to a manager, in any order: a registration, a start, a loop that returns.
pub data ManagerStep : WorkflowManager → WorkflowManager → Type 0 where
  registers :
      {m m' : WorkflowManager} (name description : String) (enabled : Bool)
      → register_workflow name description enabled m ≡ ok m'
      → ManagerStep m m'
  starts :
      {m m' : WorkflowManager} (is_enabled : String → Bool) (name : String)
      → run_workflow is_enabled name m ≡ ok m'
      → ManagerStep m m'
  ends :
      {m m' : WorkflowManager} (name : String)
      → 0 < count name m.loops
      → m' ≡ loop_ends name m
      → ManagerStep m m'

pub data ManagerSteps (m : WorkflowManager) : WorkflowManager → Type 0 where
  here : ManagerSteps m m
  next : {m' m'' : WorkflowManager} → ManagerSteps m m' → ManagerStep m' m'' → ManagerSteps m m''

-- ===== src/Continuous/Single.antt =====
-- A workflow has at most one loop at a time.
use deespec.Base.{
  ℕ, ◌-◌, ◌≡◌, ◌≢◌, refl, sym, subst, ◌≤◌, ◌<◌, String, Bool, true, false, not, ◌||◌, ◌⊎◌, str_eq,
  eq_iff, Option, some, none, List, [], ◌∷◌, Result, ok, err, Bool-cases, Option-cases,
  if◌then◌else◌, inl, inr, arith,
}
use deespec.Base.Dict.{lookup, insert, lookup-insert}
use deespec.Continuous.Manager.{
  WorkflowManager, ManagerError, workflow_not_found, workflow_disabled, already_running,
  new_workflow_manager, register_workflow, start_loop, run_workflow, without_one, loop_ends, count,
  ManagerStep, registers, starts, ends, ManagerSteps, here, next,
}

-- The loops that the statistics of a workflow stand for.
abbrev loops_of : Option Bool → ℕ
loops_of none = 0
loops_of (some true) = 1
loops_of (some false) = 0

loops_of-le : (found : Option Bool) → loops_of found ≤ 1
loops_of-le none = omega arith
loops_of-le (some true) = omega arith
loops_of-le (some false) = omega arith

record IsManaged (m : WorkflowManager) : Type 0 where
  configured : (name : String) → lookup name m.configs ≡ none → lookup name m.workflows ≡ none
  watched : (name : String) → lookup name m.running ≡ none → lookup name m.workflows ≡ none
  unstarted : (name : String) → lookup name m.workflows ≡ none → lookup name m.running ≡ none
  counted : (name : String) → count name m.loops ≡ loops_of (lookup name m.running)

new-IsManaged : IsManaged new_workflow_manager
unfolding count lookup
new-IsManaged = record {
  configured = λ name h. refl;
  watched = λ name h. refl;
  unstarted = λ name h. refl;
  counted = λ name. refl;
}

count-without_one :
    (name other : String) (names : List String)
    → count name (without_one other names)
      ≡ (if str_eq name other then count name names - 1 else count name names)
unfolding count without_one
count-without_one name other [] = ground arith
count-without_one name other (x ∷ names) =
    ground
      (arith, count-without_one name other names, eq_iff name other, eq_iff other x, eq_iff name x)

module _ (name : String) (m : WorkflowManager) (k : IsManaged m) where
  registered-IsManaged :
      (description : String) (enabled : Bool)
      → lookup name m.workflows ≡ none
      → IsManaged (record m {
        workflows = insert name description m.workflows;
        configs = insert name enabled m.configs;
        running = insert name false m.running;
      })
  registered-IsManaged description enabled free = record {
    configured = λ j h. ground (
      arith,
      lookup-insert name j description m.workflows,
      lookup-insert name j enabled m.configs,
      k.configured j,
    );
    watched = λ j h. ground (
      arith,
      lookup-insert name j description m.workflows,
      lookup-insert name j false m.running,
      k.watched j,
    );
    unstarted = λ j h. ground (
      arith,
      lookup-insert name j description m.workflows,
      lookup-insert name j false m.running,
      k.unstarted j,
    );
    counted = λ j. ground (
      arith,
      lookup-insert name j false m.running,
      k.counted j,
      k.unstarted j,
      eq_iff name j,
      free,
    );
  }

  -- A change of IsRunning for a workflow that has it, with the loops to match.
  changed-IsManaged :
      (old new : Bool) (loops : List String)
      → lookup name m.running ≡ some old
      → ((j : String)
          → count j loops ≡ (if str_eq name j then loops_of (some new) else count j m.loops))
      → IsManaged (record m { running = insert name new m.running; loops = loops })
  changed-IsManaged old new loops there counts = record {
    configured = k.configured;
    watched = λ j h. ground (arith, lookup-insert name j new m.running, k.watched j);
    unstarted = λ j h.
        ground (arith, lookup-insert name j new m.running, k.unstarted j, eq_iff name j, there);
    counted = λ j. ground (arith, lookup-insert name j new m.running, k.counted j, counts j);
  }

  started-IsManaged :
      lookup name m.running ≡ some false
      → IsManaged (record m { running = insert name true m.running; loops = name ∷ m.loops })
  unfolding count
  started-IsManaged there =
      changed-IsManaged false true (name ∷ m.loops) there
        (λ j. ground (arith, eq_iff name j, eq_iff j name, k.counted j, k.counted name, there))

  ended-IsManaged : 0 < count name m.loops → IsManaged (loop_ends name m)
  unfolding loop_ends
  ended-IsManaged live =
      let there : lookup name m.running ≡ some true = ground (arith, k.counted name) in
      changed-IsManaged true false (without_one name m.loops) there (λ j. ground (
        arith,
        count-without_one j name m.loops,
        eq_iff name j,
        eq_iff j name,
        k.counted name,
        there,
      ))

-- The results of a start, with the loops that the workflow has before and after it.
abbrev pub Runs :
    (String → Bool) → String → WorkflowManager → Result ManagerError WorkflowManager → Type 0
Runs is_enabled name m (ok m') =
    (lookup name m.running ≡ some false)
    × (count name m.loops ≡ 0)
    × (m' ≡ record m { running = insert name true m.running; loops = name ∷ m.loops })
Runs is_enabled name m (err workflow_not_found) = lookup name m.workflows ≡ none
Runs is_enabled name m (err workflow_disabled) =
    (lookup name m.configs ≡ some false) ⊎ (is_enabled name ≡ false)
Runs is_enabled name m (err already_running) = count name m.loops ≡ 1
Runs is_enabled name m (err _) = ⊥

module _ (is_enabled : String → Bool) (name : String) (m : WorkflowManager) (k : IsManaged m) where
  start_loop-Runs :
      (found : Option Bool)
      → lookup name m.running ≡ found
      → found ≢ none
      → Runs is_enabled name m (start_loop name found m)
  unfolding start_loop
  start_loop-Runs none e some_found = absurd (some_found refl)
  start_loop-Runs (some true) e some_found = ground (arith, k.counted name, e)
  start_loop-Runs (some false) e some_found = (e, ground (arith, k.counted name, e), refl)

  run_workflow-Runs : Runs is_enabled name m (run_workflow is_enabled name m)
  unfolding run_workflow
  run_workflow-Runs =
      let P = Runs is_enabled name m in
      let result = run_workflow is_enabled name m in
      elim (Option-cases (lookup name m.workflows)) [
        | inl missing ↦
            let same : result ≡ err workflow_not_found = simp (missing, run_workflow) in
            subst P (sym same) missing
        | inr (description, registered) ↦ elim (Option-cases (lookup name m.configs)) [
          | inl missing ↦ cc (registered, k.configured name missing)
          | inr (enabled, configured) ↦ elim (Bool-cases (not enabled || not (is_enabled name))) [
            | inl off ↦
                let same : result ≡ err workflow_disabled =
                  simp (registered, configured, off, run_workflow) in
                subst P (sym same) (ground (arith, configured, off))
            | inr on ↦
                let same : result ≡ start_loop name (lookup name m.running) m =
                  simp (registered, configured, on, run_workflow) in
                subst P (sym same) (
                  start_loop-Runs (lookup name m.running) refl
                    (λ none_found. cc (registered, k.watched name none_found)))
          ]
        ]
      ]

ok_injective :
    (a b : WorkflowManager) → ◌≡◌ {A = Result ManagerError WorkflowManager} (ok a) (ok b) → a ≡ b
ok_injective a b e = cc

ManagerStep-IsManaged : {m m' : WorkflowManager} → ManagerStep m m' → IsManaged m → IsManaged m'
unfolding register_workflow
ManagerStep-IsManaged {m} {m'} (registers name description enabled h) k =
    elim (Option-cases (lookup name m.workflows)) [
      | inl free ↦
          subst IsManaged (ok_injective _ _ (simp (free, register_workflow) at h))
            (registered-IsManaged name m k description enabled free)
      | inr (other, taken) ↦ cc (simp (taken, register_workflow) at h)
    ]
ManagerStep-IsManaged {m} {m'} (starts is_enabled name h) k =
    let (idle, _, same) =
      subst (Runs is_enabled name m) h (run_workflow-Runs is_enabled name m k) in
    subst IsManaged (sym same) (started-IsManaged name m k idle)
ManagerStep-IsManaged {m} {m'} (ends name live same) k =
    subst IsManaged (sym same) (ended-IsManaged name m k live)

ManagerSteps-IsManaged : {m m' : WorkflowManager} → IsManaged m → ManagerSteps m m' → IsManaged m'
ManagerSteps-IsManaged k here = k
ManagerSteps-IsManaged k (next steps step) =
    ManagerStep-IsManaged step (ManagerSteps-IsManaged k steps)

-- After any registrations, starts and ends of loops, a workflow has at most one loop. A start then
-- adds its first loop and changes nothing else; it fails only for a workflow that is not registered,
-- disabled, or has a loop. A configuration or statistics are never missing.
pub run_workflow-Runs_once :
    (m : WorkflowManager) (is_enabled : String → Bool) (name : String)
    → ManagerSteps new_workflow_manager m
    → (count name m.loops ≤ 1) × Runs is_enabled name m (run_workflow is_enabled name m)
run_workflow-Runs_once m is_enabled name steps =
    let k = ManagerSteps-IsManaged new-IsManaged steps in
    (
      subst (λ n. n ≤ 1) (sym (k.counted name)) (loops_of-le (lookup name m.running)),
      run_workflow-Runs is_enabled name m k,
    )

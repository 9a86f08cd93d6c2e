-- ===== src/Parallel/Runner.antt =====
-- internal/interface/cli/workflow_sbi/parallel_runner.go: a batch of SBIs that run at the same time.
-- A goroutine is a worker of the batch. What a turn does between its start and its exit, and the
-- lock it takes, do not touch the state of the batch; log messages are left out.
use deespec.Base.{
  ℕ, ◌≡◌, ◌<◌, ◌+◌, ◌*◌, String, Bool, true, false, not, Option, none, some, List, [], ◌∷◌, length,
  Result, ok, err, any, str_eq, leb, if◌then◌else◌,
}
use deespec.Base.Int.{ℤ, pos, ltb_ℤ, pos_part}
use deespec.Base.Dict.{lookup, insert, delete}
use deespec.Model.Status
use deespec.Model.Status.{Status}
use deespec.Model.Sbi.{Sbi}
use deespec.Parallel.AgentPool.{AgentPool, get_current, get_max, try_acquire, release}
use deespec.Parallel.ConflictDetector.{
  ConflictDetector, any_taken, has_conflict, register, register_paths, unregister, unregister_paths,
}

-- The number of SBIs at a time: at least 1 and at most 10.
unfoldable pub new_max_parallel : ℤ → ℕ
new_max_parallel max_parallel =
    if ltb_ℤ max_parallel (pos 1)
    then 1
    else if ltb_ℤ (pos 10) max_parallel
    then 10
    else pos_part max_parallel

-- `deps` is what GetDependencies returns for the candidate.
unfoldable pub are_dependencies_met : List String → Result String (List String) → Bool
are_dependencies_met completed (err e) = true
are_dependencies_met completed (ok []) = true
are_dependencies_met completed (ok (dep ∷ deps)) =
    let rest = are_dependencies_met completed (ok deps) in
    if not (any (str_eq dep) completed) then false else rest

-- Whether the loop of `fetchExecutableSBIsAlt` appends the candidate.
unfoldable pub executable : (Sbi → Result String (List String)) → List String → Sbi → Bool
unfolding Status.same are_dependencies_met
executable get_dependencies completed candidate =
    if not (Status.same candidate.status Status.pending)
    then true
    else are_dependencies_met completed (get_dependencies candidate)

-- That loop over the candidates; `taken` is the length of the result so far.
unfoldable pub take_executable :
    (Sbi → Result String (List String)) → List String → ℕ → ℕ → List Sbi → List Sbi
unfolding executable
take_executable get_dependencies completed limit taken [] = []
take_executable get_dependencies completed limit taken (candidate ∷ candidates) =
    let next = take_executable get_dependencies completed limit (taken + 1) candidates in
    let skip = take_executable get_dependencies completed limit taken candidates in
    if executable get_dependencies completed candidate
    then candidate ∷ (if leb limit (taken + 1) then [] else next)
    else skip

pub record SbiFilter : Type 0 where
  pub statuses : List Status
  pub limit : ℕ

abbrev pub ids_of : List Sbi → List String
ids_of [] = []
ids_of (s ∷ rest) = s.id ∷ ids_of rest

-- The repository's List and GetDependencies; they only read.
unfoldable pub fetch_executable_sbis_alt :
    (SbiFilter → Result String (List Sbi))
    → (Sbi → Result String (List String))
    → ℕ
    → Result String (List Sbi)
fetch_executable_sbis_alt list get_dependencies limit =
    elim (list (record { statuses = Status.done ∷ []; limit = 1000 })) [
      | err e ↦ err e
      | ok completed ↦
          elim (list (record {
            statuses = Status.pending ∷ Status.picked ∷ Status.implementing ∷ Status.reviewing ∷ [];
            limit = limit * 3;
          })) [
            | err e ↦ err e
            | ok candidates ↦
                ok (take_executable get_dependencies (ids_of completed) limit 0 candidates)
          ]
    ]

-- A goroutine: it holds a slot of the pool until its deferred Release.
pub record Worker : Type 0 where
  pub sbi : Sbi
  pub holds_slot : Bool

pub record Batch : Type 0 where
  pub detector : ConflictDetector
  pub pool : Option AgentPool
  pub queue : List Sbi
  pub workers : List Worker

-- The body of the loop for the next SBI, and whether it started a worker. The source waits for the
-- semaphore after TryAcquire and Register; here these and the start are one step, which the limit
-- guards. Meanwhile only workers go on, and they give back.
unfoldable pub consider : Batch → Sbi → List Sbi → Batch × Bool
unfolding has_conflict try_acquire register
consider b s rest =
    if has_conflict b.detector s then (record b { queue = rest }, false) else elim b.pool [
      | none ↦ (
        record b {
          detector = register b.detector s;
          queue = rest;
          workers = (record { sbi = s; holds_slot = false }) ∷ b.workers;
        },
        true,
      )
      | some pool ↦
          let (pool', acquired) = try_acquire pool s.metadata.assigned_agent in
          if not acquired then (record b { queue = rest }, false) else (
            record b {
              detector = register b.detector s;
              pool = some pool';
              queue = rest;
              workers = (record { sbi = s; holds_slot = true }) ∷ b.workers;
            },
            true,
          )
    ]

-- The deferred calls of a worker `w`, where `rest` are the other workers: its slot goes back first.
unfoldable pub release_slot : Batch → Worker → List Worker → Batch
unfolding release
release_slot b w rest = record b {
  pool = elim b.pool [
    | none ↦ none
    | some pool ↦ some (release pool w.sbi.metadata.assigned_agent)
  ];
  workers = (record w { holds_slot = false }) ∷ rest;
}

unfoldable pub exit_worker : Batch → Worker → List Worker → Batch
unfolding unregister
exit_worker b w rest = record b { detector = unregister b.detector w.sbi; workers = rest }

-- `w` is an element of the list, and the others are `rest`.
pub data Picks : Worker → List Worker → List Worker → Type 0 where
  here : {w : Worker} {ws : List Worker} → Picks w (w ∷ ws) ws
  there : {w x : Worker} {ws rest : List Worker} → Picks w ws rest → Picks w (x ∷ ws) (x ∷ rest)

-- The threads in any order. The semaphore lets a worker start below the limit.
infix 40 ◌⊢◌⟶◌
pub data ◌⊢◌⟶◌ : ℕ → Batch → Batch → Type 0 where
  skipped :
      {max : ℕ} {b : Batch} {s : Sbi} {rest : List Sbi}
      → b.queue ≡ s ∷ rest
      → (consider b s rest).1 ≡ false
      → max ⊢ b ⟶ (consider b s rest).0
  started :
      {max : ℕ} {b : Batch} {s : Sbi} {rest : List Sbi}
      → b.queue ≡ s ∷ rest
      → (consider b s rest).1 ≡ true
      → length b.workers < max
      → max ⊢ b ⟶ (consider b s rest).0
  released :
      {max : ℕ} {b : Batch} {w : Worker} {rest : List Worker}
      → Picks w b.workers rest
      → w.holds_slot ≡ true
      → max ⊢ b ⟶ release_slot b w rest
  exited :
      {max : ℕ} {b : Batch} {w : Worker} {rest : List Worker}
      → Picks w b.workers rest
      → w.holds_slot ≡ false
      → max ⊢ b ⟶ exit_worker b w rest

-- To run a batch by evaluation, name this on the `unfolding` line.
unfoldable pub whole_batch : Unit {0}
unfolding consider release_slot exit_worker lookup insert delete get_current get_max any_taken
    register_paths unregister_paths
whole_batch = tt

-- ===== src/Parallel/Ends.antt =====
-- How a batch ends.
use deespec.Base.{
  ℕ, zero, suc, ◌≡◌, subst, ◌+◌, ◌*◌, ◌≤◌, ◌<◌, inl, inr, String, Option, none, some, List, [],
  length, arith, Option-cases,
}
use deespec.Base.Dict.{lookup}
use deespec.Model.Sbi.{Sbi}
use deespec.Parallel.AgentPool.{AgentPool}
use deespec.Parallel.ConflictDetector.{new_conflict_detector}
use deespec.Parallel.Runner.{Batch}
use deespec.Parallel.Slots.{Fits}
use deespec.Parallel.Safety.{Inv}
use deespec.Parallel.Taken.{Covered, ⟶-Covered}
use deespec.Parallel.Outcomes.{
  ◌⊢◌⟶*◌, ended, goes, AllDistinct, Idle, new_batch, new_batch-Inv, ⟶*-Inv, work, step_lowers_work,
  batch_goes_on,
}

-- No SBI waits, no worker runs, no agent's slot is taken, and no file.
abbrev pub AtRest : Batch → Type 0
AtRest b =
    (b.queue ≡ [])
    × (b.workers ≡ [])
    × Idle b.pool
    × ((path : String) → lookup path b.detector.active_files ≡ none)

-- The number of steps of a run.
abbrev pub steps : {max : ℕ} {b c : Batch} → max ⊢ b ⟶* c → ℕ
steps ended = 0
steps (goes step more) = steps more + 1

⟶*-trans : {max : ℕ} {b c d : Batch} → max ⊢ b ⟶* c → max ⊢ c ⟶* d → max ⊢ b ⟶* d
⟶*-trans ended more = more
⟶*-trans (goes step run) more = goes step (⟶*-trans run more)

⟶*-Covered :
    (max : ℕ) (b c : Batch)
    → max ⊢ b ⟶* c
    → Covered b.detector.active_files b.workers
    → Covered c.detector.active_files c.workers
⟶*-Covered max b _ ended covered = covered
⟶*-Covered max b d (goes {c = c} step run) covered =
    ⟶*-Covered max c d run (⟶-Covered max b c step covered)

steps-work : (max : ℕ) (b c : Batch) (run : max ⊢ b ⟶* c) → steps run + work c ≤ work b
steps-work max b _ ended = omega arith
steps-work max b d (goes {c = c} step run) =
    omega (arith, steps-work max c d run, step_lowers_work max b c step)

new_batch-Covered :
    (pool : Option AgentPool) (sbis : List Sbi)
    → Covered (new_batch pool sbis).detector.active_files (new_batch pool sbis).workers
unfolding new_batch new_conflict_detector lookup
new_batch-Covered pool sbis = λ path owner taken. cc

new_batch-work :
    (pool : Option AgentPool) (sbis : List Sbi) → work (new_batch pool sbis) ≡ length sbis * 3
unfolding work new_batch
new_batch-work pool sbis = omega arith

run_to_end :
    (max n : ℕ) (b : Batch)
    → 0 < max
    → work b ≤ n
    → (b' : Batch) × (max ⊢ b ⟶* b') × (b'.queue ≡ []) × (b'.workers ≡ [])
run_to_end max zero b room bound = elim (batch_goes_on max b room) [
  | inl (queue, workers) ↦ (b, ended, queue, workers)
  | inr (b', step) ↦ absurd (omega (arith, step_lowers_work max b b' step))
]
run_to_end max (suc n) b room bound = elim (batch_goes_on max b room) [
  | inl (queue, workers) ↦ (b, ended, queue, workers)
  | inr (b', step) ↦
      let (c, run, queue, workers) =
        run_to_end max n b' room (omega (arith, step_lowers_work max b b' step)) in
      (c, goes step run, queue, workers)
]

Fits-Idle : (pool : Option AgentPool) → Fits pool [] → Idle pool
Fits-Idle none fits = tt
Fits-Idle (some p) fits = λ agent. (fits agent).0

Inv-AtRest :
    (max : ℕ) (b : Batch)
    → Inv max b
    → Covered b.detector.active_files b.workers
    → b.queue ≡ []
    → b.workers ≡ []
    → AtRest b
Inv-AtRest max b inv covered queue workers =
    let uncovered = subst (Covered b.detector.active_files) workers covered in
    (
      queue,
      workers,
      Fits-Idle b.pool (subst (Fits b.pool) workers inv.fits),
      λ path. elim (Option-cases (lookup path b.detector.active_files)) [
        | inl free ↦ free
        | inr (owner, taken) ↦ absurd (uncovered path owner taken)
      ],
    )

-- A batch of different SBIs that starts with an idle pool and may run at least one at a time takes at
-- most three steps for each SBI, in any interleaving; and from every state that it reaches it can go
-- on to an end in which no SBI waits, no worker runs, every agent's count is 0 and no file is taken.
pub batch_ends-AtRest :
    (max : ℕ) (pool : Option AgentPool) (sbis : List Sbi) (b : Batch)
    → 0 < max
    → AllDistinct sbis
    → Idle pool
    → (run : max ⊢ new_batch pool sbis ⟶* b)
    → (steps run ≤ length sbis * 3) × ((b' : Batch) × (max ⊢ b ⟶* b') × AtRest b')
batch_ends-AtRest max pool sbis b room distinct idle run =
    let start : Batch = new_batch pool sbis in
    let (b', more, queue, workers) = run_to_end max (work b) b room (omega arith) in
    let whole = ⟶*-trans run more in
    (
      omega (arith, steps-work max start b run, new_batch-work pool sbis),
      (
        b',
        more,
        Inv-AtRest max b' (⟶*-Inv max start b' whole (new_batch-Inv max pool sbis distinct idle))
            (⟶*-Covered max start b' whole (new_batch-Covered pool sbis)) queue workers,
      ),
    )

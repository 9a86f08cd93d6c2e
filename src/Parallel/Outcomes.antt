-- ===== src/Parallel/Outcomes.antt =====
-- What a batch guarantees from its start to its end.
use deespec.Base.{
  ℕ, ◌≡◌, ◌≢◌, refl, sym, subst, ◌+◌, ◌*◌, ◌≤◌, ◌<◌, ◌⊎◌, inl, inr, String, false, Option, none,
  some, List, [], ◌∷◌, length, arith, Bool-cases, if◌then◌else◌,
}
use deespec.Base.Int.{pos_part}
use deespec.Model.Sbi.{Sbi}
use deespec.Parallel.AgentPool.{AgentPool, get_current, get_max}
use deespec.Parallel.ConflictDetector.{new_conflict_detector}
use deespec.Parallel.Runner.{
  Batch, Worker, Picks, here, there, ◌⊢◌⟶◌, skipped, started, released, exited, consider,
  release_slot, exit_worker,
}
use deespec.Parallel.Files.{shares, Owns-disjoint}
use deespec.Parallel.Slots.{slots, Fits}
use deespec.Parallel.Workers.{NotAmong, Waiting, Picks-Owned, Picks-Distinct, Picks-Apart}
use deespec.Parallel.Safety.{Inv, ⟶-Inv, consider-skipped, consider-started}

infix 40 ◌⊢◌⟶*◌
pub data ◌⊢◌⟶*◌ : ℕ → Batch → Batch → Type 0 where
  ended : {max : ℕ} {b : Batch} → max ⊢ b ⟶* b
  goes : {max : ℕ} {b c d : Batch} → max ⊢ b ⟶ c → max ⊢ c ⟶* d → max ⊢ b ⟶* d

-- The listed SBIs differ.
abbrev pub AllDistinct : List Sbi → Type 0
AllDistinct [] = Unit
AllDistinct (s ∷ rest) = NotAmong s.id rest × AllDistinct rest

-- No slot of the pool is taken.
abbrev pub Idle : Option AgentPool → Type 0
Idle none = Unit
Idle (some p) = (agent : String) → get_current p agent ≡ 0

-- The state in which `Run` enters its loop.
unfoldable pub new_batch : Option AgentPool → List Sbi → Batch
unfolding new_conflict_detector
new_batch pool sbis = record {
  detector = new_conflict_detector;
  pool = pool;
  queue = sbis;
  workers = [];
}

AllDistinct-Waiting : (sbis : List Sbi) → AllDistinct sbis → Waiting [] sbis
AllDistinct-Waiting [] d = tt
AllDistinct-Waiting (s ∷ rest) (among, d) = (tt, among, AllDistinct-Waiting rest d)

Idle-Fits : (pool : Option AgentPool) → Idle pool → Fits pool []
Idle-Fits none idle = tt
Idle-Fits (some p) idle = λ agent. (idle agent, omega (arith, idle agent))

pub new_batch-Inv :
    (max : ℕ) (pool : Option AgentPool) (sbis : List Sbi)
    → AllDistinct sbis
    → Idle pool
    → Inv max (new_batch pool sbis)
unfolding new_batch
new_batch-Inv max pool sbis d idle = record {
  owned = tt;
  distinct = tt;
  waiting = AllDistinct-Waiting sbis d;
  fits = Idle-Fits pool idle;
  bounded = omega arith;
}

pub ⟶*-Inv : (max : ℕ) (b c : Batch) → max ⊢ b ⟶* c → Inv max b → Inv max c
⟶*-Inv max b _ ended inv = inv
⟶*-Inv max b d (goes {c = c} step steps) inv = ⟶*-Inv max c d steps (⟶-Inv max b c step inv)

emptied :
    (ws : List Worker) (agent : String) (count : ℕ)
    → count ≡ slots agent ws
    → (ws ≢ []) ⊎ (count ≡ 0)
emptied [] agent count e = inr e
emptied (w ∷ ws) agent count e = inl (λ e'. cc)

module _ (max : ℕ) (pool : Option AgentPool) (sbis : List Sbi) (distinct : AllDistinct sbis)
    (idle : Idle pool) (b : Batch) (run : max ⊢ new_batch pool sbis ⟶* b) where
  reached-Inv : Inv max b
  reached-Inv = ⟶*-Inv max (new_batch pool sbis) b run (new_batch-Inv max pool sbis distinct idle)

  -- In a batch of different SBIs, two workers never have a file in common, in any interleaving.
  pub workers_share_no_file :
      (w v : Worker) (rest others : List Worker)
      → Picks w b.workers rest
      → Picks v rest others
      → shares w.sbi.metadata.file_paths v.sbi.metadata.file_paths ≡ false
  workers_share_no_file w v rest others p q =
      let (own, owned) = Picks-Owned b.detector.active_files p reached-Inv.owned in
      let (own', _) = Picks-Owned b.detector.active_files q owned in
      let (apart, _) = Picks-Distinct p reached-Inv.distinct in
      let (different, _) = Picks-Apart w.sbi.id q apart in
      Owns-disjoint b.detector.active_files w.sbi.id v.sbi.id _ _ different own own'

  -- In a batch that starts with an idle pool, the pool's count of an agent is the number of workers
  -- that hold one of its slots, it stays within the agent's limit, and it is 0 when all have exited;
  -- and there are never more workers than the batch may run at a time.
  pub slots_within_limits :
      (p : AgentPool) (agent : String)
      → b.pool ≡ some p
      → (get_current p agent ≡ slots agent b.workers)
        × (slots agent b.workers ≤ pos_part (get_max p agent))
        × (length b.workers ≤ max)
        × ((b.workers ≢ []) ⊎ (get_current p agent ≡ 0))
  slots_within_limits p agent e =
      let fits = subst (λ o. Fits o b.workers) e reached-Inv.fits in
      let (count, limit) = fits agent in
      (count, omega arith, reached-Inv.bounded, emptied b.workers agent (get_current p agent) count)

-- The steps that are left: three for a waiting SBI, two for a worker with a slot, one without.
abbrev worker_work : List Worker → ℕ
worker_work [] = 0
worker_work (w ∷ ws) = (if w.holds_slot then 2 else 1) + worker_work ws

unfoldable pub work : Batch → ℕ
work b = length b.queue * 3 + worker_work b.workers

Picks-worker_work :
    {w : Worker} {ws rest : List Worker}
    → Picks w ws rest
    → worker_work ws ≡ (if w.holds_slot then 2 else 1) + worker_work rest
Picks-worker_work here = refl
Picks-worker_work (there p) = omega (arith, Picks-worker_work p)

-- Every step of a batch lowers the number of steps that are left, so a batch ends.
pub step_lowers_work : (max : ℕ) (b b' : Batch) → max ⊢ b ⟶ b' → work b' < work b
unfolding work release_slot exit_worker
step_lowers_work max b _ (skipped {s = s} {rest = rest} next blocked) =
    rw (consider-skipped b s rest blocked, next) (omega arith)
step_lowers_work max b _ (started {s = s} {rest = rest} next go below) =
    let (free, branch) = consider-started b s rest go in
    elim branch [
      | inl (e, shape) ↦ rw (shape, next) (omega arith)
      | inr (p, e, acquired, shape) ↦ rw (shape, next) (omega arith)
    ]
step_lowers_work max b _ (released {w = w} {rest = rest} p holds) =
    ground (arith, Picks-worker_work p)
step_lowers_work max b _ (exited {w = w} {rest = rest} p holds) =
    ground (arith, Picks-worker_work p)

next_step :
    (max : ℕ) (b : Batch) (queue : List Sbi) (workers : List Worker)
    → 0 < max
    → b.queue ≡ queue
    → b.workers ≡ workers
    → ((queue ≡ []) × (workers ≡ [])) ⊎ ((b' : Batch) × (max ⊢ b ⟶ b'))
next_step max b [] [] room q w = inl (refl, refl)
next_step max b (s ∷ rest) [] room q w = elim (Bool-cases (consider b s rest).1) [
  | inl go ↦ inr ((consider b s rest).0, started q go (rw w room))
  | inr blocked ↦ inr ((consider b s rest).0, skipped q blocked)
]
next_step max b queue (w ∷ ws) room q e = elim (Bool-cases w.holds_slot) [
  | inl holds ↦ inr (release_slot b w ws, released (subst (λ l. Picks w l ws) (sym e) here) holds)
  | inr holds ↦ inr (exit_worker b w ws, exited (subst (λ l. Picks w l ws) (sym e) here) holds)
]

-- A batch never gets stuck: either no SBI waits and no worker runs, or a thread can go on.
pub batch_goes_on :
    (max : ℕ) (b : Batch)
    → 0 < max
    → (b.queue ≡ []) × (b.workers ≡ []) ⊎ ((b' : Batch) × (max ⊢ b ⟶ b'))
batch_goes_on max b room = next_step max b b.queue b.workers room refl refl

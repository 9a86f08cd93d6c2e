-- ===== src/Parallel/Safety.antt =====
-- What holds in every state of a batch, whatever the order of its threads.
use deespec.Base.{
  ℕ, ◌≡◌, subst, ◌≤◌, ◌<◌, ◌⊎◌, inl, inr, Bool, true, false, Option, none, some, List, ◌∷◌, length,
  arith, Bool-cases, Option-cases,
}
use deespec.Model.Sbi.{Sbi}
use deespec.Parallel.AgentPool.{AgentPool, try_acquire}
use deespec.Parallel.ConflictDetector.{has_conflict, register, unregister, any_taken}
use deespec.Parallel.Runner.{
  Batch, Worker, Picks, ◌⊢◌⟶◌, skipped, started, released, exited, consider, release_slot,
  exit_worker,
}
use deespec.Parallel.Files.{register_paths-Owns}
use deespec.Parallel.Slots.{Fits, try_acquire-Fits, release-Fits, exit-Fits}
use deespec.Parallel.Workers.{
  Owned, Distinct, Waiting, Owned-register, Owned-unregister, Picks-Owned, Picks-Distinct,
  Picks-Waiting, Picks-length, Waiting-join, Waiting-same,
}

pub record Inv (max : ℕ) (b : Batch) : Type 0 where
  pub owned : Owned b.detector.active_files b.workers
  pub distinct : Distinct b.workers
  pub waiting : Waiting b.workers b.queue
  pub fits : Fits b.pool b.workers
  pub bounded : length b.workers ≤ max

-- The two results of the loop's body.
pub consider-skipped :
    (b : Batch) (s : Sbi) (rest : List Sbi)
    → (consider b s rest).1 ≡ false
    → (consider b s rest).0 ≡ record b { queue = rest }
unfolding consider
consider-skipped b s rest h = ground arith

pub consider-started :
    (b : Batch) (s : Sbi) (rest : List Sbi)
    → (consider b s rest).1 ≡ true
    → (any_taken b.detector.active_files s.id s.metadata.file_paths ≡ false)
      × ((b.pool ≡ none)
            × ((consider b s rest).0 ≡ record b {
              detector = register b.detector s;
              queue = rest;
              workers = (record { sbi = s; holds_slot = false }) ∷ b.workers;
            })
          ⊎ ((p : AgentPool) × (b.pool ≡ some p)
              × ((try_acquire p s.metadata.assigned_agent).1 ≡ true)
              × ((consider b s rest).0 ≡ record b {
                detector = register b.detector s;
                pool = some (try_acquire p s.metadata.assigned_agent).0;
                queue = rest;
                workers = (record { sbi = s; holds_slot = true }) ∷ b.workers;
              })))
unfolding consider has_conflict
consider-started b s rest h =
    elim (Bool-cases (any_taken b.detector.active_files s.id s.metadata.file_paths)) [
      | inl conflict ↦ cc (simp (conflict, consider, has_conflict) at h)
      | inr free ↦ elim (Option-cases b.pool) [
        | inl e ↦ (free, inl (e, simp (free, e, consider, has_conflict)))
        | inr (p, e) ↦ elim (Bool-cases (try_acquire p s.metadata.assigned_agent).1) [
          | inl acquired ↦
              (free, inr (p, e, acquired, simp (free, e, acquired, consider, has_conflict)))
          | inr full ↦ cc (simp (free, e, full, consider, has_conflict) at h)
        ]
      ]
    ]

join-Inv :
    (max : ℕ) (b : Batch) (s : Sbi) (rest : List Sbi) (holds : Bool) (pool : Option AgentPool)
    → b.queue ≡ s ∷ rest
    → length b.workers < max
    → any_taken b.detector.active_files s.id s.metadata.file_paths ≡ false
    → Fits pool ((record { sbi = s; holds_slot = holds }) ∷ b.workers)
    → Inv max b
    → Inv max (record b {
      detector = register b.detector s;
      pool = pool;
      queue = rest;
      workers = (record { sbi = s; holds_slot = holds }) ∷ b.workers;
    })
unfolding register
join-Inv max b s rest holds pool next below free fits inv =
    let waiting : Waiting b.workers (s ∷ rest) =
      subst (λ q. Waiting b.workers q) next inv.waiting in
    let (apart, among, others) = waiting in
    record {
      owned = (
        register_paths-Owns b.detector.active_files s.id s.metadata.file_paths,
        Owned-register b.detector.active_files s b.workers free inv.owned,
      );
      distinct = (apart, inv.distinct);
      waiting = Waiting-join rest (record { sbi = s; holds_slot = holds }) b.workers among others;
      fits = fits;
      bounded = omega arith;
    }

skip-Inv :
    (max : ℕ) (b : Batch) (s : Sbi) (rest : List Sbi)
    → b.queue ≡ s ∷ rest
    → Inv max b
    → Inv max (record b { queue = rest })
skip-Inv max b s rest next inv =
    let waiting : Waiting b.workers (s ∷ rest) =
      subst (λ q. Waiting b.workers q) next inv.waiting in
    let (_, _, others) = waiting in
    record {
      owned = inv.owned;
      distinct = inv.distinct;
      waiting = others;
      fits = inv.fits;
      bounded = inv.bounded;
    }

release_slot-Inv :
    (max : ℕ) (b : Batch) (w : Worker) (rest : List Worker)
    → Picks w b.workers rest
    → w.holds_slot ≡ true
    → Inv max b
    → Inv max (release_slot b w rest)
unfolding release_slot
release_slot-Inv max b w rest p holds inv =
    let (own, others) = Picks-Owned b.detector.active_files p inv.owned in
    record {
      owned = (own, others);
      distinct = Picks-Distinct p inv.distinct;
      waiting = Waiting-same b.queue w false p inv.waiting;
      fits = elim (Option-cases b.pool) [
        | inl e ↦ rw e tt
        | inr (pool, e) ↦
            rw e (release-Fits pool p holds (subst (λ o. Fits o b.workers) e inv.fits))
      ];
      bounded = omega (arith, Picks-length p, inv.bounded);
    }

exit_worker-Inv :
    (max : ℕ) (b : Batch) (w : Worker) (rest : List Worker)
    → Picks w b.workers rest
    → w.holds_slot ≡ false
    → Inv max b
    → Inv max (exit_worker b w rest)
unfolding exit_worker unregister
exit_worker-Inv max b w rest p holds inv =
    let (own, others) = Picks-Owned b.detector.active_files p inv.owned in
    let (apart, distinct) = Picks-Distinct p inv.distinct in
    record {
      owned = Owned-unregister b.detector.active_files w.sbi rest apart others;
      distinct = distinct;
      waiting = Picks-Waiting b.queue p inv.waiting;
      fits = exit-Fits b.pool p holds inv.fits;
      bounded = omega (arith, Picks-length p, inv.bounded);
    }

-- Every step of a thread keeps the invariant.
pub ⟶-Inv : (max : ℕ) (b b' : Batch) → max ⊢ b ⟶ b' → Inv max b → Inv max b'
⟶-Inv max b _ (skipped {s = s} {rest = rest} next blocked) inv =
    rw (consider-skipped b s rest blocked) (skip-Inv max b s rest next inv)
⟶-Inv max b _ (started {s = s} {rest = rest} next go below) inv =
    let (free, branch) = consider-started b s rest go in
    elim branch [
      | inl (e, shape) ↦ rw shape (rw e (join-Inv max b s rest false none next below free tt inv))
      | inr (p, e, acquired, shape) ↦ rw shape (
          join-Inv max b s rest true (some (try_acquire p s.metadata.assigned_agent).0) next below
            free
            (try_acquire-Fits p s b.workers acquired (subst (λ o. Fits o b.workers) e inv.fits))
            inv)
    ]
⟶-Inv max b _ (released {w = w} {rest = rest} p holds) inv =
    release_slot-Inv max b w rest p holds inv
⟶-Inv max b _ (exited {w = w} {rest = rest} p holds) inv = exit_worker-Inv max b w rest p holds inv

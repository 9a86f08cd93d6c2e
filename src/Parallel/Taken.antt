-- ===== src/Parallel/Taken.antt =====
-- Every file that is taken belongs to a worker of the batch.
use deespec.Base.{
  ℕ, ◌≡◌, refl, ◌⊎◌, inl, inr, String, Bool, true, false, some, List, [], ◌∷◌, any, str_eq, eq_iff,
  arith,
}
use deespec.Base.Dict.{Dict, lookup, insert, lookup-insert, lookup-delete}
use deespec.Model.Sbi.{Sbi}
use deespec.Parallel.ConflictDetector.{
  register, register_paths, unregister, unregister_path, unregister_paths,
}
use deespec.Parallel.Runner.{
  Batch, Worker, Picks, here, there, ◌⊢◌⟶◌, skipped, started, released, exited, release_slot,
  exit_worker,
}
use deespec.Parallel.Safety.{consider-skipped, consider-started}

abbrev Has : String → List String → Type 0
Has path paths = any (str_eq path) paths ≡ true

-- After a registration a file is taken as before, or by the SBI, and then it is one of its files.
register_paths-lookup :
    (active : Dict String) (id : String) (paths : List String) (path owner : String)
    → lookup path (register_paths active id paths) ≡ some owner
    → (lookup path active ≡ some owner) ⊎ ((str_eq owner id ≡ true) × Has path paths)
unfolding register_paths
register_paths-lookup active id [] path owner h = inl h
register_paths-lookup active id (p ∷ paths) path owner h = ground (
  arith,
  register_paths-lookup (insert p id active) id paths path owner h,
  lookup-insert p path id active,
  eq_iff p path,
  eq_iff path p,
  eq_iff owner id,
)

unregister_path-lookup :
    (active : Dict String) (id p path owner : String)
    → lookup path (unregister_path active id p) ≡ some owner
    → (lookup path active ≡ some owner) × ((str_eq owner id ≡ false) ⊎ (str_eq path p ≡ false))
unfolding unregister_path
unregister_path-lookup active id p path owner h =
    ground (arith, lookup-delete p path active, eq_iff p path, eq_iff path p, eq_iff owner id)

-- What is taken after an unregistration was taken before, by another SBI or outside its files.
unregister_paths-lookup :
    (active : Dict String) (id : String) (paths : List String) (path owner : String)
    → lookup path (unregister_paths active id paths) ≡ some owner
    → (lookup path active ≡ some owner)
      × ((str_eq owner id ≡ false) ⊎ (any (str_eq path) paths ≡ false))
unfolding unregister_paths
unregister_paths-lookup active id [] path owner h = (h, inr refl)
unregister_paths-lookup active id (p ∷ paths) path owner h =
    let (earlier, apart) =
      unregister_paths-lookup (unregister_path active id p) id paths path owner h in
    let (before, other) = unregister_path-lookup active id p path owner earlier in
    ground (arith, before, apart, other)

-- A worker with this id has the file.
abbrev Held : String → String → List Worker → Type 0
Held path owner [] = ⊥
Held path owner (w ∷ ws) =
    ((str_eq owner w.sbi.id ≡ true) × Has path w.sbi.metadata.file_paths) ⊎ Held path owner ws

Picks-Held :
    (path owner : String) {w : Worker} {ws rest : List Worker}
    → Picks w ws rest
    → Held path owner ws
    → Held path owner (w ∷ rest)
Picks-Held path owner here h = h
Picks-Held path owner (there p) (inl first) = inr (inl first)
Picks-Held path owner (there p) (inr later) = elim (Picks-Held path owner p later) [
  | inl picked ↦ inl picked
  | inr others ↦ inr (inr others)
]

abbrev pub Covered : Dict String → List Worker → Type 0
Covered active ws = (path owner : String) → lookup path active ≡ some owner → Held path owner ws

register-Covered :
    (active : Dict String) (s : Sbi) (holds : Bool) (ws : List Worker)
    → Covered active ws
    → Covered
        (register_paths active s.id s.metadata.file_paths)
        ((record { sbi = s; holds_slot = holds }) ∷ ws)
register-Covered active s holds ws covered = λ path owner taken.
    elim (register_paths-lookup active s.id s.metadata.file_paths path owner taken) [
      | inl before ↦ inr (covered path owner before)
      | inr own ↦ inl own
    ]

unregister-Covered :
    (active : Dict String) {w : Worker} {ws rest : List Worker}
    → Picks w ws rest
    → Covered active ws
    → Covered (unregister_paths active w.sbi.id w.sbi.metadata.file_paths) rest
unregister-Covered active {w} p covered = λ path owner taken.
    let (before, apart) =
      unregister_paths-lookup active w.sbi.id w.sbi.metadata.file_paths path owner taken in
    elim (Picks-Held path owner p (covered path owner before)) [
      | inl (same, has) ↦ absurd (elim apart [ inl other ↦ cc | inr lacks ↦ cc ])
      | inr others ↦ others
    ]

-- Every step of a thread keeps this.
pub ⟶-Covered :
    (max : ℕ) (b b' : Batch)
    → max ⊢ b ⟶ b'
    → Covered b.detector.active_files b.workers
    → Covered b'.detector.active_files b'.workers
unfolding register unregister release_slot exit_worker
⟶-Covered max b _ (skipped {s = s} {rest = rest} next blocked) covered =
    rw (consider-skipped b s rest blocked) covered
⟶-Covered max b _ (started {s = s} {rest = rest} next go below) covered =
    let (free, branch) = consider-started b s rest go in
    elim branch [
      | inl (e, shape) ↦
          rw shape (register-Covered b.detector.active_files s false b.workers covered)
      | inr (p, e, acquired, shape) ↦
          rw shape (register-Covered b.detector.active_files s true b.workers covered)
    ]
⟶-Covered max b _ (released {w = w} {rest = rest} p holds) covered =
    λ path owner taken. Picks-Held path owner p (covered path owner taken)
⟶-Covered max b _ (exited {w = w} {rest = rest} p holds) covered =
    unregister-Covered b.detector.active_files p covered

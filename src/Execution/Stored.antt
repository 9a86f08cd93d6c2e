-- ===== src/Execution/Stored.antt =====
-- The service over a repository that keeps what it is given.
use deespec.Base.{
  ℕ, ◌≡◌, refl, ◌<◌, String, ◌⊎◌, true, false, none, some, ok, err, Succeeds, arith, Result-cases,
  Option-cases, ◌∙◌, inl, inr,
}
use mathlib.Core.Path.{subst}
use deespec.Execution.Step
use deespec.Execution.Decision.{Decision}
use deespec.Execution.Entity.{SbiExecution, new_sbi_execution, is_completed}
use deespec.Execution.Service.{
  Repository, already_active, advance, start_execution, progress_execution, update_with, has_active,
  not_updated,
}
use deespec.Execution.Invariant.{Inv, advance_total}

-- The documented behaviour of `Save` and `Update` where they report no error.
pub record Keeps (repository : Repository) : Type 0 where
  pub found_by_sbi_id :
      (store : repository.Store) (e : SbiExecution)
      → (repository.save store e).1 ≡ none
      → repository.find_by_sbi_id (repository.save store e).0 e.sbi_id ≡ ok (some e)
  pub found_updated :
      (store : repository.Store) (e : SbiExecution)
      → (repository.update store e).1 ≡ none
      → repository.find_by_id (repository.update store e).0 e.id ≡ ok e

advance-id : (e e' : SbiExecution) (d : Decision) (now : ℕ) → advance e d now ≡ ok e' → e'.id ≡ e.id
unfolding advance
advance-id e e' d now h = ground arith

module _ (repository : Repository) (keeps : Keeps repository) where
  open repository use {Store, save, find_by_id, find_by_sbi_id, update}

  start_is_active :
      (store : Store) (sbi_id : String) (now : ℕ)
      → (save store (new_sbi_execution sbi_id now)).1 ≡ none
      → has_active repository (save store (new_sbi_execution sbi_id now)).0 sbi_id ≡ true
  unfolding has_active new_sbi_execution
  start_is_active store sbi_id now saved =
      rw (keeps.found_by_sbi_id store (new_sbi_execution sbi_id now) saved, has_active) refl

  -- After a successful `StartExecution` a second one for the same SBI is refused and leaves the store
  -- as it is.
  pub start_execution_twice :
      (store : Store) (sbi_id : String) (now later : ℕ)
      → Succeeds (λ e. Unit {0}) (start_execution repository store sbi_id now).1
      → start_execution repository (start_execution repository store sbi_id now).0 sbi_id later
        ≡ ((start_execution repository store sbi_id now).0, err (already_active sbi_id))
  unfolding start_execution
  start_execution_twice store sbi_id now later h = ground (arith, start_is_active store sbi_id now)

  update_with_stored :
      (store : Store) (e : SbiExecution)
      → ((update_with repository store (ok e)).1 ≡ ok e)
          × (find_by_id (update_with repository store (ok e)).0 e.id ≡ ok e)
        ⊎ ((x : String) × ((update_with repository store (ok e)).1 ≡ err (not_updated x)))
  unfolding update_with
  update_with_stored store e = elim (Option-cases (update store e).1) [
    | inl fine ↦ inl (rw fine, keeps.found_updated store e fine)
    | inr (x, failed) ↦ inr (x, rw failed)
  ]

  abbrev HeldAt : Store → SbiExecution → String → Type 0
  HeldAt store e id = find_by_id (update_with repository store (ok e)).0 id ≡ ok e

  progress_execution-found :
      (store : Store) (id : String) (d : Decision) (now : ℕ) (e e' : SbiExecution)
      → find_by_id store id ≡ ok e
      → advance e d now ≡ ok e'
      → progress_execution repository store id d now ≡ update_with repository store (ok e')
  unfolding progress_execution
  progress_execution-found store id d now e e' found eq = rw (found, progress_execution, eq)

  -- Progress on an execution that is loaded with the invariant and not completed. Either the update
  -- is reported to fail, or the call succeeds, and the store then holds the result under the same ID,
  -- at a later step and with the invariant.
  pub progress_execution_stored :
      (store : Store) (id : String) (d : Decision) (now : ℕ) (e : SbiExecution)
      → find_by_id store id ≡ ok e
      → e.id ≡ id
      → Inv e
      → is_completed e ≡ false
      → Succeeds
          (λ e'.
            (find_by_id (progress_execution repository store id d now).0 id ≡ ok e')
            × Inv e'
            × (Step.to_number e.step < Step.to_number e'.step))
          (progress_execution repository store id d now).1
        ⊎ ((x : String) × ((progress_execution repository store id d now).1 ≡ err (not_updated x)))
  progress_execution_stored store id d now e found same h open_ =
      elim (Result-cases (advance e d now)) [
        | inr (x, eq) ↦ absurd (rw eq at (advance_total e d now h open_))
        | inl (e', eq) ↦
            let called = progress_execution-found store id d now e e' found eq in
            let total : Inv e' × (Step.to_number e.step < Step.to_number e'.step) =
              rw eq at (advance_total e d now h open_) in
            let kept : e'.id ≡ id = advance-id e e' d now eq ∙ same in
            rw called (elim (update_with_stored store e') [
              | inl (fine, held) ↦
                  inl (rw fine (subst (HeldAt store e') kept held, total.0, total.1))
              | inr failed ↦ inr failed
            ])
      ]

-- ===== src/Pbi/Registered.antt =====
-- The loop of the registration: a chain of dependencies, and the counts.
use deespec.Base.{
  ℕ, suc, ◌≡◌, refl, subst, ◌∙◌, ◌⊎◌, inl, inr, String, true, false, List, [], ◌∷◌, ◌++◌, Result,
  ok, err, Result-cases,
}
use deespec.Pbi.Store.{Store}
use deespec.Pbi.Register.{
  Calls, Options, Progress, SbiSpec, SbiError, add_error, track, register_single_sbi, register_file,
  register_files,
}
use deespec.Pbi.Loop.{HasRow, Kept, Kept-refl, Saved, linked, register_single_sbi-Saved}

-- A round that fails, or one that registers the file at its place.
abbrev pub Round : Calls → ℕ → Progress → Progress → Type 0
Round c place p p' =
    ((p'.result.sbi_ids ≡ p.result.sbi_ids)
      × (p'.previous_sbi_id ≡ p.previous_sbi_id)
      × (p'.store.dependencies ≡ p.store.dependencies)
      × Kept p.store p'.store)
    ⊎ ((p'.result.sbi_ids ≡ p.result.sbi_ids ++ c.fresh place ∷ [])
        × (p'.previous_sbi_id ≡ c.fresh place)
        × (p'.store.dependencies ≡ linked p.previous_sbi_id (c.fresh place) p.store.dependencies)
        × HasRow (c.fresh place) p'.store.sbis
        × Kept p.store p'.store)

track-Round :
    (c : Calls) (opts : Options) (place : ℕ) (file : String) (spec : SbiSpec) (p : Progress)
    (r : Result SbiError String × Store)
    → Saved false p.previous_sbi_id (c.fresh place) p.store r
    → Round c place p (track c opts file spec r p)
unfolding track add_error
track-Round c opts place file spec p (err e, s') (kept, links) = inl (refl, refl, links, kept)
track-Round c opts place file spec p (ok id, s') (same, links, row, kept) =
    inr (rw same refl, same, links, row, kept)

pub register_file-Round :
    (c : Calls) (opts : Options) (pbi_id : String) (place : ℕ) (file : String) (p : Progress)
    → opts.dry_run ≡ false
    → Round c place p (register_file c opts pbi_id place file p)
unfolding register_file add_error
register_file-Round c opts pbi_id place file p wet = elim (Result-cases (c.parse file)) [
  | inr (e, bad) ↦ rw (bad, register_file) (inl (refl, refl, refl, Kept-refl p.store))
  | inl (spec, good) ↦
      rw (good, register_file)
        (track-Round c opts place file spec p _ (
          subst
            (λ dry.
              Saved dry p.previous_sbi_id (c.fresh place) p.store
                (register_single_sbi c opts pbi_id place spec p.previous_sbi_id p.store))
            wet (register_single_sbi-Saved c opts pbi_id place spec p.previous_sbi_id p.store)))
]

register_file-dry_run :
    (c : Calls) (opts : Options) (pbi_id : String) (place : ℕ) (file : String) (p : Progress)
    → opts.dry_run ≡ true
    → (register_file c opts pbi_id place file p).store ≡ p.store
unfolding register_file add_error
register_file-dry_run c opts pbi_id place file p dry = elim (Result-cases (c.parse file)) [
  | inr (e, bad) ↦ rw (bad, register_file) refl
  | inl (spec, good) ↦
      rw (good, register_file)
        (go spec (register_single_sbi c opts pbi_id place spec p.previous_sbi_id p.store) (
          subst
            (λ dry.
              Saved dry p.previous_sbi_id (c.fresh place) p.store
                (register_single_sbi c opts pbi_id place spec p.previous_sbi_id p.store))
            dry (register_single_sbi-Saved c opts pbi_id place spec p.previous_sbi_id p.store)))
]
  where
    go :
        (spec : SbiSpec) (r : Result SbiError String × Store)
        → Saved true p.previous_sbi_id (c.fresh place) p.store r
        → (track c opts file spec r p).store ≡ p.store
    go spec (err e, s') same = same
    go spec (ok id, s') (_, same) = same

pub register_files-dry_run :
    (c : Calls) (opts : Options) (pbi_id : String) (place : ℕ) (files : List String) (p : Progress)
    → opts.dry_run ≡ true
    → (register_files c opts pbi_id place files p).store ≡ p.store
unfolding register_files
register_files-dry_run c opts pbi_id place [] p dry = refl
register_files-dry_run c opts pbi_id place (file ∷ files) p dry =
    register_files-dry_run c opts pbi_id (suc place) files
      (register_file c opts pbi_id place file p) dry
    ∙ register_file-dry_run c opts pbi_id place file p dry

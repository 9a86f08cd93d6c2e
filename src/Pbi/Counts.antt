-- ===== src/Pbi/Counts.antt =====
-- The counts of a registration: every file is registered or has an error.
use deespec.Base.{
  ℕ, suc, ◌≡◌, refl, subst, inl, inr, ◌∙◌, ap, String, List, [], ◌∷◌, ◌++◌, map, Result, ok, err,
  length, ◌+◌, arith, Result-cases, length-append,
}
use deespec.Pbi.Store.{Store}
use deespec.Pbi.Register.{
  Calls, Options, Progress, SbiSpec, SbiError, add_error, track, register_file, register_files,
  RegisteredInfo, RegisterResult,
}

abbrev pub ids_of : List RegisteredInfo → List String
ids_of infos = map (λ (info : RegisteredInfo). info.id) infos

-- After `place` files.
abbrev pub Counts : ℕ → RegisterResult → Type 0
Counts place r =
    (r.registered_count ≡ length r.sbi_ids)
    × (r.registered_count + length r.errors ≡ place)
    × (r.skipped_count ≡ 0)

abbrev Counted : ℕ → Progress → Type 0
Counted place p = Counts place p.result × (ids_of p.registered_sbis ≡ p.result.sbi_ids)

ids_of-append :
    (xs : List RegisteredInfo) (x : RegisteredInfo) → ids_of (xs ++ x ∷ []) ≡ ids_of xs ++ x.id ∷ []
ids_of-append [] x = refl
ids_of-append (y ∷ xs) x = ap (λ ids. y.id ∷ ids) (ids_of-append xs x)

track-Counted :
    (c : Calls) (opts : Options) (place : ℕ) (file : String) (spec : SbiSpec) (p : Progress)
    (r : Result SbiError String × Store)
    → Counted place p
    → Counted (suc place) (track c opts file spec r p)
unfolding track add_error
track-Counted c opts place file spec p (err e, s) ((ids, total, skipped), infos) =
    ((ids, omega (arith, length-append p.result.errors ((file, e) ∷ []), total), skipped), infos)
track-Counted c opts place file spec p (ok id, s) ((ids, total, skipped), infos) = (
  (omega (arith, length-append p.result.sbi_ids (id ∷ []), ids), omega (arith, total), skipped),
  ids_of-append p.registered_sbis _ ∙ ap (λ xs. xs ++ id ∷ []) infos,
)

register_file-Counted :
    (c : Calls) (opts : Options) (pbi_id : String) (place : ℕ) (file : String) (p : Progress)
    → Counted place p
    → Counted (suc place) (register_file c opts pbi_id place file p)
unfolding register_file add_error
register_file-Counted c opts pbi_id place file p ((ids, total, skipped), infos) =
    elim (Result-cases (c.parse file)) [
      | inr (e, bad) ↦
          rw (bad, register_file)
            (
              (ids, omega (arith, length-append p.result.errors ((file, _) ∷ []), total), skipped),
              infos,
            )
      | inl (spec, good) ↦
          rw (good, register_file)
            (track-Counted c opts place file spec p _ ((ids, total, skipped), infos))
    ]

pub register_files-Counted :
    (c : Calls) (opts : Options) (pbi_id : String) (place : ℕ) (files : List String) (p : Progress)
    → Counted place p
    → Counted (place + length files) (register_files c opts pbi_id place files p)
unfolding register_files
register_files-Counted c opts pbi_id place [] p h = subst (λ n. Counted n p) (omega arith) h
register_files-Counted c opts pbi_id place (file ∷ files) p h =
    subst (λ n. Counted n (register_files c opts pbi_id place (file ∷ files) p)) (omega arith)
      (register_files-Counted c opts pbi_id (suc place) files
        (register_file c opts pbi_id place file p)
        (register_file-Counted c opts pbi_id place file p h))

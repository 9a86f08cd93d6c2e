-- ===== src/Pbi/Outcomes.antt =====
-- What a registration of the SBIs of a PBI does as a whole.
use deespec.Base.{
  ℕ, zero, ◌≡◌, refl, sym, subst, ◌∙◌, ap, ◌⊎◌, inl, inr, String, true, false, not, ◌&&◌, Option,
  some, none, List, [], ◌∷◌, length, ◌<◌, ltb, ◌==◌, arith, Bool-cases, Result-cases,
}
use deespec.Base.Dict.{Dict, lookup}
use deespec.Model.Sbi.{Sbi}
use deespec.Pbi.Approval.{ApprovalManifest, get_approved_sbis}
use deespec.Pbi.Store.{Store, find_by_id, load_manifest}
use deespec.Pbi.Register.{Calls, Options, Progress, RegisterResult, RegisterError, register_files}
use deespec.Pbi.Register.{pbi_not_found, manifest_not_loaded, already_registered}
use deespec.Pbi.Execute.{
  Outcome, at_start, update_pbi, finish_registration, register_approved, execute,
}
use deespec.Pbi.Counts.{Counts, ids_of, register_files-Counted}
use deespec.Pbi.Rows.{AllRows, register_files-AllRows, register_files-manifests}
use deespec.Pbi.Registered.{register_files-dry_run}
use deespec.Pbi.Chained.{Fresh, Chain, register_files-Ran}
use deespec.Pbi.Finish.{IsPlaned, IsRecorded, Ended, update_pbi-Ended, load_manifest-found}

abbrev refused : RegisterError → Store → Outcome
refused e s = record { result = none; error = some e; store = s }

-- Nothing is registered, or the loop has run over the approved files.
abbrev Executed : Calls → Options → String → Store → Outcome → Type 0
Executed c opts pbi_id s o =
    ((o.result ≡ none) × ((e : RegisterError) × (o.error ≡ some e)) × (o.store ≡ s))
    ⊎ ((m : ApprovalManifest) × (lookup pbi_id s.manifests ≡ some m)
        × (o
            ≡ finish_registration c opts pbi_id
                (register_files c opts pbi_id zero (get_approved_sbis m) (at_start s)))
        × (0 < length (get_approved_sbis m)))

register_approved-Executed :
    (c : Calls) (opts : Options) (pbi_id : String) (s : Store) (m : ApprovalManifest)
    (files : List String)
    → lookup pbi_id s.manifests ≡ some m
    → get_approved_sbis m ≡ files
    → Executed c opts pbi_id s (register_approved c opts pbi_id files s)
unfolding register_approved
register_approved-Executed c opts pbi_id s m [] known same = inl (refl, (_, refl), refl)
register_approved-Executed c opts pbi_id s m (file ∷ files) known same = inr (
  m,
  known,
  ap (λ fs. finish_registration c opts pbi_id (register_files c opts pbi_id zero fs (at_start s)))
      (sym same),
  subst (λ fs. 0 < length fs) (sym same) (omega arith),
)

execute-Executed :
    (c : Calls) (opts : Options) (pbi_id : String) (s : Store)
    → Executed c opts pbi_id s (execute c opts pbi_id s)
unfolding execute
execute-Executed c opts pbi_id s = elim (Result-cases (find_by_id c.finds pbi_id s)) [
  | inr (e, bad) ↦
      let same : execute c opts pbi_id s ≡ refused (pbi_not_found e) s = simp (bad, execute) in
      subst (Executed c opts pbi_id s) (sym same) (inl (refl, (_, refl), refl))
  | inl (p, found) ↦ elim (Result-cases (load_manifest c.loads pbi_id s)) [
    | inr (e, bad) ↦
        let same : execute c opts pbi_id s ≡ refused (manifest_not_loaded e) s =
          simp (found, bad, execute) in
        subst (Executed c opts pbi_id s) (sym same) (inl (refl, (_, refl), refl))
    | inl (m, loaded) ↦ elim (Bool-cases (m.registered && not opts.force)) [
      | inl again ↦
          let same : execute c opts pbi_id s ≡ refused already_registered s =
            simp (found, loaded, again, execute) in
          subst (Executed c opts pbi_id s) (sym same) (inl (refl, (_, refl), refl))
      | inr first ↦
          let same : execute c opts pbi_id s
              ≡ register_approved c opts pbi_id (get_approved_sbis m) s =
            simp (found, loaded, first, execute) in
          subst (Executed c opts pbi_id s) (sym same) (
            register_approved-Executed c opts pbi_id s m (get_approved_sbis m)
              (load_manifest-found c.loads pbi_id s m loaded) refl)
    ]
  ]
]

-- How a registration ends whose loop has run over `files` files, as result `r`.
abbrev pub Finished : Calls → Options → String → ℕ → Store → Outcome → RegisterResult → Type 0
Finished c opts pbi_id files s o r =
    Counts files r
    × (((e : RegisterError) × (o.error ≡ some e))
        ⊎ (o.error ≡ none) × (opts.dry_run ≡ true) × (o.store ≡ s)
        ⊎ (o.error ≡ none)
          × (0 < r.registered_count)
          × AllRows r.sbi_ids o.store.sbis
          × IsRecorded c pbi_id r.sbi_ids s o.store
          × IsPlaned pbi_id o.store)

Ended-Finished :
    (c : Calls) (opts : Options) (pbi_id : String) (files : ℕ) (s : Store) (p : Progress)
    (o : Outcome)
    → Counts files p.result
    → 0 < p.result.registered_count
    → ids_of p.registered_sbis ≡ p.result.sbi_ids
    → p.store.manifests ≡ s.manifests
    → AllRows p.result.sbi_ids p.store.sbis
    → Ended c pbi_id p o
    → (o.result ≡ some p.result)
      × (o.store.dependencies ≡ p.store.dependencies)
      × Finished c opts pbi_id files s o p.result
Ended-Finished c opts pbi_id files s p o counts some_registered infos manifests rows
      (result, written, ending) =
    (
      result,
      ap (λ (w : Dict (List String) × Dict Sbi). w.0) written,
      (
        counts,
        elim ending [
          | inl failed ↦ inl failed
          | inr (no_error, (m, known, marked), planed) ↦ inr (
              inr (
                no_error,
                some_registered,
                subst (AllRows p.result.sbi_ids)
                    (sym (ap (λ (w : Dict (List String) × Dict Sbi). w.1) written)) rows,
                (
                  m,
                  subst (λ ms. lookup pbi_id ms ≡ some m) manifests known,
                  subst
                      (λ ids.
                        lookup m.pbi_id o.store.manifests
                        ≡ some (record m {
                          registered = true;
                          registered_at = some c.now;
                          registered_sbis = ids;
                        }))
                      infos marked,
                ),
                planed,
              ))
        ],
      ),
    )

finish_registration-Finished :
    (c : Calls) (opts : Options) (pbi_id : String) (files : ℕ) (s : Store) (p : Progress)
    → 0 < files
    → Counts files p.result
    → ids_of p.registered_sbis ≡ p.result.sbi_ids
    → (opts.dry_run ≡ true → p.store ≡ s)
    → (opts.dry_run ≡ false → p.store.manifests ≡ s.manifests)
    → (opts.dry_run ≡ false → AllRows p.result.sbi_ids p.store.sbis)
    → ((finish_registration c opts pbi_id p).result ≡ some p.result)
      × ((finish_registration c opts pbi_id p).store.dependencies ≡ p.store.dependencies)
      × Finished c opts pbi_id files s (finish_registration c opts pbi_id p) p.result
unfolding finish_registration
finish_registration-Finished c opts pbi_id files s p some_files (ids, total, skipped) infos
      dry_store wet_store wet_rows =
    elim (Bool-cases (ltb 0 (length p.result.errors) && (p.result.registered_count == 0))) [
      | inl failed ↦
          rw (failed, finish_registration) (refl, refl, ((ids, total, skipped), inl (_, refl)))
      | inr fine ↦ elim (Bool-cases opts.dry_run) [
        | inl dry ↦
            rw (fine, dry, finish_registration)
              (refl, refl, ((ids, total, skipped), inr (inl (refl, refl, dry_store dry))))
        | inr wet ↦
            let some_registered : 0 < p.result.registered_count =
              ground (arith, fine, total, some_files) in
            let same : finish_registration c opts pbi_id p ≡ update_pbi c opts pbi_id p =
              simp (fine, wet, finish_registration) in
            subst
              (λ o.
                (o.result ≡ some p.result)
                × (o.store.dependencies ≡ p.store.dependencies)
                × Finished c opts pbi_id files s o p.result)
              (sym same)
              (Ended-Finished c opts pbi_id files s p (update_pbi c opts pbi_id p)
                (ids, total, skipped) some_registered infos (wet_store wet) (wet_rows wet)
                (update_pbi-Ended c opts pbi_id p some_registered))
      ]
    ]

finish_registration-dry_run :
    (c : Calls) (opts : Options) (pbi_id : String) (p : Progress)
    → opts.dry_run ≡ true
    → (finish_registration c opts pbi_id p).store ≡ p.store
unfolding finish_registration
finish_registration-dry_run c opts pbi_id p dry =
    elim (Bool-cases (ltb 0 (length p.result.errors) && (p.result.registered_count == 0))) [
      | inl failed ↦ rw (failed, finish_registration) refl
      | inr fine ↦ rw (fine, dry, finish_registration) refl
    ]

some_injective : (a b : RegisterResult) → ◌≡◌ {A = Option RegisterResult} (some a) (some b) → a ≡ b
some_injective a b e = cc

-- A registration returns no result, but an error, and changes nothing; or it returns a result that
-- accounts for every approved file, by an id or by an error. In the second case it ends with an
-- error, or it was a dry run that changes nothing, or at least one SBI is registered, the SBI of every
-- id of the result is saved (none was lost in a later round), the manifest is marked as registered with the ids of the result, and the PBI is planed and its body empty.
pub execute_outcome :
    (c : Calls) (opts : Options) (pbi_id : String) (s : Store)
    → ((execute c opts pbi_id s).result ≡ none)
        × ((e : RegisterError) × ((execute c opts pbi_id s).error ≡ some e))
        × ((execute c opts pbi_id s).store ≡ s)
      ⊎ ((m : ApprovalManifest) × (r : RegisterResult) × (lookup pbi_id s.manifests ≡ some m)
          × ((execute c opts pbi_id s).result ≡ some r)
          × Finished c opts pbi_id (length (get_approved_sbis m)) s (execute c opts pbi_id s) r)
execute_outcome c opts pbi_id s = elim (execute-Executed c opts pbi_id s) [
  | inl nothing ↦ inl nothing
  | inr (m, known, same, some_files) ↦
      let p : Progress = register_files c opts pbi_id zero (get_approved_sbis m) (at_start s) in
      let (counts, infos) =
        register_files-Counted c opts pbi_id zero (get_approved_sbis m) (at_start s)
          ((refl, omega arith, refl), refl) in
      let (result, links, finished) =
        finish_registration-Finished c opts pbi_id (length (get_approved_sbis m)) s p some_files
          (subst (λ n. Counts n p.result) (omega arith) counts) infos
          (register_files-dry_run c opts pbi_id zero (get_approved_sbis m) (at_start s))
          (register_files-manifests c opts pbi_id zero (get_approved_sbis m) (at_start s))
          (register_files-AllRows c opts pbi_id zero (get_approved_sbis m) (at_start s) tt) in
      inr (
        m,
        p.result,
        known,
        ap (λ (o : Outcome). o.result) same ∙ result,
        subst (λ o. Finished c opts pbi_id (length (get_approved_sbis m)) s o p.result) (sym same)
            finished,
      )
]

-- With ids that differ and are not empty, the SBIs that a registration (not a dry run) gives an id
-- form a chain: each depends on the one given before it, and on nothing else; the first keeps the
-- dependencies that its id had.
pub execute-Chain :
    (c : Calls) (opts : Options) (pbi_id : String) (s : Store) (r : RegisterResult)
    → Fresh c.fresh
    → opts.dry_run ≡ false
    → (execute c opts pbi_id s).result ≡ some r
    → Chain s.dependencies (execute c opts pbi_id s).store.dependencies "" r.sbi_ids
execute-Chain c opts pbi_id s r fresh wet h = elim (execute-Executed c opts pbi_id s) [
  | inl (nothing, _, _) ↦ cc
  | inr (m, known, same, some_files) ↦
      let p : Progress = register_files c opts pbi_id zero (get_approved_sbis m) (at_start s) in
      let (new, ids, chain, _, _) =
        register_files-Ran c opts pbi_id zero s.dependencies (get_approved_sbis m) (at_start s)
          fresh wet (λ _. refl) in
      let (counts, infos) =
        register_files-Counted c opts pbi_id zero (get_approved_sbis m) (at_start s)
          ((refl, omega arith, refl), refl) in
      let (result, links, finished) =
        finish_registration-Finished c opts pbi_id (length (get_approved_sbis m)) s p some_files
          (subst (λ n. Counts n p.result) (omega arith) counts) infos
          (register_files-dry_run c opts pbi_id zero (get_approved_sbis m) (at_start s))
          (register_files-manifests c opts pbi_id zero (get_approved_sbis m) (at_start s))
          (register_files-AllRows c opts pbi_id zero (get_approved_sbis m) (at_start s) tt) in
      let same_result : p.result ≡ r =
        some_injective p.result r (sym result ∙ ap (λ (o : Outcome). o.result) (sym same) ∙ h) in
      subst (λ links. Chain s.dependencies links "" r.sbi_ids)
        (sym (ap (λ (o : Outcome). o.store.dependencies) same ∙ links))
        (subst (Chain s.dependencies p.store.dependencies "")
          (sym ids ∙ ap (λ (r : RegisterResult). r.sbi_ids) same_result) chain)
]

-- A dry run changes nothing, whatever its outcome.
pub execute-dry_run :
    (c : Calls) (opts : Options) (pbi_id : String) (s : Store)
    → opts.dry_run ≡ true
    → (execute c opts pbi_id s).store ≡ s
execute-dry_run c opts pbi_id s dry = elim (execute-Executed c opts pbi_id s) [
  | inl (_, _, same) ↦ same
  | inr (m, known, same, _) ↦
      ap (λ (o : Outcome). o.store) same
      ∙ finish_registration-dry_run c opts pbi_id
          (register_files c opts pbi_id zero (get_approved_sbis m) (at_start s)) dry
      ∙ register_files-dry_run c opts pbi_id zero (get_approved_sbis m) (at_start s) dry
]

-- ===== src/Pbi/Rows.antt =====
-- The loop of the registration saves the SBI of every id that it returns, and leaves the manifests.
use deespec.Base.{ℕ, suc, ◌≡◌, refl, sym, subst, ◌∙◌, inl, inr, String, false, List, [], ◌∷◌, ◌++◌}
use deespec.Base.Dict.{Dict}
use deespec.Model.Sbi.{Sbi}
use deespec.Pbi.Store.{Store}
use deespec.Pbi.Register.{Calls, Options, Progress, register_file, register_files}
use deespec.Pbi.Loop.{HasRow, Kept}
use deespec.Pbi.Registered.{register_file-Round}

-- The SBIs of these ids are saved.
abbrev pub AllRows : List String → Dict Sbi → Type 0
AllRows [] sbis = Unit
AllRows (id ∷ ids) sbis = HasRow id sbis × AllRows ids sbis

AllRows-Kept :
    (ids : List String) (s s' : Store) → Kept s s' → AllRows ids s.sbis → AllRows ids s'.sbis
AllRows-Kept [] s s' kept rows = tt
AllRows-Kept (id ∷ ids) s s' kept (row, rows) = (kept.rows id row, AllRows-Kept ids s s' kept rows)

AllRows-append :
    (ids : List String) (id : String) (sbis : Dict Sbi)
    → AllRows ids sbis
    → HasRow id sbis
    → AllRows (ids ++ id ∷ []) sbis
AllRows-append [] id sbis rows row = (row, tt)
AllRows-append (i ∷ ids) id sbis (first, rows) row = (first, AllRows-append ids id sbis rows row)

pub register_files-AllRows :
    (c : Calls) (opts : Options) (pbi_id : String) (place : ℕ) (files : List String) (p : Progress)
    → AllRows p.result.sbi_ids p.store.sbis
    → opts.dry_run ≡ false
    → AllRows
        (register_files c opts pbi_id place files p).result.sbi_ids
        (register_files c opts pbi_id place files p).store.sbis
unfolding register_files
register_files-AllRows c opts pbi_id place [] p rows wet = rows
register_files-AllRows c opts pbi_id place (file ∷ files) p rows wet =
    let p' : Progress = register_file c opts pbi_id place file p in
    register_files-AllRows c opts pbi_id (suc place) files p'
      (elim (register_file-Round c opts pbi_id place file p wet) [
        | inl (same, _, _, kept) ↦
            subst (λ ids. AllRows ids p'.store.sbis) (sym same)
              (AllRows-Kept p.result.sbi_ids p.store p'.store kept rows)
        | inr (more, _, _, row, kept) ↦
            subst (λ ids. AllRows ids p'.store.sbis) (sym more)
              (AllRows-append p.result.sbi_ids (c.fresh place) p'.store.sbis
                (AllRows-Kept p.result.sbi_ids p.store p'.store kept rows) row)
      ])
      wet

pub register_files-manifests :
    (c : Calls) (opts : Options) (pbi_id : String) (place : ℕ) (files : List String) (p : Progress)
    → opts.dry_run ≡ false
    → (register_files c opts pbi_id place files p).store.manifests ≡ p.store.manifests
unfolding register_files
register_files-manifests c opts pbi_id place [] p wet = refl
register_files-manifests c opts pbi_id place (file ∷ files) p wet =
    register_files-manifests c opts pbi_id (suc place) files
      (register_file c opts pbi_id place file p) wet
    ∙ elim (register_file-Round c opts pbi_id place file p wet) [
      | inl (_, _, _, kept) ↦ kept.manifests
      | inr (_, _, _, _, kept) ↦ kept.manifests
    ]

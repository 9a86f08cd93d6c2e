-- ===== src/Pbi/Finish.antt =====
-- What Execute does after the loop of the registration.
use deespec.Base.{
  List, ◌≡◌, refl, sym, subst, ◌∙◌, ap, ◌⊎◌, inl, inr, String, true, Option, some, none, map,
  Result, ok, err, ◌<◌, arith, Option-cases, Result-cases,
}
use deespec.Base.Dict.{Dict, lookup, lookup-insert_self}
use deespec.Model.Sbi.{Sbi}
use deespec.Pbi.Item
use deespec.Pbi.Item.{Pbi, update_pbi_status, is_valid}
use deespec.Pbi.Approval.{ApprovalManifest}
use deespec.Pbi.Store.{
  Store, SaveFailure, works, fails_before_body, fails_at_commit, find_by_id, save_pbi, upsert,
  as_row, load_manifest, save_manifest,
}
use deespec.Pbi.Register.{
  Calls, Options, Progress, RegisteredInfo, RegisterError, mark_planed, after_save,
  update_approval_manifest,
}
use deespec.Pbi.Counts.{ids_of}
use deespec.Pbi.Execute.{
  Outcome, conclude_registration, record_registration, after_planed, update_pbi,
}

-- What the loop has written.
abbrev pub written_of : Store → Dict (List String) × Dict Sbi
written_of s = (s.dependencies, s.sbis)

abbrev pbis_of : Store → Dict Pbi
pbis_of s = s.pbis

abbrev bodies_of : Store → Dict String
bodies_of s = s.bodies

-- The PBI is planed, and its body is empty.
abbrev pub IsPlaned : String → Store → Type 0
IsPlaned pbi_id s =
    (lookup pbi_id s.bodies ≡ some "")
    × ((p : Pbi) × (lookup pbi_id s.pbis ≡ some p) × (p.status ≡ Item.planed))

abbrev Planed : String → Store → Option RegisterError × Store → Type 0
Planed pbi_id s (some e, s') = written_of s' ≡ written_of s
Planed pbi_id s (none, s') =
    (written_of s' ≡ written_of s) × (s'.manifests ≡ s.manifests) × IsPlaned pbi_id s'

ok_injective :
    (a b : ApprovalManifest) → ◌≡◌ {A = Result String ApprovalManifest} (ok a) (ok b) → a ≡ b
ok_injective a b e = cc

upsert-status :
    (p : Pbi) (rows : Dict Pbi)
    → p.status ≡ Item.planed
    → (q : Pbi) × (lookup p.id (upsert p rows) ≡ some q) × (q.status ≡ Item.planed)
unfolding upsert as_row
upsert-status p rows planed = elim (Option-cases (lookup p.id rows)) [
  | inl new ↦ (as_row p, rw (new, upsert) (lookup-insert_self p.id (as_row p) rows), planed)
  | inr (old, known) ↦ (
    record (as_row p) { created_at = old.created_at },
    rw (known, upsert)
        (lookup-insert_self p.id (record (as_row p) { created_at = old.created_at }) rows),
    planed,
  )
]

save_pbi-Planed :
    (c : Calls) (opts : Options) (p : Pbi) (s : Store) (failure : SaveFailure)
    → p.status ≡ Item.planed
    → Planed p.id s (after_save c opts (save_pbi failure p "" s))
unfolding save_pbi after_save
save_pbi-Planed c opts p s works planed =
    (refl, refl, (lookup-insert_self p.id "" s.bodies, upsert-status p s.pbis planed))
save_pbi-Planed c opts p s (fails_before_body e) planed = refl
save_pbi-Planed c opts p s (fails_at_commit e) planed = refl

mark_planed-Planed :
    (c : Calls) (opts : Options) (pbi_id : String) (s : Store)
    → Planed pbi_id s (mark_planed c opts pbi_id s)
unfolding mark_planed find_by_id update_pbi_status is_valid
mark_planed-Planed c opts pbi_id s = elim (Option-cases c.finds_again) [
  | inr (e, fails) ↦ rw (fails, mark_planed) refl
  | inl finds ↦ elim (Option-cases (lookup pbi_id s.pbis)) [
    | inl missing ↦ rw (finds, missing, mark_planed) refl
    | inr (p, known) ↦
        rw (finds, known, mark_planed)
          (save_pbi-Planed c opts
            (record p { id = pbi_id; status = Item.planed; updated_at = c.now }) s c.saves_pbi refl)
  ]
]

-- The manifest of the PBI is marked as registered, with the ids.
abbrev pub IsRecorded : Calls → String → List String → Store → Store → Type 0
IsRecorded c pbi_id ids s s' =
    (m : ApprovalManifest) × (lookup pbi_id s.manifests ≡ some m)
    × (lookup m.pbi_id s'.manifests
        ≡ some (record m { registered = true; registered_at = some c.now; registered_sbis = ids }))

pub load_manifest-found :
    (failure : Option String) (pbi_id : String) (s : Store) (m : ApprovalManifest)
    → load_manifest failure pbi_id s ≡ ok m
    → lookup pbi_id s.manifests ≡ some m
unfolding load_manifest
load_manifest-found (some e) pbi_id s m h = cc
load_manifest-found none pbi_id s m h = elim (Option-cases (lookup pbi_id s.manifests)) [
  | inl missing ↦ cc (simp missing at h)
  | inr (m', known) ↦ known ∙ ap some (ok_injective m' m (simp known at h))
]

-- The manifest is written, or the store is as it was.
abbrev Updated : Calls → String → Progress → Store → Result String (Unit {0}) × Store → Type 0
Updated c pbi_id p s (err e, s') = s' ≡ s
Updated c pbi_id p s (ok _, s') =
    (written_of s' ≡ written_of s)
    × (s'.pbis ≡ s.pbis)
    × (s'.bodies ≡ s.bodies)
    × IsRecorded c pbi_id (ids_of p.registered_sbis) s s'

save_manifest-Updated :
    (c : Calls) (pbi_id : String) (p : Progress) (s : Store) (m : ApprovalManifest)
    (failure : Option String)
    → lookup pbi_id s.manifests ≡ some m
    → Updated c pbi_id p s (
        save_manifest failure
          (record m {
            registered = true;
            registered_at = some c.now;
            registered_sbis = map (λ (info : RegisteredInfo). info.id) p.registered_sbis;
          })
          s)
unfolding save_manifest
save_manifest-Updated c pbi_id p s m (some e) known = refl
save_manifest-Updated c pbi_id p s m none known =
    (refl, refl, refl, (m, known, lookup-insert_self m.pbi_id _ s.manifests))

update_approval_manifest-Updated :
    (c : Calls) (opts : Options) (pbi_id : String) (p : Progress) (s : Store)
    → Updated c pbi_id p s (update_approval_manifest c opts pbi_id p.registered_sbis s)
unfolding update_approval_manifest
update_approval_manifest-Updated c opts pbi_id p s =
    elim (Result-cases (load_manifest c.loads_again pbi_id s)) [
      | inr (e, bad) ↦
          let same : update_approval_manifest c opts pbi_id p.registered_sbis s ≡ (err e, s) =
            simp (bad, update_approval_manifest) in
          subst (Updated c pbi_id p s) (sym same) refl
      | inl (m, good) ↦
          let same : update_approval_manifest c opts pbi_id p.registered_sbis s
              ≡ save_manifest c.saves_manifest
                  (record m {
                    registered = true;
                    registered_at = some c.now;
                    registered_sbis = map (λ (info : RegisteredInfo). info.id) p.registered_sbis;
                  })
                  s =
            simp (good, update_approval_manifest) in
          subst (Updated c pbi_id p s) (sym same) (
            save_manifest-Updated c pbi_id p s m c.saves_manifest
              (load_manifest-found c.loads_again pbi_id s m good))
    ]

abbrev Recorded : Calls → String → Progress → Store → Outcome → Type 0
Recorded c pbi_id p s o =
    (o.result ≡ some p.result)
    × (written_of o.store ≡ written_of s)
    × (o.store.pbis ≡ s.pbis)
    × (o.store.bodies ≡ s.bodies)
    × (((e : RegisterError) × (o.error ≡ some e))
        ⊎ (o.error ≡ none) × IsRecorded c pbi_id (ids_of p.registered_sbis) s o.store)

conclude_registration-Recorded :
    (c : Calls) (opts : Options) (pbi_id : String) (p : Progress) (s : Store)
    (r : Result String (Unit {0}) × Store)
    → Updated c pbi_id p s r
    → Recorded c pbi_id p s (conclude_registration c opts p.result r)
unfolding conclude_registration
conclude_registration-Recorded c opts pbi_id p s (err e, s') same =
    (refl, ap written_of same, ap pbis_of same, ap bodies_of same, inl (_, refl))
conclude_registration-Recorded c opts pbi_id p s (ok _, s') (links, pbis, bodies, recorded) =
    (refl, links, pbis, bodies, inr (refl, recorded))

record_registration-Recorded :
    (c : Calls) (opts : Options) (pbi_id : String) (p : Progress) (s : Store)
    → Recorded c pbi_id p s (record_registration c opts pbi_id p s)
unfolding record_registration
record_registration-Recorded c opts pbi_id p s =
    conclude_registration-Recorded c opts pbi_id p s _
      (update_approval_manifest-Updated c opts pbi_id p s)

-- After a registration without error the manifest is recorded and the PBI planed; the SBIs
-- and their dependencies are in any case those of the loop.
abbrev pub Ended : Calls → String → Progress → Outcome → Type 0
Ended c pbi_id p o =
    (o.result ≡ some p.result)
    × (written_of o.store ≡ written_of p.store)
    × (((e : RegisterError) × (o.error ≡ some e))
        ⊎ (o.error ≡ none)
          × IsRecorded c pbi_id (ids_of p.registered_sbis) p.store o.store
          × IsPlaned pbi_id o.store)

after_planed-Ended :
    (c : Calls) (opts : Options) (pbi_id : String) (p : Progress) (r : Option RegisterError × Store)
    → Planed pbi_id p.store r
    → Ended c pbi_id p (after_planed c opts pbi_id p r)
unfolding after_planed
after_planed-Ended c opts pbi_id p (some e, s) links = (refl, links, inl (e, refl))
after_planed-Ended c opts pbi_id p (none, s) (links, manifests, (body, row)) =
    let (same, links', pbis, bodies, ending) = record_registration-Recorded c opts pbi_id p s in
    (
      same,
      links' ∙ links,
      elim ending [
        | inl failed ↦ inl failed
        | inr (no_error, (m, known, written)) ↦ inr (
          no_error,
          (m, subst (λ ms. lookup pbi_id ms ≡ some m) manifests known, written),
          (
            ap (lookup pbi_id) bodies ∙ body,
            subst (λ rows. (q : Pbi) × (lookup pbi_id rows ≡ some q) × (q.status ≡ Item.planed))
                (sym pbis) row,
          ),
        )
      ],
    )

pub update_pbi-Ended :
    (c : Calls) (opts : Options) (pbi_id : String) (p : Progress)
    → 0 < p.result.registered_count
    → Ended c pbi_id p (update_pbi c opts pbi_id p)
unfolding update_pbi
update_pbi-Ended c opts pbi_id p some_registered =
    let same : update_pbi c opts pbi_id p
        ≡ after_planed c opts pbi_id p (mark_planed c opts pbi_id p.store) =
      ground (arith, some_registered) in
    subst (Ended c pbi_id p) (sym same)
      (after_planed-Ended c opts pbi_id p _ (mark_planed-Planed c opts pbi_id p.store))

-- ===== src/Pbi/Loop.antt =====
-- What one round of the registration, and the whole loop, do to the store.
use deespec.Base.{
  ℕ, ◌≡◌, eq_iff, refl, sym, subst, ◌∙◌, ap, inl, inr, String, Bool, true, false, Option, some,
  List, [], ◌∷◌, ◌++◌, Result, ok, err, str_eq, if◌then◌else◌, arith, Bool-cases, Option-cases,
  Result-cases,
}
use deespec.Base.Dict.{Dict, lookup, insert, lookup-insert, lookup-insert_self}
use deespec.Model.Task.{new_base_task}
use deespec.Model.Value.{new_task_id_from_string, is_valid_type}
use deespec.Model.Sbi.{Sbi, new_sbi, add_dependency}
use deespec.Pbi.Store.{Store, save_dependencies}
use deespec.Pbi.Register.{
  Calls, Options, SbiSpec, SbiError, dependencies_failed, sbi_metadata, with_previous, save_links,
  save_sbi, register_single_sbi,
}

-- The SBI of this id is saved.
abbrev pub HasRow : String → Dict Sbi → Type 0
HasRow id sbis = (s : Sbi) × (lookup id sbis ≡ some s) × (s.id ≡ id)

-- What the registration leaves as it was; and it loses no SBI.
pub record Kept (s s' : Store) : Type 0 where
  pub pbis : s'.pbis ≡ s.pbis
  pub bodies : s'.bodies ≡ s.bodies
  pub manifests : s'.manifests ≡ s.manifests
  pub rows : (id : String) → HasRow id s.sbis → HasRow id s'.sbis

-- The dependencies of the SBI that is saved after `previous`.
abbrev pub linked : String → String → Dict (List String) → Dict (List String)
linked previous id links = if str_eq previous "" then links else insert id (previous ∷ []) links

-- What a registration that returns `r` has done to the store: nothing in a dry run.
abbrev pub Saved : Bool → String → String → Store → Result SbiError String × Store → Type 0
Saved true previous id s (err e, s') = s' ≡ s
Saved true previous id s (ok sbi_id, s') = (sbi_id ≡ id) × (s' ≡ s)
Saved false previous id s (err e, s') = Kept s s' × (s'.dependencies ≡ s.dependencies)
Saved false previous id s (ok sbi_id, s') =
    (sbi_id ≡ id)
    × (s'.dependencies ≡ linked previous id s.dependencies)
    × HasRow id s'.sbis
    × Kept s s'

pub Kept-refl : (s : Store) → Kept s s
Kept-refl s = record { pbis = refl; bodies = refl; manifests = refl; rows = λ id row. row }

Saved-err :
    (dry : Bool) (previous id : String) (s : Store) (e : SbiError)
    → Saved dry previous id s (err e, s)
Saved-err true previous id s e = refl
Saved-err false previous id s e = (Kept-refl s, refl)

HasRow-insert :
    (s : Sbi) (sbis : Dict Sbi) (id : String) → HasRow id sbis → HasRow id (insert s.id s sbis)
HasRow-insert s sbis id (row, found, same) = elim (Bool-cases (str_eq s.id id)) [
  | inl equal ↦ (s, rw (lookup-insert s.id id s sbis, equal) refl, ground (arith, eq_iff s.id id))
  | inr other ↦ (row, rw (lookup-insert s.id id s sbis, other) found, same)
]

-- A step that only adds rows of SBIs may come first.
Kept-sbis :
    (s s' : Store) (sbis : Dict Sbi)
    → ((j : String) → HasRow j s.sbis → HasRow j sbis)
    → Kept (record s { sbis = sbis }) s'
    → Kept s s'
Kept-sbis s s' sbis more kept = record {
  pbis = kept.pbis;
  bodies = kept.bodies;
  manifests = kept.manifests;
  rows = λ j row. kept.rows j (more j row);
}

Saved-sbis :
    (previous id : String) (s : Store) (sbis : Dict Sbi) (r : Result SbiError String × Store)
    → ((j : String) → HasRow j s.sbis → HasRow j sbis)
    → Saved false previous id (record s { sbis = sbis }) r
    → Saved false previous id s r
Saved-sbis previous id s sbis (err e, s') more (kept, links) =
    (Kept-sbis s s' sbis more kept, links)
Saved-sbis previous id s sbis (ok sbi_id, s') more (same, links, row, kept) =
    (same, links, row, Kept-sbis s s' sbis more kept)

module _ (c : Calls) (opts : Options) where
  new_sbi-fresh :
      (title description id : String) (parent : Option String) (spec : SbiSpec) (s : Sbi)
      → new_sbi title description parent (sbi_metadata spec c.now) id c.now ≡ ok s
      → (s.id ≡ id) × (s.metadata.depends_on ≡ [])
  unfolding new_sbi new_base_task is_valid_type
  new_sbi-fresh title description id parent spec s h = ground arith

  -- The SBI depends on the previous one, if there is one.
  abbrev Links : String → Sbi → Type 0
  Links previous s = s.metadata.depends_on ≡ (if str_eq previous "" then [] else previous ∷ [])

  with_previous-Links :
      (previous : String) (s : Sbi)
      → s.metadata.depends_on ≡ []
      → ((with_previous previous s).id ≡ s.id) × Links previous (with_previous previous s)
  unfolding with_previous add_dependency
  with_previous-Links previous s none_yet = elim (Bool-cases (str_eq previous "")) [
    | inl first ↦ simp (first, with_previous) (refl, none_yet)
    | inr later ↦ rw (later, with_previous) (refl, ap (λ links. links ++ previous ∷ []) none_yet)
  ]

  save_links-Saved :
      (place : ℕ) (previous id : String) (s : Sbi) (store : Store)
      → s.id ≡ id
      → Links previous s
      → HasRow id store.sbis
      → Saved false previous id store (save_links c opts place s store)
  unfolding save_links save_dependencies
  save_links-Saved place previous id s store same links row =
      elim (Bool-cases (str_eq previous "")) [
        | inl first ↦
            let no_links : s.metadata.depends_on ≡ [] = simp first at links in
            let e : save_links c opts place s store ≡ (ok s.id, store) =
              simp (no_links, save_links) in
            subst (Saved false previous id store) (sym e)
              (same, rw first refl, row, Kept-refl store)
        | inr later ↦
            let one_link : s.metadata.depends_on ≡ previous ∷ [] = simp later at links in
            elim (Option-cases (c.saves_dependencies place)) [
              | inl works ↦
                  let e : save_links c opts place s store
                      ≡ (ok s.id, save_dependencies s.id (previous ∷ []) store) =
                    simp (one_link, works, save_links) in
                  subst (Saved false previous id store) (sym e) (
                    same,
                    rw (later, same) refl,
                    row,
                    record {
                      pbis = refl;
                      bodies = refl;
                      manifests = refl;
                      rows = λ j there. there;
                    },
                  )
              | inr (failure, fails) ↦
                  let e : save_links c opts place s store
                      ≡ (err (dependencies_failed failure), store) =
                    simp (one_link, fails, save_links) in
                  subst (Saved false previous id store) (sym e) (Kept-refl store, refl)
            ]
      ]

  save_sbi-Saved :
      (place : ℕ) (previous id : String) (s : Sbi) (store : Store)
      → s.id ≡ id
      → Links previous s
      → Saved opts.dry_run previous id store (save_sbi c opts place s store)
  unfolding save_sbi
  save_sbi-Saved place previous id s store same links = elim (Bool-cases opts.dry_run) [
    | inl dry ↦ rw (dry, save_sbi) (same, refl)
    | inr wet ↦ elim (Option-cases (c.saves_sbi place)) [
      | inl works ↦
          rw (wet, works, save_sbi)
            (Saved-sbis previous id store (insert s.id s store.sbis) _ (HasRow-insert s store.sbis)
              (save_links-Saved place previous id s
                (record store { sbis = insert s.id s store.sbis }) same links
                (s, rw (← same) (lookup-insert_self s.id s store.sbis), same)))
      | inr (failure, fails) ↦ rw (wet, fails, save_sbi) (Kept-refl store, refl)
    ]
  ]

  pub register_single_sbi-Saved :
      (pbi_id : String) (place : ℕ) (spec : SbiSpec) (previous : String) (store : Store)
      → Saved opts.dry_run previous
          (c.fresh place)
          store
          (register_single_sbi c opts pbi_id place spec previous store)
  unfolding register_single_sbi
  register_single_sbi-Saved pbi_id place spec previous store =
      elim (Bool-cases (str_eq spec.parent_pbi_id pbi_id)) [
        | inr other ↦
            rw (other, register_single_sbi)
              (Saved-err opts.dry_run previous (c.fresh place) store _)
        | inl same ↦ elim (Result-cases (new_task_id_from_string pbi_id)) [
          | inr (e, empty) ↦
              rw (same, empty, register_single_sbi)
                (Saved-err opts.dry_run previous (c.fresh place) store _)
          | inl (parent, valid) ↦
              elim (Result-cases (
                new_sbi spec.title spec.body (some parent) (sbi_metadata spec c.now) (c.fresh place)
                  c.now)) [
                    | inr (e, refused) ↦
                        rw (same, valid, refused, register_single_sbi)
                          (Saved-err opts.dry_run previous (c.fresh place) store _)
                    | inl (s, created) ↦
                        let (fresh, none_yet) =
                          new_sbi-fresh spec.title spec.body (c.fresh place) (some parent) spec s
                            created in
                        let (same_id, links) = with_previous-Links previous s none_yet in
                        rw (same, valid, created, register_single_sbi)
                          (save_sbi-Saved place previous (c.fresh place) (with_previous previous s)
                            store (same_id ∙ fresh) links)
                  ]
        ]
      ]

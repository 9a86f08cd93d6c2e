-- ===== src/Pbi/Chained.antt =====
-- The registered SBIs form a chain of dependencies.
use deespec.Base.{
  ℕ, suc, ◌≡◌, refl, sym, subst, ◌∙◌, ap, ◌⊎◌, inl, inr, String, true, false, some, List, [], ◌∷◌,
  ◌++◌, ◌<◌, str_eq, if◌then◌else◌, arith, Bool-cases, eq_refl,
}
use deespec.Base.Dict.{Dict, lookup, lookup-insert}
use deespec.Pbi.Store.{Store}
use deespec.Pbi.Register.{Calls, Options, Progress, register_file, register_files}
use deespec.Pbi.Loop.{Kept, linked}
use deespec.Pbi.Registered.{register_file-Round}

-- What the generator of ids is documented to give: ids that differ, and are not empty.
pub record Fresh (fresh : ℕ → String) : Type 0 where
  pub not_empty : (i : ℕ) → str_eq (fresh i) "" ≡ false
  pub differ : (i j : ℕ) → (str_eq (fresh i) (fresh j) ≡ false) ⊎ (i ≡ j)

-- Each id depends on the one before it alone; the first keeps what it had.
abbrev pub Chain : Dict (List String) → Dict (List String) → String → List String → Type 0
Chain before links previous [] = Unit
Chain before links previous (id ∷ ids) =
    (lookup id links ≡ (if str_eq previous "" then lookup id before else some (previous ∷ [])))
    × Chain before links id ids

-- What the rest of the loop does, from a place on.
abbrev pub Ran : Calls → ℕ → Dict (List String) → Progress → Progress → Type 0
Ran c place before p p' =
    (new : List String) × (p'.result.sbi_ids ≡ p.result.sbi_ids ++ new)
    × Chain before p'.store.dependencies p.previous_sbi_id new
    × ((k : ℕ)
        → k < place
        → lookup (c.fresh k) p'.store.dependencies ≡ lookup (c.fresh k) p.store.dependencies)
    × Kept p.store p'.store

pub Kept-trans : (s s' s'' : Store) → Kept s s' → Kept s' s'' → Kept s s''
Kept-trans s s' s'' first second = record {
  pbis = second.pbis ∙ first.pbis;
  bodies = second.bodies ∙ first.bodies;
  manifests = second.manifests ∙ first.manifests;
  rows = λ id row. second.rows id (first.rows id row);
}

append-cons :
    (xs : List String) (x : String) (ys : List String) → (xs ++ x ∷ []) ++ ys ≡ xs ++ x ∷ ys
append-cons [] x ys = refl
append-cons (z ∷ xs) x ys = ap (λ zs. z ∷ zs) (append-cons xs x ys)

append-nil : (xs : List String) → xs ++ [] ≡ xs
append-nil [] = refl
append-nil (x ∷ xs) = ap (λ zs. x ∷ zs) (append-nil xs)

lookup-linked :
    (previous id : String) (links : Dict (List String))
    → lookup id (linked previous id links)
      ≡ (if str_eq previous "" then lookup id links else some (previous ∷ []))
lookup-linked previous id links =
    ground (arith, lookup-insert id id (previous ∷ []) links, eq_refl id)

lookup-linked_other :
    (previous id other : String) (links : Dict (List String))
    → str_eq id other ≡ false
    → lookup other (linked previous id links) ≡ lookup other links
lookup-linked_other previous id other links differ =
    ground (arith, lookup-insert id other (previous ∷ []) links)

link_at_start :
    (previous id : String) (links before : Dict (List String))
    → (str_eq previous "" ≡ true → links ≡ before)
    → (if str_eq previous "" then lookup id links else some (previous ∷ []))
      ≡ (if str_eq previous "" then lookup id before else some (previous ∷ []))
link_at_start previous id links before start = elim (Bool-cases (str_eq previous "")) [
  | inl first ↦ rw first (ap (lookup id) (start first))
  | inr later ↦ rw later refl
]

Ran-failed :
    (c : Calls) (place : ℕ) (before : Dict (List String)) (p p' p'' : Progress)
    → p'.result.sbi_ids ≡ p.result.sbi_ids
    → p'.previous_sbi_id ≡ p.previous_sbi_id
    → p'.store.dependencies ≡ p.store.dependencies
    → Kept p.store p'.store
    → Ran c (suc place) before p' p''
    → Ran c place before p p''
Ran-failed c place before p p' p'' ids previous links kept (new, ids', chain, earlier, kept') = (
  new,
  ids' ∙ ap (λ xs. xs ++ new) ids,
  subst (λ x. Chain before p''.store.dependencies x new) previous chain,
  λ k h. earlier k (omega arith) ∙ ap (lookup (c.fresh k)) links,
  Kept-trans p.store p'.store p''.store kept kept',
)

Ran-registered :
    (c : Calls) (place : ℕ) (before : Dict (List String)) (p p' p'' : Progress)
    → Fresh c.fresh
    → (str_eq p.previous_sbi_id "" ≡ true → p.store.dependencies ≡ before)
    → p'.result.sbi_ids ≡ p.result.sbi_ids ++ c.fresh place ∷ []
    → p'.previous_sbi_id ≡ c.fresh place
    → p'.store.dependencies ≡ linked p.previous_sbi_id (c.fresh place) p.store.dependencies
    → Kept p.store p'.store
    → Ran c (suc place) before p' p''
    → Ran c place before p p''
Ran-registered c place before p p' p'' fresh start ids previous links kept
      (new, ids', chain, earlier, kept') =
    (
      c.fresh place ∷ new,
      ids' ∙ ap (λ xs. xs ++ new) ids ∙ append-cons p.result.sbi_ids (c.fresh place) new,
      (
        earlier place (omega arith)
            ∙ ap (lookup (c.fresh place)) links
            ∙ lookup-linked p.previous_sbi_id (c.fresh place) p.store.dependencies
            ∙ link_at_start p.previous_sbi_id (c.fresh place) p.store.dependencies before start,
        subst (λ x. Chain before p''.store.dependencies x new) previous chain,
      ),
      λ k h.
          earlier k (omega arith)
          ∙ ap (lookup (c.fresh k)) links
          ∙ lookup-linked_other p.previous_sbi_id (c.fresh place) (c.fresh k) p.store.dependencies
              (elim (fresh.differ place k) [
                | inl other ↦ other
                | inr same ↦ ground (arith, h, same)
              ]),
      Kept-trans p.store p'.store p''.store kept kept',
    )

pub register_files-Ran :
    (c : Calls) (opts : Options) (pbi_id : String) (place : ℕ) (before : Dict (List String))
    (files : List String) (p : Progress)
    → Fresh c.fresh
    → opts.dry_run ≡ false
    → (str_eq p.previous_sbi_id "" ≡ true → p.store.dependencies ≡ before)
    → Ran c place before p (register_files c opts pbi_id place files p)
unfolding register_files
register_files-Ran c opts pbi_id place before [] p fresh wet start = (
  [],
  sym (append-nil p.result.sbi_ids),
  tt,
  λ k h. refl,
  record { pbis = refl; bodies = refl; manifests = refl; rows = λ id row. row },
)
register_files-Ran c opts pbi_id place before (file ∷ files) p fresh wet start =
    let p' : Progress = register_file c opts pbi_id place file p in
    elim (register_file-Round c opts pbi_id place file p wet) [
      | inl (ids, previous, links, kept) ↦
          Ran-failed c place before p p' (register_files c opts pbi_id (suc place) files p') ids
            previous links kept
            (register_files-Ran c opts pbi_id (suc place) before files p' fresh wet
              (λ h. links ∙ start (subst (λ x. str_eq x "" ≡ true) previous h)))
      | inr (ids, previous, links, _, kept) ↦
          Ran-registered c place before p p' (register_files c opts pbi_id (suc place) files p')
            fresh start ids previous links kept
            (register_files-Ran c opts pbi_id (suc place) before files p' fresh wet (λ h.
              (let empty = subst (λ x. str_eq x "" ≡ true) previous h in
                let full = fresh.not_empty place in cc)))
    ]

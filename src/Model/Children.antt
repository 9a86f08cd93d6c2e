-- ===== src/Model/Children.antt =====
-- The children of an EPIC are a set: additions and removals of PBIs.
use deespec.Base.{
  ◌≡◌, refl, ◌+◌, ◌⊎◌, inl, inr, String, Bool, true, false, List, [], ◌∷◌, ◌++◌, length,
  length-append, Result, ok, err, Succeeds, any, str_eq, eq_iff, arith, if◌then◌else◌, Bool-cases,
  Result-cases,
}
use deespec.Model.Epic.{
  Epic, EpicError, add_pbi, remove_pbi, without_first, pbi_exists, pbi_missing, pbi_count,
}

-- Whether a list of ids holds this one.
abbrev pub holds : String → List String → Bool
holds id ids = any (λ other. str_eq other id) ids

-- No id stands in the list twice.
abbrev pub NoRepeats : List String → Type 0
NoRepeats [] = Unit
NoRepeats (id ∷ ids) = (holds id ids ≡ false) × NoRepeats ids

holds-append :
    (id j : String) (ids : List String)
    → holds id (ids ++ j ∷ []) ≡ (if str_eq j id then true else holds id ids)
holds-append id j [] = ground arith
holds-append id j (k ∷ ids) = ground (arith, holds-append id j ids)

NoRepeats-append :
    (id : String) (ids : List String)
    → holds id ids ≡ false
    → NoRepeats ids
    → NoRepeats (ids ++ id ∷ [])
NoRepeats-append id [] new distinct = (refl, tt)
NoRepeats-append id (k ∷ ids) new (first, distinct) = (
  ground (arith, holds-append k id ids, eq_iff id k, eq_iff k id),
  NoRepeats-append id ids (ground arith) distinct,
)

-- `AddPBI` fails exactly for a PBI that the EPIC has. Otherwise it adds this PBI and no other, raises
-- the count by one, and keeps the children free of repeats.
pub add_pbi-NoRepeats :
    (e : Epic) (pbi_id other : String)
    → NoRepeats e.pbi_ids
    → (holds pbi_id e.pbi_ids ≡ true) × (add_pbi e pbi_id ≡ err pbi_exists)
      ⊎ (holds pbi_id e.pbi_ids ≡ false)
        × Succeeds
            (λ e'.
              NoRepeats e'.pbi_ids
              × (pbi_count e' ≡ pbi_count e + 1)
              × (holds other e'.pbi_ids
                  ≡ (if str_eq pbi_id other then true else holds other e.pbi_ids)))
            (add_pbi e pbi_id)
unfolding add_pbi pbi_count
add_pbi-NoRepeats e pbi_id other distinct = elim (Bool-cases (holds pbi_id e.pbi_ids)) [
  | inl here ↦ inl (here, simp (here, add_pbi))
  | inr new ↦ inr (
    new,
    rw (new, add_pbi)
        (
          NoRepeats-append pbi_id e.pbi_ids new distinct,
          length-append e.pbi_ids (pbi_id ∷ []),
          holds-append other pbi_id e.pbi_ids,
        ),
  )
]

-- What `without_first` leaves of a list without repeats.
abbrev Removed : String → String → List String → Result EpicError (List String) → Type 0
Removed pbi_id other ids (err e) = (e ≡ pbi_missing) × (holds pbi_id ids ≡ false)
Removed pbi_id other ids (ok rest) =
    (holds pbi_id ids ≡ true)
    × NoRepeats rest
    × (length ids ≡ length rest + 1)
    × (holds other rest ≡ (if str_eq pbi_id other then false else holds other ids))

without_first-Removed :
    (pbi_id other : String) (ids : List String)
    → NoRepeats ids
    → Removed pbi_id other ids (without_first pbi_id ids)
unfolding without_first
without_first-Removed pbi_id other [] distinct = ground arith
without_first-Removed pbi_id other (k ∷ ids) (first, distinct) =
    elim (Bool-cases (str_eq k pbi_id)) [
      | inl same ↦ rw (same, without_first) (found_here same)
      | inr different ↦ elim (Result-cases (without_first pbi_id ids)) [
        | inl (rest, e) ↦
            let others = rw e at (without_first-Removed pbi_id other ids distinct) in
            let own = rw e at (without_first-Removed pbi_id k ids distinct) in
            rw (different, without_first, e) (found_later rest different others own)
        | inr (x, e) ↦
            let none_ = rw e at (without_first-Removed pbi_id other ids distinct) in
            rw (different, without_first, e) (ground (arith, none_))
      ]
    ]
  where
    found_here : str_eq k pbi_id ≡ true → Removed pbi_id other (k ∷ ids) (ok ids)
    found_here same = ground (arith, eq_iff k pbi_id, eq_iff pbi_id other, eq_iff k other)

    found_later :
        (rest : List String)
        → str_eq k pbi_id ≡ false
        → Removed pbi_id other ids (ok rest)
        → Removed pbi_id k ids (ok rest)
        → Removed pbi_id other (k ∷ ids) (ok (k ∷ rest))
    found_later rest different (here, fresh, size, kept) (_, _, _, gone) = (
      ground arith,
      (ground (arith, eq_iff pbi_id k, eq_iff k pbi_id), fresh),
      omega arith,
      ground (arith, eq_iff pbi_id other, eq_iff k other, eq_iff k pbi_id),
    )

-- `RemovePBI` fails exactly for a PBI that the EPIC does not have. Otherwise it removes this PBI and no
-- other, lowers the count by one, and keeps the children free of repeats.
pub remove_pbi-NoRepeats :
    (e : Epic) (pbi_id other : String)
    → NoRepeats e.pbi_ids
    → (holds pbi_id e.pbi_ids ≡ false) × (remove_pbi e pbi_id ≡ err pbi_missing)
      ⊎ (holds pbi_id e.pbi_ids ≡ true)
        × Succeeds
            (λ e'.
              NoRepeats e'.pbi_ids
              × (pbi_count e ≡ pbi_count e' + 1)
              × (holds other e'.pbi_ids
                  ≡ (if str_eq pbi_id other then false else holds other e.pbi_ids)))
            (remove_pbi e pbi_id)
unfolding remove_pbi pbi_count
remove_pbi-NoRepeats e pbi_id other distinct =
    elim (Result-cases (without_first pbi_id e.pbi_ids)) [
      | inl (rest, eq) ↦
          let (here, fresh, size, kept) =
            rw eq at (without_first-Removed pbi_id other e.pbi_ids distinct) in
          inr (here, rw (eq, remove_pbi) (fresh, size, kept))
      | inr (x, eq) ↦
          let (missing, absent) =
            rw eq at (without_first-Removed pbi_id other e.pbi_ids distinct) in
          inl (absent, simp (eq, remove_pbi, missing))
    ]

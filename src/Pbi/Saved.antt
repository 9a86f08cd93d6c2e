-- ===== src/Pbi/Saved.antt =====
-- What is found after a PBI was registered or updated.
use deespec.Base.{
  ℕ, ◌/◌, ◌*◌, ◌≡◌, refl, sym, subst, ◌⊎◌, inl, inr, String, Option, some, none, Result, ok, err,
  str_eq, if◌then◌else◌, Bool-cases, Option-cases, Result-cases,
}
use deespec.Base.Dict.{Dict, lookup, lookup-insert_self}
use deespec.Pbi.Item.{Pbi, validate}
use deespec.Pbi.Store.{
  Store, SaveFailure, works, fails_before_body, fails_at_commit, find_by_id, get_body, save_pbi,
  upsert, as_row, in_rfc3339,
}
use deespec.Pbi.Update.{
  UpdateOptions, UpdateError, apply_updates, saved, save_valid, validation_failed, with_heading,
  register_pbi,
}

-- The start of the second of a time in nanoseconds.
abbrev pub second_of : ℕ → ℕ
second_of time = time / 1000000000 * 1000000000

-- The row of `p` after a save: its times are whole seconds, and created_at is that of the row that
-- was there.
abbrev pub stored : Pbi → Option Pbi → Pbi
stored p (some old) = record p { created_at = old.created_at; updated_at = second_of p.updated_at }
stored p none = record p {
  created_at = second_of p.created_at;
  updated_at = second_of p.updated_at;
}

abbrev pub Found : Pbi → String → Store → Store → Type 0
Found p body s s' =
    (find_by_id none p.id s' ≡ ok (stored p (lookup p.id s.pbis)))
    × (get_body none p.id s' ≡ ok body)

-- A save that fails leaves the rows, and one that returns an id has saved a valid PBI.
abbrev pub SavedAs : Pbi → String → Store → Result UpdateError String × Store → Type 0
SavedAs p body s (err e, s') = s'.pbis ≡ s.pbis
SavedAs p body s (ok id, s') = (id ≡ p.id) × (validate p ≡ ok tt) × Found p body s s'

upsert-lookup :
    (p : Pbi) (rows : Dict Pbi) → lookup p.id (upsert p rows) ≡ some (stored p (lookup p.id rows))
unfolding upsert as_row in_rfc3339
upsert-lookup p rows = elim (Option-cases (lookup p.id rows)) [
  | inl new ↦ rw (new, upsert) (lookup-insert_self p.id (as_row p) rows)
  | inr (old, known) ↦
      rw (known, upsert)
        (lookup-insert_self p.id (record (as_row p) { created_at = old.created_at }) rows)
]

stored-id :
    (p : Pbi) (o : Option Pbi)
    → ◌≡◌ {A = Result String Pbi} (ok (record (stored p o) { id = p.id })) (ok (stored p o))
stored-id p none = refl
stored-id p (some old) = refl

saved-SavedAs :
    (p : Pbi) (body : String) (s : Store) (failure : SaveFailure)
    → validate p ≡ ok tt
    → SavedAs p body s (saved p.id (save_pbi failure p body s))
unfolding saved save_pbi find_by_id get_body
saved-SavedAs p body s works valid = (
  refl,
  valid,
  (
    rw (upsert-lookup p s.pbis, find_by_id) (stored-id p (lookup p.id s.pbis)),
    rw (lookup-insert_self p.id body s.bodies, get_body) refl,
  ),
)
saved-SavedAs p body s (fails_before_body e) valid = refl
saved-SavedAs p body s (fails_at_commit e) valid = refl

save_valid-SavedAs :
    (failure : SaveFailure) (p : Pbi) (body : String) (s : Store)
    → SavedAs p body s (save_valid failure p body s)
unfolding save_valid
save_valid-SavedAs failure p body s = elim (Result-cases (validate p)) [
  | inr (e, bad) ↦
      let same : save_valid failure p body s ≡ (err (validation_failed e), s) =
        simp (bad, save_valid) in
      subst (SavedAs p body s) (sym same) refl
  | inl (tt, good) ↦
      let same : save_valid failure p body s ≡ saved p.id (save_pbi failure p body s) =
        simp (good, save_valid) in
      subst (SavedAs p body s) (sym same) (saved-SavedAs p body s failure good)
]

-- A registration of a PBI that returns an id is of a valid PBI, which is found under this id with
-- the title and the body given (or, without a title, with the id as title and in a heading of the
-- body), its times cut down to whole seconds; any other leaves the rows as they were.
pub register_pbi-SavedAs :
    (failure : SaveFailure) (id : String) (p : Pbi) (body : String) (s : Store)
    → SavedAs
        (record p { id = id; title = if str_eq p.title "" then id else p.title })
        (if str_eq p.title "" then with_heading id body else body)
        s
        (register_pbi failure id p body s)
unfolding register_pbi
register_pbi-SavedAs failure id p body s = elim (Bool-cases (str_eq p.title "")) [
  | inl untitled ↦
      rw (untitled, register_pbi)
        (save_valid-SavedAs failure (record p { id = id; title = id }) (with_heading id body) s)
  | inr titled ↦
      rw (titled, register_pbi) (save_valid-SavedAs failure (record p { id = id }) body s)
]

-- What an update of the PBI with this id returns and leaves.
abbrev pub Updates : String → UpdateOptions → ℕ → Store → Result UpdateError String × Store → Type 0
Updates id opts now s r =
    (((e : UpdateError) × (r.0 ≡ err e)) × (r.1 ≡ s))
    ⊎ ((p : Pbi) × (body : String) × (find_by_id none id s ≡ ok p)
        × (get_body none id s ≡ ok body)
        × SavedAs (apply_updates opts p now) body s r)

-- ===== src/Pbi/Update.antt =====
-- internal/application/usecase/pbi/update_pbi_use_case.go and register_pbi_use_case.go. The id of a new
-- PBI (GenerateID makes it) and the clock are arguments, as are the failures of the repository's calls.
use deespec.Base.{ℕ, String, Option, some, none, Result, ok, err, str_eq, not, if◌then◌else◌}
use deespec.Base.Int.{ℤ}
use deespec.Base.Text.{◌<>◌}
use deespec.Base.Dict.{lookup}
use deespec.Pbi.Item.{Pbi, PbiError, Status, validate}
use deespec.Pbi.Store.{Store, SaveFailure, find_by_id, get_body, save_pbi}

pub record UpdateOptions : Type 0 where
  pub status : Option Status
  pub estimated_story_points : Option ℤ
  pub priority : Option ℤ

pub record UpdateCalls : Type 0 where
  pub checks : Option String
  pub finds : Option String
  pub reads : Option String
  pub saves : SaveFailure

pub data UpdateError : Type 0 where
  not_found : UpdateError
  check_failed load_failed body_failed save_failed : String → UpdateError
  validation_failed : PbiError → UpdateError

abbrev pub given_or {ℓ} : {A : Type ℓ} → Option A → A → A
given_or (some a) old = a
given_or none old = old

unfoldable pub apply_updates : UpdateOptions → Pbi → ℕ → Pbi
apply_updates opts p now = record p {
  status = given_or opts.status p.status;
  estimated_story_points = given_or opts.estimated_story_points p.estimated_story_points;
  priority = given_or opts.priority p.priority;
  updated_at = now;
}

-- The end of both use cases, by the outcome of the save.
unfoldable pub saved : String → Result String (Unit {0}) × Store → Result UpdateError String × Store
saved id (err e, s) = (err (save_failed e), s)
saved id (ok _, s) = (ok id, s)

unfoldable pub save_valid : SaveFailure → Pbi → String → Store → Result UpdateError String × Store
unfolding validate saved save_pbi
save_valid failure p body s = elim (validate p) [
  | err e ↦ (err (validation_failed e), s)
  | ok _ ↦ saved p.id (save_pbi failure p body s)
]

-- The body is read and saved again. The result holds the id, which the source does not return.
unfoldable pub update_pbi_metadata :
    UpdateCalls → String → UpdateOptions → ℕ → Store → Result UpdateError String × Store
unfolding find_by_id get_body apply_updates save_valid
update_pbi_metadata c id opts now s = elim c.checks [
  | some e ↦ (err (check_failed e), s)
  | none ↦ elim (lookup id s.pbis) [
    | none ↦ (err not_found, s)
    | some _ ↦ elim (find_by_id c.finds id s) [
      | err e ↦ (err (load_failed e), s)
      | ok p ↦ elim (get_body c.reads id s) [
        | err e ↦ (err (body_failed e), s)
        | ok body ↦ save_valid c.saves (apply_updates opts p now) body s
      ]
    ]
  ]
]

-- A body for a PBI that is registered without a title.
unfoldable pub with_heading : String → String → String
with_heading id body =
    if not (str_eq body "") then "# " <> id <> "\n\n" <> body else "# " <> id <> "\n"

unfoldable pub register_pbi :
    SaveFailure → String → Pbi → String → Store → Result UpdateError String × Store
unfolding save_valid with_heading
register_pbi failure id p body s =
    if str_eq p.title ""
    then save_valid failure (record p { id = id; title = id }) (with_heading id body) s
    else save_valid failure (record p { id = id }) body s

-- ===== src/Pbi/Register.antt =====
-- internal/application/usecase/pbi/register_sbis_use_case.go: the approved SBIs of a PBI become rows,
-- each depending on the one before. Calls.parse is ParseSBIFile of a file of the PBI, Calls.fresh the
-- id that NewSBI makes for the file at a place of the list; the other fields say how a call fails.
use deespec.Base.{
  ℕ, suc, String, Bool, true, false, not, Option, some, none, List, [], ◌∷◌, ◌++◌, map, Result, ok,
  err, length, ◌+◌, ltb, str_eq, if◌then◌else◌,
}
use deespec.Base.Int.{ℤ, pos}
use deespec.Model.Task.{TaskError}
use deespec.Model.Value.{new_task_id_from_string}
use deespec.Model.Sbi.{Sbi, SbiMetadata, new_sbi, add_dependency}
use deespec.Pbi.Item
use deespec.Pbi.Item.{Pbi, PbiError, update_pbi_status}
use deespec.Pbi.Store.{
  Store, SaveFailure, find_by_id, save_pbi, load_manifest, save_manifest, save_dependencies,
}
use deespec.Base.Dict.{insert}

pub record SbiSpec : Type 0 where
  pub title : String
  pub body : String
  pub parent_pbi_id : String
  pub sequence : ℤ

pub record Options : Type 0 where
  pub dry_run : Bool
  pub force : Bool

pub record Calls : Type 0 where
  pub parse : String → Result String SbiSpec
  pub fresh : ℕ → String
  pub now : ℕ
  pub finds : Option String
  pub loads : Option String
  pub saves_sbi : ℕ → Option String
  pub saves_dependencies : ℕ → Option String
  pub finds_again : Option String
  pub saves_pbi : SaveFailure
  pub loads_again : Option String
  pub saves_manifest : Option String

pub data SbiError : Type 0 where
  parse_failed : String → SbiError
  parent_mismatch invalid_pbi_id : SbiError
  create_failed : TaskError → SbiError
  save_failed dependencies_failed : String → SbiError

pub data RegisterError : Type 0 where
  pbi_not_found manifest_not_loaded find_again_failed pbi_not_saved : String → RegisterError
  manifest_not_updated : String → RegisterError
  already_registered no_approved_sbis all_failed : RegisterError
  status_not_updated : PbiError → RegisterError

pub record RegisterResult : Type 0 where
  pub registered_count : ℕ
  pub skipped_count : ℕ
  pub sbi_ids : List String
  pub errors : List (String × SbiError)

pub record RegisteredInfo : Type 0 where
  pub id : String
  pub sequence : ℤ
  pub file_path : String

-- The local variables of Execute, and the store.
pub record Progress : Type 0 where
  pub result : RegisterResult
  pub registered_sbis : List RegisteredInfo
  pub previous_sbi_id : String
  pub store : Store

abbrev pub sbi_metadata : SbiSpec → ℕ → SbiMetadata
sbi_metadata spec now = record {
  priority = pos 0;
  sequence = spec.sequence;
  registered_at = now;
  started_at = none;
  completed_at = none;
  labels = [];
  assigned_agent = "claude-code";
  file_paths = [];
  depends_on = [];
  only_implement = false;
}

unfoldable pub with_previous : String → Sbi → Sbi
unfolding add_dependency
with_previous previous s = if not (str_eq previous "") then add_dependency s previous else s

module _ (c : Calls) (opts : Options) where
  -- The last step: the dependencies are saved where there are any.
  unfoldable pub save_links : ℕ → Sbi → Store → Result SbiError String × Store
  unfolding save_dependencies
  save_links place s store =
      if ltb 0 (length s.metadata.depends_on)
      then elim (c.saves_dependencies place) [
        | some e ↦ (err (dependencies_failed e), store)
        | none ↦ (ok s.id, save_dependencies s.id s.metadata.depends_on store)
      ]
      else (ok s.id, store)

  unfoldable pub save_sbi : ℕ → Sbi → Store → Result SbiError String × Store
  unfolding save_links
  save_sbi place s store = elim opts.dry_run [
    | true ↦ (ok s.id, store)
    | false ↦ elim (c.saves_sbi place) [
      | some e ↦ (err (save_failed e), store)
      | none ↦ save_links place s (record store { sbis = insert s.id s store.sbis })
    ]
  ]

  unfoldable pub register_single_sbi :
      String → ℕ → SbiSpec → String → Store → Result SbiError String × Store
  unfolding save_sbi with_previous new_sbi new_task_id_from_string
  register_single_sbi pbi_id place spec previous store =
      if not (str_eq spec.parent_pbi_id pbi_id)
      then (err parent_mismatch, store)
      else elim (new_task_id_from_string pbi_id) [
        | err e ↦ (err invalid_pbi_id, store)
        | ok parent ↦
            elim (new_sbi spec.title spec.body (some parent) (sbi_metadata spec c.now)
              (c.fresh place) c.now) [
                | err e ↦ (err (create_failed e), store)
                | ok s ↦ save_sbi place (with_previous previous s) store
              ]
      ]

  unfoldable pub add_error : String → SbiError → Progress → Progress
  add_error file e p = record p {
    result = record p.result { errors = p.result.errors ++ (file, e) ∷ [] };
  }

  -- The rest of a round, by the outcome of the registration.
  unfoldable pub track : String → SbiSpec → Result SbiError String × Store → Progress → Progress
  unfolding add_error
  track file spec (err e, store) p = add_error file e (record p { store = store })
  track file spec (ok sbi_id, store) p = record {
    result = record p.result {
      sbi_ids = p.result.sbi_ids ++ sbi_id ∷ [];
      registered_count = p.result.registered_count + 1;
    };
    registered_sbis =
        p.registered_sbis
        ++ (record { id = sbi_id; sequence = spec.sequence; file_path = file }) ∷ [];
    previous_sbi_id = sbi_id;
    store = store;
  }

  unfoldable pub register_file : String → ℕ → String → Progress → Progress
  unfolding track register_single_sbi
  register_file pbi_id place file p = elim (c.parse file) [
    | err e ↦ add_error file (parse_failed e) p
    | ok spec ↦ track file spec (register_single_sbi pbi_id place spec p.previous_sbi_id p.store) p
  ]

  unfoldable pub register_files : String → ℕ → List String → Progress → Progress
  unfolding register_file
  register_files pbi_id place [] p = p
  register_files pbi_id place (file ∷ files) p =
      register_files pbi_id (suc place) files (register_file pbi_id place file p)

  unfoldable pub update_approval_manifest :
      String → List RegisteredInfo → Store → Result String (Unit {0}) × Store
  unfolding load_manifest save_manifest
  update_approval_manifest pbi_id infos store = elim (load_manifest c.loads_again pbi_id store) [
    | err e ↦ (err e, store)
    | ok m ↦
        save_manifest c.saves_manifest
          (record m {
            registered = true;
            registered_at = some c.now;
            registered_sbis = map (λ (info : RegisteredInfo). info.id) infos;
          })
          store
  ]

  -- The end of the status update, by the outcome of the save.
  unfoldable pub after_save : Result String (Unit {0}) × Store → Option RegisterError × Store
  after_save (err e, store) = (some (pbi_not_saved e), store)
  after_save (ok _, store) = (none, store)

  -- The body given to the save is empty.
  unfoldable pub mark_planed : String → Store → Option RegisterError × Store
  unfolding find_by_id update_pbi_status save_pbi after_save
  mark_planed pbi_id store = elim (find_by_id c.finds_again pbi_id store) [
    | err e ↦ (some (find_again_failed e), store)
    | ok p ↦ elim (update_pbi_status p Item.planed c.now) [
      | err e ↦ (some (status_not_updated e), store)
      | ok planed ↦ after_save (save_pbi c.saves_pbi planed "" store)
    ]
  ]

-- ===== src/Pbi/Execute.antt =====
-- Execute of internal/application/usecase/pbi/register_sbis_use_case.go, around the loop of Register.
use deespec.Base.{
  zero, String, true, false, not, ◌&&◌, Option, some, none, List, [], ◌∷◌, Result, ok, err, length,
  ◌==◌, ltb, if◌then◌else◌,
}
use deespec.Pbi.Approval.{get_approved_sbis}
use deespec.Pbi.Store.{Store, find_by_id, load_manifest}
use deespec.Pbi.Register.{
  Calls, Options, Progress, RegisterResult, RegisterError, pbi_not_found, manifest_not_loaded,
  already_registered, no_approved_sbis, all_failed, manifest_not_updated, register_files,
  mark_planed, update_approval_manifest,
}

-- The result that Execute returns (nil is `none`), its error, and the store.
pub record Outcome : Type 0 where
  pub result : Option RegisterResult
  pub error : Option RegisterError
  pub store : Store

abbrev pub at_start : Store → Progress
at_start store = record {
  result = record { registered_count = 0; skipped_count = 0; sbi_ids = []; errors = [] };
  registered_sbis = [];
  previous_sbi_id = "";
  store = store;
}

module _ (c : Calls) (opts : Options) where
  -- The end of Execute, by the outcome of the save of the manifest.
  unfoldable pub conclude_registration : RegisterResult → Result String (Unit {0}) × Store → Outcome
  conclude_registration result (err e, store) = record {
    result = some result;
    error = some (manifest_not_updated e);
    store = store;
  }
  conclude_registration result (ok _, store) = record {
    result = some result;
    error = none;
    store = store;
  }

  unfoldable pub record_registration : String → Progress → Store → Outcome
  unfolding update_approval_manifest conclude_registration
  record_registration pbi_id p store =
      conclude_registration p.result
        (update_approval_manifest c opts pbi_id p.registered_sbis store)

  unfoldable pub after_planed : String → Progress → Option RegisterError × Store → Outcome
  unfolding record_registration
  after_planed pbi_id p (some e, store) = record {
    result = some p.result;
    error = some e;
    store = store;
  }
  after_planed pbi_id p (none, store) = record_registration pbi_id p store

  -- With a registered SBI the PBI's status is updated first.
  unfoldable pub update_pbi : String → Progress → Outcome
  unfolding mark_planed record_registration after_planed
  update_pbi pbi_id p =
      if ltb 0 p.result.registered_count
      then after_planed pbi_id p (mark_planed c opts pbi_id p.store)
      else record_registration pbi_id p p.store

  unfoldable pub finish_registration : String → Progress → Outcome
  unfolding update_pbi
  finish_registration pbi_id p =
      if ltb 0 (length p.result.errors) && (p.result.registered_count == 0)
      then record { result = some p.result; error = some all_failed; store = p.store }
      else elim opts.dry_run [
        | true ↦ record { result = some p.result; error = none; store = p.store }
        | false ↦ update_pbi pbi_id p
      ]

  unfoldable pub register_approved : String → List String → Store → Outcome
  unfolding finish_registration register_files
  register_approved pbi_id [] store = record {
    result = none;
    error = some no_approved_sbis;
    store = store;
  }
  register_approved pbi_id (file ∷ files) store =
      finish_registration pbi_id (register_files c opts pbi_id zero (file ∷ files) (at_start store))

  unfoldable pub execute : String → Store → Outcome
  unfolding find_by_id load_manifest register_approved get_approved_sbis
  execute pbi_id store = elim (find_by_id c.finds pbi_id store) [
    | err e ↦ record { result = none; error = some (pbi_not_found e); store = store }
    | ok _ ↦ elim (load_manifest c.loads pbi_id store) [
      | err e ↦ record { result = none; error = some (manifest_not_loaded e); store = store }
      | ok m ↦
          if m.registered && not opts.force
          then record { result = none; error = some already_registered; store = store }
          else register_approved pbi_id (get_approved_sbis m) store
    ]
  ]

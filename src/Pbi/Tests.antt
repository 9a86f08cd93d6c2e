-- ===== src/Pbi/Tests.antt =====
-- The theorems about product backlog items at concrete inputs.
use Prim.Native.String
use text.Mathlib.Text.{is_eq}
use deespec.Base.{
  ℕ, ap, ◌∙◌, ◌≡◌, ◌⊎◌, inl, inr, refl, String, true, false, some, none, [], ◌∷◌, Result, ok, err,
  str_eq, if◌then◌else◌, length, arith, suc, zero,
}
use deespec.Base.Int.{pos}
use deespec.Base.Dict.{lookup, insert, delete}
use deespec.Pbi.Item
use deespec.Pbi.Item.{Pbi, update_pbi_status}
use deespec.Pbi.Approval
use deespec.Pbi.Approval.{
  ApprovalRecord, ApprovalManifest, new_approval_record, new_approval_manifest, get_approved_sbis,
  files_where, get_pending_sbis, approved_count, pending_count, rejected_count,
}
use deespec.Pbi.Approvals.{new_approval_manifest-pending}
use deespec.Pbi.Store.{
  Store, works, find_by_id, load_manifest, save_manifest, save_pbi, upsert, save_dependencies,
}
use deespec.Pbi.Register.{
  register_files, register_file, track, add_error, register_single_sbi, save_sbi, save_links,
  with_previous, update_approval_manifest, after_save, mark_planed, Calls, Options, SbiSpec,
  RegisterResult, RegisterError,
}
use deespec.Pbi.Execute.{
  execute, register_approved, finish_registration, update_pbi, after_planed, record_registration,
  conclude_registration,
}
use deespec.Model.Sbi.{new_sbi, add_dependency}
use deespec.Model.Task.{new_base_task}
use deespec.Model.Value.{new_turn, new_attempt, is_valid_type, new_task_id_from_string}
use deespec.Pbi.Chained.{Fresh, Chain}
use deespec.Pbi.Outcomes.{Finished, execute_outcome, execute-Chain}
use deespec.Pbi.Update.{UpdateOptions, UpdateCalls, register_pbi}
use deespec.Pbi.Saved.{SavedAs, register_pbi-SavedAs}

abbrev item : Pbi
item = record {
  id = "PBI-1";
  title = "Search";
  status = Item.planning;
  estimated_story_points = pos 5;
  priority = pos 1;
  parent_epic_id = "";
  created_at = 1;
  updated_at = 2;
}

abbrev file : String → Approval.ApprovalStatus → ApprovalRecord
file name status = record (new_approval_record name) { status = status }

abbrev manifest : ApprovalManifest
manifest = record (new_approval_manifest "PBI-1" [] 3) {
  total_sbis = 4;
  sbis =
      file "sbi_1.md" Approval.approved
      ∷ file "sbi_2.md" Approval.rejected
      ∷ file "sbi_3.md" Approval.edited
      ∷ file "sbi_4.md" (Approval.other "later")
      ∷ [];
}

abbrev store : Store
store = record {
  pbis = ("PBI-1", item) ∷ [];
  bodies = ("PBI-1", "# Search") ∷ [];
  manifests = ("PBI-1", manifest) ∷ [];
  sbis = [];
  dependencies = [];
}

abbrev spec : String → Result String SbiSpec
spec name = ok (record { title = name; body = "Do it."; parent_pbi_id = "PBI-1"; sequence = pos 1 })

-- A stroke for each place, and one more.
abbrev strokes : ℕ → String
strokes zero = ""
strokes (suc n) = String.◌∷◌ "|" (strokes n)

abbrev stroke_id : ℕ → String
stroke_id n = strokes (suc n)

empty-strokes : (j : ℕ) → str_eq "" (stroke_id j) ≡ false
empty-strokes j = ap is_eq (λ i. String.compare.nil-cons "|" (strokes j) i)

strokes-empty : (j : ℕ) → str_eq (stroke_id j) "" ≡ false
strokes-empty j = ap is_eq (λ i. String.compare.cons-nil "|" (strokes j) i)

strokes-differ : (i j : ℕ) → (str_eq (strokes i) (strokes j) ≡ false) ⊎ (i ≡ j)
strokes-differ zero zero = inr refl
strokes-differ zero (suc j) = inl (empty-strokes j)
strokes-differ (suc i) zero = inl (strokes-empty i)
strokes-differ (suc i) (suc j) = elim (strokes-differ i j) [
  | inl other ↦
      inl (ap is_eq (λ k. String.compare.cons-cons "|" "|" (strokes i) (strokes j) k) ∙ other)
  | inr same ↦ inr (omega (arith, same))
]

stroke_id-Fresh : Fresh stroke_id
stroke_id-Fresh = record {
  not_empty = strokes-empty;
  differ = λ i j. elim (strokes-differ (suc i) (suc j)) [
    | inl other ↦ inl other
    | inr same ↦ inr (omega (arith, same))
  ];
}

-- The third file cannot be parsed.
abbrev calls : Calls
calls = record {
  parse = λ name. if str_eq name "sbi_9.md" then err "no H1 title found" else spec name;
  fresh = stroke_id;
  now = 9;
  finds = none;
  loads = none;
  saves_sbi = λ place. none;
  saves_dependencies = λ place. none;
  finds_again = none;
  saves_pbi = works;
  loads_again = none;
  saves_manifest = none;
}

abbrev wet : Options
wet = record { dry_run = false; force = false }

abbrev dry : Options
dry = record { dry_run = true; force = false }

unfoldable whole_registration : Unit {0}
unfolding execute register_approved finish_registration update_pbi after_planed record_registration
    conclude_registration register_files register_file track add_error register_single_sbi save_sbi
    save_links with_previous update_approval_manifest after_save mark_planed find_by_id
    load_manifest save_manifest save_pbi upsert save_dependencies get_approved_sbis files_where
    new_sbi new_base_task new_turn new_attempt is_valid_type add_dependency new_task_id_from_string
    Item.is_valid update_pbi_status lookup insert delete
whole_registration = tt

abbrev registered : RegisterResult
registered = record {
  registered_count = 2;
  skipped_count = 0;
  sbi_ids = "|" ∷ "||" ∷ [];
  errors = [];
}

execute_registers : (execute calls wet "PBI-1" store).result ≡ some registered
unfolding whole_registration new_approval_manifest
execute_registers = refl

-- The text of the PBI is lost.
execute_empties_body : lookup "PBI-1" (execute calls wet "PBI-1" store).store.bodies ≡ some ""
unfolding whole_registration new_approval_manifest
execute_empties_body = refl

execute_outcome_example :
    ((execute calls wet "PBI-1" store).result ≡ none)
      × ((e : RegisterError) × ((execute calls wet "PBI-1" store).error ≡ some e))
      × ((execute calls wet "PBI-1" store).store ≡ store)
    ⊎ ((m : ApprovalManifest) × (r : RegisterResult) × (lookup "PBI-1" store.manifests ≡ some m)
        × ((execute calls wet "PBI-1" store).result ≡ some r)
        × Finished calls wet "PBI-1"
            (length (get_approved_sbis m))
            store
            (execute calls wet "PBI-1" store)
            r)
execute_outcome_example = execute_outcome calls wet "PBI-1" store

execute-Chain_example :
    Chain store.dependencies
      (execute calls wet "PBI-1" store).store.dependencies
      ""
      ("|" ∷ "||" ∷ [])
execute-Chain_example =
    execute-Chain calls wet "PBI-1" store registered stroke_id-Fresh refl execute_registers

new_approval_manifest-pending_example :
    (get_pending_sbis (new_approval_manifest "PBI-1" ("a.md" ∷ "b.md" ∷ []) 3)
      ≡ "a.md" ∷ "b.md" ∷ [])
    × (get_approved_sbis (new_approval_manifest "PBI-1" ("a.md" ∷ "b.md" ∷ []) 3) ≡ [])
    × ((new_approval_manifest "PBI-1" ("a.md" ∷ "b.md" ∷ []) 3).total_sbis
        ≡ pending_count (new_approval_manifest "PBI-1" ("a.md" ∷ "b.md" ∷ []) 3))
new_approval_manifest-pending_example =
    new_approval_manifest-pending "PBI-1" ("a.md" ∷ "b.md" ∷ []) 3

abbrev options : UpdateOptions
options = record {
  status = some Item.planed;
  estimated_story_points = none;
  priority = some (pos 2);
}

abbrev update_calls : UpdateCalls
update_calls = record { checks = none; finds = none; reads = none; saves = works }

register_pbi-SavedAs_example :
    SavedAs
      (record item { id = "PBI-2" })
      "# Search"
      store
      (register_pbi works "PBI-2" item "# Search" store)
register_pbi-SavedAs_example = register_pbi-SavedAs works "PBI-2" item "# Search" store

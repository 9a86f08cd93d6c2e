-- ===== src/Pbi/Store.antt =====
-- internal/infrastructure/persistence/pbi_sqlite_repository.go (Save, FindByID, GetBody), the manifests
-- of internal/infrastructure/repository/sbi_approval_repository_impl.go, and the rows that the
-- registration of SBIs writes, as maps. How a call fails is an argument.
use deespec.Base.{ℕ, ◌/◌, ◌*◌, String, Option, some, none, List, Result, ok, err}
use deespec.Base.Dict.{Dict, lookup, insert}
use deespec.Model.Sbi.{Sbi}
use deespec.Pbi.Item.{Pbi}
use deespec.Pbi.Approval.{ApprovalManifest}

pub record Store : Type 0 where
  pub pbis : Dict Pbi
  pub bodies : Dict String
  pub manifests : Dict ApprovalManifest
  pub sbis : Dict Sbi
  pub dependencies : Dict (List String)

-- A save fails before the body is written, or at the commit after it.
pub data SaveFailure : Type 0 where
  works : SaveFailure
  fails_before_body fails_at_commit : String → SaveFailure

-- A time that is formatted with RFC3339 and parsed again: the nanoseconds of its second are lost.
unfoldable pub in_rfc3339 : ℕ → ℕ
in_rfc3339 time = time / 1000000000 * 1000000000

-- What the row of a PBI is read back as.
unfoldable pub as_row : Pbi → Pbi
unfolding in_rfc3339
as_row p = record p { created_at = in_rfc3339 p.created_at; updated_at = in_rfc3339 p.updated_at }

-- The statement keeps created_at of a row that exists.
unfoldable pub upsert : Pbi → Dict Pbi → Dict Pbi
unfolding as_row
upsert p rows = elim (lookup p.id rows) [
  | none ↦ insert p.id (as_row p) rows
  | some old ↦ insert p.id (record (as_row p) { created_at = old.created_at }) rows
]

unfoldable pub save_pbi : SaveFailure → Pbi → String → Store → Result String (Unit {0}) × Store
unfolding upsert
save_pbi works p body s =
    (ok tt, record s { pbis = upsert p s.pbis; bodies = insert p.id body s.bodies })
save_pbi (fails_before_body e) p body s = (err e, s)
save_pbi (fails_at_commit e) p body s = (err e, record s { bodies = insert p.id body s.bodies })

abbrev pub found {ℓ} : {A : Type ℓ} → String → Option A → Result String A
found missing none = err missing
found missing (some a) = ok a

-- The first argument is a failure of the database.
unfoldable pub find_by_id : Option String → String → Store → Result String Pbi
find_by_id (some e) id s = err e
find_by_id none id s = elim (lookup id s.pbis) [
  | none ↦ err "PBI not found"
  | some p ↦ ok (record p { id = id })
]

unfoldable pub get_body : Option String → String → Store → Result String String
get_body (some e) id s = err e
get_body none id s = found "failed to read Markdown file" (lookup id s.bodies)

unfoldable pub load_manifest : Option String → String → Store → Result String ApprovalManifest
load_manifest (some e) id s = err e
load_manifest none id s = found "approval manifest not found" (lookup id s.manifests)

unfoldable pub save_manifest :
    Option String → ApprovalManifest → Store → Result String (Unit {0}) × Store
save_manifest (some e) m s = (err e, s)
save_manifest none m s = (ok tt, record s { manifests = insert m.pbi_id m s.manifests })

-- SaveDependencies of internal/infrastructure/persistence/sqlite/sbi_repository_impl.go.
unfoldable pub save_dependencies : String → List String → Store → Store
save_dependencies sbi_id depends_on s = record s {
  dependencies = insert sbi_id depends_on s.dependencies;
}

-- ===== src/Model/Epic.antt =====
-- internal/domain/model/epic/epic.go: an EPIC and its PBIs. Its metadata is not read by the methods
-- here and left out.
use deespec.Base.{
  ℕ, String, Bool, not, none, List, [], ◌∷◌, ◌++◌, length, Result, ok, err, ◌>>=◌, any, str_eq, ltb,
  if◌then◌else◌,
}
use deespec.Model.Status.{Status}
use deespec.Model.Task.{BaseTask, TaskError, new_base_task, update_status}
use deespec.Model.Value.{TaskType}

pub record Epic : Type 0 where
  pub base : BaseTask
  pub pbi_ids : List String

pub data EpicError : Type 0 where
  pbi_exists pbi_missing : EpicError

unfoldable pub new_epic : String → String → String → ℕ → Result TaskError Epic
unfolding new_base_task
new_epic title description id now = do
  base ← new_base_task TaskType.epic title description none id now
  ok (record { base = base; pbi_ids = [] })

unfoldable pub update_epic_status : Epic → Status → ℕ → Result TaskError Epic
unfolding update_status
update_epic_status e new_status now = do
  base ← update_status e.base new_status now
  ok (record e { base = base })

unfoldable pub add_pbi : Epic → String → Result EpicError Epic
add_pbi e pbi_id =
    if any (λ id. str_eq id pbi_id) e.pbi_ids
    then err pbi_exists
    else ok (record e { pbi_ids = e.pbi_ids ++ pbi_id ∷ [] })

-- The list without its first entry that is the id, or an error.
unfoldable pub without_first : String → List String → Result EpicError (List String)
without_first pbi_id [] = err pbi_missing
without_first pbi_id (id ∷ ids) =
    let rest = without_first pbi_id ids in
    if str_eq id pbi_id then ok ids else elim rest [ err e ↦ err e | ok others ↦ ok (id ∷ others) ]

unfoldable pub remove_pbi : Epic → String → Result EpicError Epic
unfolding without_first
remove_pbi e pbi_id = elim (without_first pbi_id e.pbi_ids) [
  | err failure ↦ err failure
  | ok others ↦ ok (record e { pbi_ids = others })
]

unfoldable pub has_pbis : Epic → Bool
has_pbis e = ltb 0 (length e.pbi_ids)

unfoldable pub pbi_count : Epic → ℕ
pbi_count e = length e.pbi_ids

unfoldable pub can_delete_epic : Epic → Bool
unfolding has_pbis
can_delete_epic e = not (has_pbis e)

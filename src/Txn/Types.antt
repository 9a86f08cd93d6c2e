-- ===== src/Txn/Types.antt =====
-- internal/infra/fs/txn/types.go and checksum.go: transactions, their manifests and checksums. The
-- algorithm of a checksum is always sha256, as `StageFile` makes it.
use deespec.Base.{
  ℕ, String, Bool, true, false, not, ◌&&◌, ◌||◌, Option, none, some, List, [], ◌∷◌, str_eq, ◌==◌,
  if◌then◌else◌,
}
use deespec.Base.Dict.{Dict}

pub data Status : Type 0 where
  pending intent commit aborted failed : Status

-- Go's `==` on the strings.
unfoldable pub same : Status → Status → Bool
same pending pending = true
same intent intent = true
same commit commit = true
same aborted aborted = true
same failed failed = true
same _ _ = false

pub record FileChecksum : Type 0 where
  pub value : String
  pub size : ℕ

unfoldable pub compare_file_checksums : FileChecksum → FileChecksum → Bool
compare_file_checksums a b = str_eq a.value b.value && (a.size == b.size)

pub record FileOperation : Type 0 where
  pub op_type : String
  pub source : String
  pub destination : String
  pub checksum_info : Option FileChecksum

pub record Manifest : Type 0 where
  pub id : String
  pub files : List FileOperation
  pub created_at : Option ℕ

pub data RestoreOp : Type 0 where
  overwrite create : (target_path undo_path : String) → RestoreOp
  delete : (target_path : String) → RestoreOp
  unknown : (op_type : String) → RestoreOp

pub record Transaction : Type 0 where
  pub manifest : Manifest
  pub status : Status
  pub undo : List RestoreOp

-- The directory of one transaction (`stage/`, `undo/`, manifest and markers) and the files under the
-- destination root, each by the path that joins the directory and its name. The commit marker lists
-- the committed files.
pub record Disk : Type 0 where
  pub staged : Dict String
  pub finals : Dict String
  pub backups : Dict String
  pub stage_dir : Bool
  pub saved_manifest : Option Manifest
  pub intent_marker : Bool
  pub commit_marker : Option (List String)

pub data TxnError : Type 0 where
  wrong_status : Status → TxnError
  other_device missing_id no_files no_created_at : TxnError
  missing_type missing_destination missing_source : TxnError
  invalid_type absolute_path escaping_path reserved_path : String → TxnError
  missing_file size_mismatch checksum_mismatch : String → TxnError
  journal_failed : String → TxnError
  no_manifest no_intent no_commit : TxnError

-- Package path/filepath and the prefix test of package strings.
pub record Paths : Type 0 where
  pub is_abs : String → Bool
  pub clean : String → String
  pub has_prefix : String → String → Bool

unfoldable pub validate_path : Paths → String → Option TxnError
validate_path paths path =
    let cleaned = paths.clean path in
    if paths.is_abs path
    then some (absolute_path path)
    else if str_eq cleaned ".." || paths.has_prefix cleaned "../"
    then some (escaping_path path)
    else if paths.has_prefix cleaned ".deespec/" || paths.has_prefix cleaned ".deespec\\"
    then some (reserved_path path)
    else none

unfoldable pub validate_operation : Paths → FileOperation → Option TxnError
unfolding validate_path
validate_operation paths f =
    if str_eq f.op_type ""
    then some missing_type
    else if not (
        str_eq f.op_type "create"
        || str_eq f.op_type "update"
        || str_eq f.op_type "delete"
        || str_eq f.op_type "rename")
    then some (invalid_type f.op_type)
    else if str_eq f.destination ""
    then some missing_destination
    else elim (validate_path paths f.destination) [
      | some e ↦ some e
      | none ↦
          if str_eq f.op_type "rename"
          then if str_eq f.source "" then some missing_source else validate_path paths f.source
          else none
    ]

-- The loop's variable is a copy, so the cleaned paths are lost.
unfoldable pub validate_operations : Paths → List FileOperation → Option TxnError
unfolding validate_operation
validate_operations paths [] = none
validate_operations paths (op ∷ ops) =
    let rest = validate_operations paths ops in
    elim (validate_operation paths op) [ some e ↦ some e | none ↦ rest ]

unfoldable pub validate_manifest : Paths → Manifest → Option TxnError
unfolding validate_operations
validate_manifest paths m = if str_eq m.id "" then some missing_id else elim m.files [
  | [] ↦ some no_files
  | op ∷ ops ↦ elim (validate_operations paths m.files) [
    | some e ↦ some e
    | none ↦ elim m.created_at [ none ↦ some no_created_at | some t ↦ none ]
  ]
]

-- `sum` is the sha256 digest of a content and its number of bytes; `content` is what the file at
-- `path` holds.
unfoldable pub validate_file_checksum :
    (String → FileChecksum) → String → Option String → FileChecksum → Option TxnError
validate_file_checksum sum path none expected = some (missing_file path)
validate_file_checksum sum path (some content) expected =
    if not ((sum content).size == expected.size)
    then some (size_mismatch path)
    else if not (str_eq (sum content).value expected.value)
    then some (checksum_mismatch path)
    else none

-- ===== src/Txn/Rollback.antt =====
-- internal/infra/fs/txn/transaction.go: rollback and cleanup of a transaction. The operating system's
-- failures other than a missing file are left out.
use deespec.Base.{false, not, ◌||◌, Option, none, some, List, [], ◌∷◌, if◌then◌else◌}
use deespec.Base.Dict.{lookup, insert, delete}
use deespec.Txn.Types
use deespec.Txn.Types.{
  Status, FileChecksum, FileOperation, Manifest, RestoreOp, Transaction, Disk, TxnError, Paths,
  wrong_status, other_device, missing_file, journal_failed, no_commit, compare_file_checksums,
  validate_file_checksum, validate_manifest,
}

-- The removal of the transaction's directory.
abbrev pub remove_all : Disk → Disk
remove_all disk = record disk {
  staged = [];
  backups = [];
  stage_dir = false;
  saved_manifest = none;
  intent_marker = false;
  commit_marker = none;
}

unfoldable pub perform_restore : Disk → RestoreOp → Disk
perform_restore disk (RestoreOp.overwrite target undo) = elim (lookup undo disk.backups) [
  | none ↦ disk
  | some content ↦ record disk {
    finals = insert target content disk.finals;
    backups = delete undo disk.backups;
  }
]
perform_restore disk (RestoreOp.create target undo) = elim (lookup undo disk.backups) [
  | none ↦ disk
  | some content ↦ record disk {
    finals = insert target content disk.finals;
    backups = delete undo disk.backups;
  }
]
perform_restore disk (RestoreOp.delete target) = record disk { finals = delete target disk.finals }
perform_restore disk (RestoreOp.unknown op_type) = disk

unfoldable pub restore_all : Disk → List RestoreOp → Disk
unfolding perform_restore
restore_all disk [] = disk
restore_all disk (op ∷ ops) = restore_all (perform_restore disk op) ops

unfoldable pub rollback : Transaction → Disk → Transaction × Disk × Option TxnError
unfolding Types.same restore_all
rollback tx disk =
    if Types.same tx.status Status.commit
    then (tx, disk, some (wrong_status tx.status))
    else (record tx { status = Status.aborted }, remove_all (restore_all disk tx.undo), none)

unfoldable pub cleanup : Transaction → Disk → Disk × Option TxnError
unfolding Types.same
cleanup tx disk =
    if not (Types.same tx.status Status.commit || Types.same tx.status Status.aborted)
    then (disk, some (wrong_status tx.status))
    else (remove_all disk, none)

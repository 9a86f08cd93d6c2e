-- ===== src/Txn/Recovery.antt =====
-- internal/infra/fs/txn/scanner.go and recovery.go: what a start finds in a transaction's directory,
-- and how it goes on. A recovery that dies is again a crash; retries and timeouts are left out.
use deespec.Base.{ℕ, String, Bool, true, false, ◌||◌, Option, none, some, [], if◌then◌else◌}
use deespec.Txn.Types.{Status, FileChecksum, Disk, TxnError, no_manifest, no_intent, no_commit}
use deespec.Txn.Manager.{Committed, failed, commit_files}
use deespec.Txn.Rollback.{remove_all}

pub data State : Type 0 where
  committed intent_only incomplete abandoned : State

abbrev pub has_manifest : Disk → Bool
has_manifest disk = elim disk.saved_manifest [ none ↦ false | some m ↦ true ]

-- The scan comes here only for a directory that exists: not after a rollback or a cleanup, which
-- remove it.
unfoldable pub check_transaction_state : Disk → State
check_transaction_state disk = elim disk.commit_marker [
  | some files ↦ committed
  | none ↦
      if disk.intent_marker
      then intent_only
      else if has_manifest disk || disk.stage_dir
      then incomplete
      else abandoned
]

module _ {J : Type 0} where
  -- The journal callback only logs a warning.
  abbrev pub warn_only : J → J × Option String
  warn_only journal = (journal, none)

  unfoldable pub recover_transaction : (String → FileChecksum) → Bool → ℕ → Disk → J → Committed J
  unfolding commit_files
  recover_transaction sum same_device budget disk journal = elim disk.saved_manifest [
    | none ↦ record {
      status = Status.intent;
      disk = disk;
      journal = journal;
      outcome = failed no_manifest;
    }
    | some manifest ↦
        if disk.intent_marker
        then commit_files sum same_device
            (record { manifest = manifest; status = Status.intent; undo = [] }) (some warn_only)
            budget disk journal
        else record {
          status = Status.intent;
          disk = disk;
          journal = journal;
          outcome = failed no_intent;
        }
  ]

unfoldable pub cleanup_transaction : Disk → Disk × Option TxnError
cleanup_transaction disk = elim disk.commit_marker [
  | none ↦ (disk, some no_commit)
  | some files ↦ (remove_all disk, none)
]

-- ===== src/Txn/Manager.antt =====
-- internal/infra/fs/txn/transaction.go: the manager of transactions. The operating system's failures
-- other than a missing file are left out; instead the process can die between two writes. The type
-- `J` is the state of the journal, which the caller's callback appends to.
use deespec.Base.{
  ℕ, zero, suc, String, Bool, true, false, not, Option, none, some, List, [], ◌∷◌, ◌++◌,
  if◌then◌else◌,
}
use deespec.Base.Dict.{lookup, insert, delete}
use deespec.Txn.Types
use deespec.Txn.Types.{
  Status, FileChecksum, FileOperation, Manifest, RestoreOp, Transaction, Disk, TxnError, Paths,
  wrong_status, other_device, missing_file, journal_failed, no_commit, compare_file_checksums,
  validate_file_checksum, validate_manifest,
}

-- A call came to its end, gave an error, or the process died in it.
pub data Outcome : Type 0 where
  finished crashed : Outcome
  failed : TxnError → Outcome

unfoldable pub begin : String → ℕ → Disk → Transaction × Disk
begin id now disk =
    let manifest : Manifest = record { id = id; files = []; created_at = some now } in
    (
      record { manifest = manifest; status = Status.pending; undo = [] },
      record disk {
        staged = [];
        backups = [];
        stage_dir = true;
        saved_manifest = some manifest;
        intent_marker = false;
        commit_marker = none;
      },
    )

-- os.Rename of the staged file.
unfoldable pub rename : FileOperation → String → Disk → Disk
rename op content disk = record disk {
  staged = delete op.destination disk.staged;
  finals = insert op.destination content disk.finals;
}

module _ (sum : String → FileChecksum) where
  -- The transaction, the disk, and the error. `dst` stands for the cleaned path, as filepath.Join
  -- makes it.
  unfoldable pub stage_file :
      Transaction → String → String → Disk → Transaction × Disk × Option TxnError
  unfolding Types.same validate_file_checksum
  stage_file tx dst content disk =
      if not (Types.same tx.status Status.pending)
      then (tx, disk, some (wrong_status tx.status))
      else let disk' = record disk { staged = insert dst content disk.staged } in
        elim (validate_file_checksum sum dst (lookup dst disk'.staged) (sum content)) [
          | some e ↦ (tx, disk', some e)
          | none ↦
              let op : FileOperation = record {
                op_type = "create";
                source = "";
                destination = dst;
                checksum_info = some (sum content);
              } in
              let manifest : Manifest = record tx.manifest {
                files = tx.manifest.files ++ op ∷ [];
              } in
              (
                record tx { manifest = manifest },
                record disk' { saved_manifest = some manifest },
                none,
              )
        ]

  -- Phase 1. The parallel form reads the same files; which error it reports is up to the order of a
  -- map.
  unfoldable pub validate_staged : List FileOperation → Disk → Option TxnError
  unfolding validate_file_checksum
  validate_staged [] disk = none
  validate_staged (op ∷ ops) disk =
      let rest = validate_staged ops disk in
      elim op.checksum_info [
        | none ↦ rest
        | some expected ↦
            elim (validate_file_checksum sum op.destination (lookup op.destination disk.staged)
              expected) [ some e ↦ some e | none ↦ rest ]
      ]

  -- The verification after a rename.
  unfoldable pub validate_final : FileOperation → Disk → Option TxnError
  unfolding validate_file_checksum
  validate_final op disk = elim op.checksum_info [
    | none ↦ none
    | some expected ↦
        validate_file_checksum sum op.destination (lookup op.destination disk.finals) expected
  ]

  -- Phase 2. `budget` is the number of writes before the process dies; what is left of it is returned.
  unfoldable pub rename_all : ℕ → List FileOperation → Disk → Disk × Outcome × ℕ
  unfolding rename validate_final
  rename_all budget [] disk = (disk, finished, budget)
  rename_all zero (op ∷ ops) disk = (disk, crashed, 0)
  rename_all (suc budget) (op ∷ ops) disk = elim (lookup op.destination disk.staged) [
    | none ↦ (disk, failed (missing_file op.destination), budget)
    | some content ↦ elim (validate_final op (rename op content disk)) [
      | some e ↦ (rename op content disk, failed e, budget)
      | none ↦ rename_all budget ops (rename op content disk)
    ]
  ]

abbrev pub destinations : List FileOperation → List String
destinations [] = []
destinations (op ∷ ops) = op.destination ∷ destinations ops

-- A failure to write status.intent is left out.
unfoldable pub mark_intent : Paths → Transaction → Disk → Transaction × Disk × Option TxnError
unfolding Types.same validate_manifest
mark_intent paths tx disk =
    if not (Types.same tx.status Status.pending)
    then (tx, disk, some (wrong_status tx.status))
    else elim (validate_manifest paths tx.manifest) [
      | some e ↦ (tx, disk, some e)
      | none ↦ (record tx { status = Status.intent }, record disk { intent_marker = true }, none)
    ]

-- What a call of Commit leaves.
pub record Committed (J : Type 0) : Type 0 where
  pub status : Status
  pub disk : Disk
  pub journal : J
  pub outcome : Outcome

module _ {J : Type 0} where
  -- Phases 3 and 4, each one write.
  abbrev pub call_journal : Option (J → J × Option String) → J → J × Option String
  call_journal none journal = (journal, none)
  call_journal (some append) journal = append journal

  unfoldable pub journal_and_mark :
      Transaction → Option (J → J × Option String) → ℕ → Disk → J → Committed J
  journal_and_mark tx with_journal zero disk journal = record {
    status = tx.status;
    disk = disk;
    journal = journal;
    outcome = crashed;
  }
  journal_and_mark tx with_journal (suc budget) disk journal =
      let (journal', failure) = call_journal with_journal journal in
      elim failure [
        | some e ↦ record {
          status = tx.status;
          disk = disk;
          journal = journal';
          outcome = failed (journal_failed e);
        }
        | none ↦ elim budget [
          | zero ↦ record { status = tx.status; disk = disk; journal = journal'; outcome = crashed }
          | suc rest ↦ record {
            status = Status.commit;
            disk = record disk { commit_marker = some (destinations tx.manifest.files) };
            journal = journal';
            outcome = finished;
          }
        ]
      ]

  unfoldable pub commit_files :
      (String → FileChecksum)
      → Bool
      → Transaction
      → Option (J → J × Option String)
      → ℕ
      → Disk
      → J
      → Committed J
  unfolding Types.same validate_staged rename_all journal_and_mark
  commit_files sum same_device tx with_journal budget disk journal =
      let stop : Outcome → Disk → Committed J = λ outcome disk'. record {
        status = tx.status;
        disk = disk';
        journal = journal;
        outcome = outcome;
      } in
      if not same_device then stop (failed other_device) disk else elim disk.commit_marker [
        | some files ↦ record {
          status = Status.commit;
          disk = disk;
          journal = journal;
          outcome = finished;
        }
        | none ↦
            if not (Types.same tx.status Status.intent)
            then stop (failed (wrong_status tx.status)) disk
            else elim (validate_staged sum tx.manifest.files disk) [
              | some e ↦ stop (failed e) disk
              | none ↦
                  let (disk', outcome, rest) = rename_all sum budget tx.manifest.files disk in
                  elim outcome [
                    | crashed ↦ stop crashed disk'
                    | failed e ↦ stop (failed e) disk'
                    | finished ↦ journal_and_mark tx with_journal rest disk' journal
                  ]
            ]
      ]

-- To run a transaction by evaluation, name this on the `unfolding` line.
unfoldable pub whole_commit : Unit {0}
unfolding begin stage_file mark_intent commit_files lookup insert delete validate_manifest
whole_commit = tt

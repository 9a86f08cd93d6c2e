-- ===== src/Txn/Crash.antt =====
-- A commit that the process may die in, and the recovery after it.
use deespec.Base.{
  ℕ, zero, suc, ◌≡◌, refl, sym, subst, ap, ◌∙◌, ◌+◌, ◌≤◌, ◌<◌, ◌⊎◌, inl, inr, String, true, Option,
  none, some, List, [], ◌∷◌, length, arith,
}
use deespec.Base.Dict.{lookup}
use deespec.Txn.Types
use deespec.Txn.Types.{
  Status, FileChecksum, FileOperation, Disk, Manifest, Transaction, TxnError, missing_file,
  validate_file_checksum,
}
use deespec.Txn.Manager.{
  finished, crashed, failed, Committed, validate_staged, destinations, call_journal, commit_files,
}
use deespec.Txn.Recovery.{recover_transaction, warn_only}
use deespec.Txn.Renames.{OwnFiles, Staged, moved}
use deespec.Txn.Moved.{Placed, moved-markers, moved-first, moved-Placed}
use deespec.Txn.Commit.{Prepared, marked, Placed-marked, commit_files-Prepared}

-- The transaction that a recovery builds from the disk.
abbrev pub rebuilt : Manifest → Transaction
rebuilt manifest = record { manifest = manifest; status = Status.intent; undo = [] }

-- What is left after a commit that the process lived for `budget` writes of, and a recovery.
abbrev pub Recovered :
    {J : Type 0} → Transaction → FileOperation → Disk → ℕ → Committed J → Committed J → Type 0
Recovered tx op disk budget after again =
    (budget ≡ 0) × (again.outcome ≡ finished) × Placed tx.manifest.files disk again.disk
    ⊎ (0 < budget)
      × (budget < length tx.manifest.files + 2)
      × (again.outcome ≡ failed (missing_file op.destination))
      × (again.disk ≡ after.disk)
    ⊎ (length tx.manifest.files + 2 ≤ budget)
      × (again.outcome ≡ finished)
      × (again.disk ≡ after.disk)

module _ {J : Type 0} (sum : String → FileChecksum) where
  recover_transaction-found :
      (full : ℕ) (disk : Disk) (journal : J) (manifest : Manifest)
      → disk.saved_manifest ≡ some manifest
      → disk.intent_marker ≡ true
      → recover_transaction sum true full disk journal
        ≡ commit_files sum true (rebuilt manifest) (some warn_only) full disk journal
  unfolding recover_transaction
  recover_transaction-found full disk journal manifest saved intent =
      simp (saved, recover_transaction, intent)

  commit_files-missing :
      (tx : Transaction) (with_journal : Option (J → J × Option String)) (full : ℕ) (disk : Disk)
      (journal : J) (op : FileOperation) (ops : List FileOperation) (expected : FileChecksum)
      → tx.status ≡ Status.intent
      → tx.manifest.files ≡ op ∷ ops
      → op.checksum_info ≡ some expected
      → disk.commit_marker ≡ none
      → lookup op.destination disk.staged ≡ none
      → commit_files sum true tx with_journal full disk journal ≡ record {
        status = Status.intent;
        disk = disk;
        journal = journal;
        outcome = failed (missing_file op.destination);
      }
  unfolding commit_files Types.same validate_staged validate_file_checksum
  commit_files-missing tx with_journal full disk journal op ops expected intended files checked
        unmarked gone =
      simp (unmarked, commit_files, intended, files, validate_staged, checked, gone)

  recover_transaction-marked :
      (full : ℕ) (disk : Disk) (journal : J) (manifest : Manifest) (files : List String)
      → disk.saved_manifest ≡ some manifest
      → disk.intent_marker ≡ true
      → disk.commit_marker ≡ some files
      → recover_transaction sum true full disk journal
        ≡ record { status = Status.commit; disk = disk; journal = journal; outcome = finished }
  unfolding recover_transaction commit_files
  recover_transaction-marked full disk journal manifest files saved intent marker =
      simp (saved, recover_transaction, intent, marker, commit_files)

  -- The recovery of a commit that died after `budget` writes.
  crashed-Recovered :
      (tx : Transaction) (budget full : ℕ) (disk : Disk) (reached : J) (op : FileOperation)
      (ops : List FileOperation) (expected : FileChecksum)
      → Prepared sum tx disk
      → disk.saved_manifest ≡ some tx.manifest
      → disk.intent_marker ≡ true
      → tx.manifest.files ≡ op ∷ ops
      → op.checksum_info ≡ some expected
      → length tx.manifest.files + 2 ≤ full
      → budget < length tx.manifest.files + 2
      → Recovered tx op disk budget
          (record {
            status = Status.intent;
            disk = moved budget tx.manifest.files disk;
            journal = reached;
            outcome = crashed;
          })
          (recover_transaction sum true full (moved budget tx.manifest.files disk) reached)
  unfolding moved
  crashed-Recovered tx zero full disk reached op ops expected ready saved intent files checked
        enough short =
      elim (commit_files-Prepared sum (rebuilt tx.manifest) (some warn_only) full disk reached
        reached
        (record {
          intended = refl;
          own = ready.own;
          staged = ready.staged;
          unmarked = ready.unmarked;
        })
        refl) [
          | inl (_, e) ↦
              let found = recover_transaction-found full disk reached tx.manifest saved intent in
              let placed =
                Placed-marked tx.manifest.files disk (moved full tx.manifest.files disk)
                  (some (destinations tx.manifest.files))
                  (moved-Placed sum full tx.manifest.files disk (omega arith) ready.own
                    ready.staged) in
              inl (rw (found ∙ e) (refl, refl, placed))
          | inr (less, _, _) ↦ ground (arith, less, enough)
        ]
  crashed-Recovered tx (suc budget) full disk reached op ops expected ready saved intent files
        checked enough short =
      let staged : Staged sum (op ∷ ops) disk = subst (λ l. Staged sum l disk) files ready.staged in
      let own : OwnFiles (op ∷ ops) = subst (λ l. OwnFiles l) files ready.own in
      let ((content, here, _), _) = staged in
      let (saved', intent', unmarked') = moved-markers (suc budget) tx.manifest.files disk in
      let gone : lookup op.destination (moved (suc budget) tx.manifest.files disk).staged ≡ none =
        subst (λ l. lookup op.destination (moved (suc budget) l disk).staged ≡ none) (sym files)
          (moved-first budget op ops disk content own.0 here) in
      let found =
        recover_transaction-found full (moved (suc budget) tx.manifest.files disk) reached
          tx.manifest (saved' ∙ saved) (intent' ∙ intent) in
      let missing =
        commit_files-missing (rebuilt tx.manifest) (some warn_only) full
          (moved (suc budget) tx.manifest.files disk) reached op ops expected refl files checked
          (unmarked' ∙ ready.unmarked) gone in
      inr (
        inl (
          omega arith,
          short,
          ap (λ c. c.outcome) (found ∙ missing),
          ap (λ c. c.disk) (found ∙ missing),
        ))

  -- A commit with checksummed files and a recovery that is not cut off. If the commit died before its
  -- first write, the recovery finishes it: the staged contents are in place. If it ran to its end,
  -- the recovery changes nothing and succeeds. If it died anywhere between, the recovery fails, since
  -- the first file is no longer staged, and leaves the disk as it is.
  pub recover_transaction-after_crash :
      (tx : Transaction) (with_journal : Option (J → J × Option String)) (budget full : ℕ)
      (disk : Disk) (journal journal' : J) (op : FileOperation) (ops : List FileOperation)
      (expected : FileChecksum)
      → Prepared sum tx disk
      → disk.saved_manifest ≡ some tx.manifest
      → disk.intent_marker ≡ true
      → call_journal with_journal journal ≡ (journal', none)
      → tx.manifest.files ≡ op ∷ ops
      → op.checksum_info ≡ some expected
      → length tx.manifest.files + 2 ≤ full
      → Recovered tx op disk budget (commit_files sum true tx with_journal budget disk journal) (
          recover_transaction sum true full
            (commit_files sum true tx with_journal budget disk journal).disk
            (commit_files sum true tx with_journal budget disk journal).journal)
  recover_transaction-after_crash tx with_journal budget full disk journal journal' op ops expected
        ready saved intent appended files checked enough =
      elim (commit_files-Prepared sum tx with_journal budget disk journal journal' ready appended) [
        | inl (late, e) ↦
            let (saved', intent', _) = moved-markers budget tx.manifest.files disk in
            let again =
              recover_transaction-marked full (marked tx (moved budget tx.manifest.files disk))
                journal' tx.manifest (destinations tx.manifest.files) (saved' ∙ saved)
                (intent' ∙ intent) refl in
            rw e (inr (inr (late, ap (λ c. c.outcome) again, ap (λ c. c.disk) again)))
        | inr (short, reached, e) ↦ rw e (
            crashed-Recovered tx budget full disk reached op ops expected ready saved intent files
              checked enough short)
      ]

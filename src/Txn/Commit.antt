-- ===== src/Txn/Commit.antt =====
-- The commit of a prepared transaction, run to its end or cut off by a crash.
use deespec.Base.{
  ℕ, zero, suc, ◌≡◌, refl, ◌+◌, ◌≤◌, ◌<◌, ◌⊎◌, inl, inr, String, true, Option, none, some, List, [],
  ◌∷◌, length, arith,
}
use deespec.Base.Dict.{lookup}
use deespec.Txn.Types
use deespec.Txn.Types.{
  Status, FileChecksum, FileOperation, Disk, Manifest, Transaction, TxnError, missing_file,
  validate_file_checksum,
}
use deespec.Txn.Manager.{
  finished, crashed, destinations, call_journal, journal_and_mark, commit_files,
}
use deespec.Txn.Renames.{
  Untouched, OwnFiles, Staged, Staged-validate_staged, moved, rename_all-moved,
}
use deespec.Txn.Moved.{Placed, moved-Untouched, moved-Placed}

-- A transaction after MarkIntent, with its files staged and no commit begun.
pub record Prepared (sum : String → FileChecksum) (tx : Transaction) (disk : Disk) : Type 0 where
  pub intended : tx.status ≡ Status.intent
  pub own : OwnFiles tx.manifest.files
  pub staged : Staged sum tx.manifest.files disk
  pub unmarked : disk.commit_marker ≡ none

-- The disk after the commit marker is written.
abbrev pub marked : Transaction → Disk → Disk
marked tx disk = record disk { commit_marker = some (destinations tx.manifest.files) }

pub Placed-marked :
    (ops : List FileOperation) (before after : Disk) (marker : Option (List String))
    → Placed ops before after
    → Placed ops before (record after { commit_marker = marker })
Placed-marked [] before after marker placed = tt
Placed-marked (op ∷ ops) before after marker (here, placed) =
    (here, Placed-marked ops before after marker placed)

module _ {J : Type 0} (sum : String → FileChecksum) where
  -- The journal entry and the marker are two writes.
  journal_and_mark-writes :
      (tx : Transaction) (with_journal : Option (J → J × Option String)) (budget : ℕ) (disk : Disk)
      (journal journal' : J)
      → call_journal with_journal journal ≡ (journal', none)
      → ((2 ≤ budget)
          × (journal_and_mark tx with_journal budget disk journal ≡ record {
            status = Status.commit;
            disk = marked tx disk;
            journal = journal';
            outcome = finished;
          }))
        ⊎ ((budget < 2)
            × (reached : J) × (journal_and_mark tx with_journal budget disk journal
                ≡ record { status = tx.status; disk = disk; journal = reached; outcome = crashed }))
  unfolding journal_and_mark
  journal_and_mark-writes tx with_journal zero disk journal journal' appended =
      inr (omega arith, journal, refl)
  journal_and_mark-writes tx with_journal (suc zero) disk journal journal' appended =
      inr (omega arith, journal', simp (journal_and_mark, appended))
  journal_and_mark-writes tx with_journal (suc (suc budget)) disk journal journal' appended =
      inl (omega arith, simp (journal_and_mark, appended))

  -- The commit of a prepared transaction, by the number of writes that the process lives for.
  pub commit_files-Prepared :
      (tx : Transaction) (with_journal : Option (J → J × Option String)) (budget : ℕ) (disk : Disk)
      (journal journal' : J)
      → Prepared sum tx disk
      → call_journal with_journal journal ≡ (journal', none)
      → ((length tx.manifest.files + 2 ≤ budget)
          × (commit_files sum true tx with_journal budget disk journal ≡ record {
            status = Status.commit;
            disk = marked tx (moved budget tx.manifest.files disk);
            journal = journal';
            outcome = finished;
          }))
        ⊎ ((budget < length tx.manifest.files + 2)
            × (reached : J) × (commit_files sum true tx with_journal budget disk journal ≡ record {
              status = Status.intent;
              disk = moved budget tx.manifest.files disk;
              journal = reached;
              outcome = crashed;
            }))
  unfolding commit_files Types.same
  commit_files-Prepared tx with_journal budget disk journal journal' ready appended =
      elim (rename_all-moved sum budget tx.manifest.files disk ready.own ready.staged) [
        | inr (short, e) ↦ inr (
          omega arith,
          journal,
          simp (
            ready.unmarked,
            commit_files,
            ready.intended,
            Staged-validate_staged sum tx.manifest.files disk ready.staged,
            e,
          ),
        )
        | inl (enough, rest, total, e) ↦
            elim (journal_and_mark-writes tx with_journal rest (moved budget tx.manifest.files disk)
              journal journal' appended) [
                | inl (two, ends) ↦ inl (
                  omega arith,
                  simp (
                    ready.unmarked,
                    commit_files,
                    ready.intended,
                    Staged-validate_staged sum tx.manifest.files disk ready.staged,
                    e,
                    ends,
                  ),
                )
                | inr (less, reached, ends) ↦ inr (
                  omega arith,
                  reached,
                  simp (
                    ready.unmarked,
                    commit_files,
                    ready.intended,
                    Staged-validate_staged sum tx.manifest.files disk ready.staged,
                    e,
                    ends,
                  ),
                )
              ]
      ]

  -- The commit of a prepared transaction that is not cut off ends: the marker lists its files, the
  -- journal's callback has run, every destination holds the content that was staged for it, and the
  -- files that it does not name are as before.
  pub commit_files-Placed :
      (tx : Transaction) (with_journal : Option (J → J × Option String)) (budget : ℕ) (disk : Disk)
      (journal journal' : J) (path : String)
      → Prepared sum tx disk
      → call_journal with_journal journal ≡ (journal', none)
      → length tx.manifest.files + 2 ≤ budget
      → Untouched path tx.manifest.files
      → ((commit_files sum true tx with_journal budget disk journal).outcome ≡ finished)
        × ((commit_files sum true tx with_journal budget disk journal).status ≡ Status.commit)
        × ((commit_files sum true tx with_journal budget disk journal).journal ≡ journal')
        × ((commit_files sum true tx with_journal budget disk journal).disk.commit_marker
            ≡ some (destinations tx.manifest.files))
        × Placed tx.manifest.files disk
            (commit_files sum true tx with_journal budget disk journal).disk
        × (lookup path (commit_files sum true tx with_journal budget disk journal).disk.finals
            ≡ lookup path disk.finals)
  commit_files-Placed tx with_journal budget disk journal journal' path ready appended enough
        apart =
      elim (commit_files-Prepared tx with_journal budget disk journal journal' ready appended) [
        | inl (_, e) ↦
            let (finals, _) = moved-Untouched budget tx.manifest.files disk path apart in
            let placed : Placed tx.manifest.files disk
                (marked tx (moved budget tx.manifest.files disk)) =
              Placed-marked tx.manifest.files disk (moved budget tx.manifest.files disk) _ (
                moved-Placed sum budget tx.manifest.files disk (omega arith) ready.own
                  ready.staged) in
            rw e (refl, refl, refl, refl, placed, finals)
        | inr (short, _, _) ↦ ground (arith, short, enough)
      ]

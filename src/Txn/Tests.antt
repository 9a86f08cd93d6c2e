-- ===== src/Txn/Tests.antt =====
-- The theorems about file transactions at concrete inputs.
use deespec.Base.{
  ◌≡◌, refl, ◌++◌, arith, String, true, false, Option, none, some, List, [], ◌∷◌, differ,
}
use deespec.Base.Dict.{lookup}
use deespec.Txn.Types.{RestoreOp, Status, FileChecksum, Disk, Transaction, TxnError, Paths}
use deespec.Txn.Manager.{
  finished, begin, stage_file, mark_intent, whole_commit, commit_files, destinations,
}
use deespec.Txn.Recovery.{recover_transaction}
use deespec.Txn.Rollback.{rollback}
use deespec.Txn.Undo.{AllRestored}
use deespec.Txn.Restored.{rollback-AllRestored}
use deespec.Txn.Moved.{Placed}
use deespec.Txn.Commit.{Prepared, commit_files-Placed}
use deespec.Txn.Staging.{
  Staging, begin-Staging, stage_file-Staging, new_operation, mark_intent-Prepared,
}
use deespec.Txn.Crash.{Recovered, recover_transaction-after_crash}

-- A checksum for the tests: the content itself.
abbrev sum : String → FileChecksum
sum content = record { value = content; size = 7 }

-- Relative paths that are clean already.
abbrev paths : Paths
paths = record { is_abs = λ path. false; clean = λ path. path; has_prefix = λ path prefix. false }

abbrev blank : Disk
blank = record {
  staged = [];
  finals = ("specs/old.md", "old") ∷ [];
  backups = [];
  stage_dir = false;
  saved_manifest = none;
  intent_marker = false;
  commit_marker = none;
}

abbrev begun : Transaction × Disk
begun = begin "txn_5_9" 5 blank

begun-Staging : Staging sum begun.0 begun.1
begun-Staging = begin-Staging sum "txn_5_9" 5 blank

abbrev one_file : Transaction × Disk × Option TxnError
one_file = stage_file sum begun.0 "specs/a.md" "alpha" begun.1

one_file-Staging : Staging sum one_file.0 one_file.1
unfolding whole_commit
one_file-Staging =
    let (_, _, _, staging) =
      stage_file-Staging sum begun.0 "specs/a.md" "alpha" begun.1 begun-Staging tt in
    staging

abbrev two_files : Transaction × Disk × Option TxnError
two_files = stage_file sum one_file.0 "specs/b.md" "beta" one_file.1

stage_file-Staging_example :
    (two_files.2 ≡ none)
    × (two_files.0.manifest.files
        ≡ one_file.0.manifest.files ++ new_operation sum "specs/b.md" "beta" ∷ [])
    × (lookup "specs/b.md" two_files.1.staged ≡ some "beta")
    × Staging sum two_files.0 two_files.1
unfolding whole_commit
stage_file-Staging_example =
    stage_file-Staging sum one_file.0 "specs/b.md" "beta" one_file.1 one_file-Staging
      (differ _ _ refl, tt)

two_files-Staging : Staging sum two_files.0 two_files.1
unfolding whole_commit
two_files-Staging =
    let (_, _, _, staging) =
      stage_file-Staging sum one_file.0 "specs/b.md" "beta" one_file.1 one_file-Staging
        (differ _ _ refl, tt) in
    staging

abbrev intended : Transaction × Disk × Option TxnError
intended = mark_intent paths two_files.0 two_files.1

intended-Prepared : Prepared sum intended.0 intended.1
unfolding whole_commit
intended-Prepared =
    let (_, _, _, ready) =
      mark_intent-Prepared sum paths two_files.0 two_files.1 two_files-Staging refl in
    ready

-- A journal of texts.
abbrev log : List String → List String × Option String
log journal = ("registered" ∷ journal, none)

commit_files-Placed_example :
    ((commit_files sum true intended.0 (some log) 4 intended.1 []).outcome ≡ finished)
    × ((commit_files sum true intended.0 (some log) 4 intended.1 []).status ≡ Status.commit)
    × ((commit_files sum true intended.0 (some log) 4 intended.1 []).journal ≡ "registered" ∷ [])
    × ((commit_files sum true intended.0 (some log) 4 intended.1 []).disk.commit_marker
        ≡ some (destinations intended.0.manifest.files))
    × Placed intended.0.manifest.files intended.1
        (commit_files sum true intended.0 (some log) 4 intended.1 []).disk
    × (lookup "specs/old.md"
          (commit_files sum true intended.0 (some log) 4 intended.1 []).disk.finals
        ≡ lookup "specs/old.md" intended.1.finals)
unfolding whole_commit
commit_files-Placed_example =
    commit_files-Placed sum intended.0 (some log) 4 intended.1 [] ("registered" ∷ []) "specs/old.md"
      intended-Prepared refl (omega arith) (differ _ _ refl, (differ _ _ refl, tt))

-- The process dies after the first of two renames.
recover_transaction-after_crash_example :
    Recovered intended.0
      (new_operation sum "specs/a.md" "alpha")
      intended.1
      1
      (commit_files sum true intended.0 (some log) 1 intended.1 [])
      (recover_transaction sum true 4
        (commit_files sum true intended.0 (some log) 1 intended.1 []).disk
        (commit_files sum true intended.0 (some log) 1 intended.1 []).journal)
unfolding whole_commit
recover_transaction-after_crash_example =
    recover_transaction-after_crash sum intended.0 (some log) 1 4 intended.1 [] ("registered" ∷ [])
      (new_operation sum "specs/a.md" "alpha") (new_operation sum "specs/b.md" "beta" ∷ [])
      (sum "alpha") intended-Prepared refl refl refl refl refl (omega arith)

-- A transaction that has overwritten one file and created another, and the disk it leaves.
abbrev undoable : Transaction
undoable = record begun.0 {
  undo = RestoreOp.overwrite "specs/old.md" "undo/0" ∷ RestoreOp.delete "specs/a.md" ∷ [];
}

abbrev half_done : Disk
half_done = record begun.1 {
  finals = ("specs/old.md", "new") ∷ ("specs/a.md", "alpha") ∷ ("specs/c.md", "gamma") ∷ [];
  backups = ("undo/0", "old") ∷ [];
}

rollback-AllRestored_example :
    ((rollback undoable half_done).2 ≡ none)
    × ((rollback undoable half_done).0.status ≡ Status.aborted)
    × ((rollback undoable half_done).1.saved_manifest ≡ none)
    × ((rollback undoable half_done).1.stage_dir ≡ false)
    × AllRestored half_done (rollback undoable half_done).1 undoable.undo
    × (lookup "specs/c.md" (rollback undoable half_done).1.finals
        ≡ lookup "specs/c.md" half_done.finals)
unfolding whole_commit
rollback-AllRestored_example =
    rollback-AllRestored undoable half_done "specs/c.md" refl
      ((((differ _ _ refl, tt), differ _ _ refl), tt), (tt, tt))
      (differ _ _ refl, (differ _ _ refl, tt))

-- ===== src/Txn/Staging.antt =====
-- From Begin to MarkIntent: a transaction whose files are staged is prepared for its commit.
use deespec.Base.{
  ℕ, ◌≡◌, ◌≢◌, refl, sym, subst, inr, String, true, Option, none, some, List, [], ◌∷◌, ◌++◌, arith,
  eq_iff, ==_iff,
}
use deespec.Base.Dict.{lookup, insert, lookup-insert}
use deespec.Txn.Types
use deespec.Txn.Types.{
  Status, FileChecksum, FileOperation, Disk, Manifest, Transaction, TxnError, Paths,
  validate_file_checksum, validate_manifest,
}
use deespec.Txn.Manager.{begin, stage_file, mark_intent}
use deespec.Txn.Renames.{Untouched, OwnFiles, Staged}
use deespec.Txn.Commit.{Prepared}

-- A transaction that is being staged: its files are on the disk, and so is its manifest.
pub record Staging (sum : String → FileChecksum) (tx : Transaction) (disk : Disk) : Type 0 where
  pub open_ : tx.status ≡ Status.pending
  pub own : OwnFiles tx.manifest.files
  pub staged : Staged sum tx.manifest.files disk
  pub saved : disk.saved_manifest ≡ some tx.manifest
  pub unmarked : disk.commit_marker ≡ none

OwnFiles-append :
    (ops : List FileOperation) (op : FileOperation)
    → Untouched op.destination ops
    → OwnFiles ops
    → OwnFiles (ops ++ op ∷ [])
OwnFiles-append [] op apart own = (tt, tt)
OwnFiles-append (o ∷ ops) op (different, apart) (apart', own) =
    (append o.destination ops op (λ e. different (sym e)) apart', OwnFiles-append ops op apart own)
  where
    append :
        (path : String) (ops : List FileOperation) (op : FileOperation)
        → op.destination ≢ path
        → Untouched path ops
        → Untouched path (ops ++ op ∷ [])
    append path [] op different apart = (different, tt)
    append path (o ∷ ops) op different (first, apart) = (first, append path ops op different apart)

mark_intent-valid :
    (paths : Paths) (tx : Transaction) (disk : Disk)
    → tx.status ≡ Status.pending
    → validate_manifest paths tx.manifest ≡ none
    → mark_intent paths tx disk
      ≡ (record tx { status = Status.intent }, record disk { intent_marker = true }, none)
unfolding mark_intent Types.same
mark_intent-valid paths tx disk is_open valid = simp (is_open, mark_intent, valid)

module _ (sum : String → FileChecksum) where
  Staged-append :
      (ops : List FileOperation) (op : FileOperation) (disk : Disk)
      → Staged sum ops disk
      → Staged sum (op ∷ []) disk
      → Staged sum (ops ++ op ∷ []) disk
  Staged-append [] op disk staged last = last
  Staged-append (o ∷ ops) op disk (first, staged) last =
      (first, Staged-append ops op disk staged last)

  Staged-insert :
      (ops : List FileOperation) (dst content : String) (disk : Disk) (manifest : Option Manifest)
      → Untouched dst ops
      → Staged sum ops disk
      → Staged sum ops
          (record disk { staged = insert dst content disk.staged; saved_manifest = manifest })
  Staged-insert [] dst content disk manifest apart staged = tt
  Staged-insert (o ∷ ops) dst content disk manifest (different, apart) ((c, here, check), staged) =
      ((c, kept, check), Staged-insert ops dst content disk manifest apart staged)
    where
      kept : lookup o.destination (insert dst content disk.staged) ≡ some c
      kept =
          ground
            (arith, lookup-insert dst o.destination content disk.staged, eq_iff dst o.destination)

  Staged-intent :
      (ops : List FileOperation) (disk : Disk)
      → Staged sum ops disk
      → Staged sum ops (record disk { intent_marker = true })
  Staged-intent [] disk staged = tt
  Staged-intent (o ∷ ops) disk (first, staged) = (first, Staged-intent ops disk staged)

  -- What `StageFile` has just written has its own checksum.
  fresh_checksum :
      (path content : String) → validate_file_checksum sum path (some content) (sum content) ≡ none
  unfolding validate_file_checksum
  fresh_checksum path content = ground (
    arith,
    eq_iff (sum content).value (sum content).value,
    ==_iff (sum content).size (sum content).size,
  )

  -- The operation that `StageFile` records, and what it makes of the transaction and the disk.
  abbrev pub new_operation : String → String → FileOperation
  new_operation dst content = record {
    op_type = "create";
    source = "";
    destination = dst;
    checksum_info = some (sum content);
  }

  abbrev with_file : Transaction → String → String → Transaction
  with_file tx dst content = record tx {
    manifest = record tx.manifest { files = tx.manifest.files ++ new_operation dst content ∷ [] };
  }

  abbrev with_staged : Disk → String → String → Manifest → Disk
  with_staged disk dst content manifest = record disk {
    staged = insert dst content disk.staged;
    saved_manifest = some manifest;
  }

  just_inserted :
      (dst content : String) (disk : Disk)
      → lookup dst (insert dst content disk.staged) ≡ some content
  just_inserted dst content disk =
      ground (arith, lookup-insert dst dst content disk.staged, eq_iff dst dst)

  stage_file-fresh :
      (tx : Transaction) (dst content : String) (disk : Disk)
      → tx.status ≡ Status.pending
      → stage_file sum tx dst content disk ≡ (
        with_file tx dst content,
        with_staged disk dst content (with_file tx dst content).manifest,
        none,
      )
  unfolding stage_file Types.same
  stage_file-fresh tx dst content disk is_open =
      simp (is_open, stage_file, just_inserted dst content disk, fresh_checksum dst content)

  -- `StageFile` of a file that the transaction does not have yet succeeds: the file is staged with its
  -- checksum, its operation is the last of the manifest, and the transaction is still being staged.
  pub stage_file-Staging :
      (tx : Transaction) (dst content : String) (disk : Disk)
      → Staging sum tx disk
      → Untouched dst tx.manifest.files
      → ((stage_file sum tx dst content disk).2 ≡ none)
        × ((stage_file sum tx dst content disk).0.manifest.files
            ≡ tx.manifest.files ++ new_operation dst content ∷ [])
        × (lookup dst (stage_file sum tx dst content disk).1.staged ≡ some content)
        × Staging sum (stage_file sum tx dst content disk).0 (stage_file sum tx dst content disk).1
  stage_file-Staging tx dst content disk staging apart =
      let staged = just_inserted dst content disk in
      let kept =
        Staged-insert tx.manifest.files dst content disk (some (with_file tx dst content).manifest)
          apart staging.staged in
      let last : Staged sum (new_operation dst content ∷ [])
          (with_staged disk dst content (with_file tx dst content).manifest) =
        ((content, staged, inr (sum content, refl, fresh_checksum dst content)), tt) in
      subst
        (λ r.
          (r.2 ≡ none)
          × (r.0.manifest.files ≡ tx.manifest.files ++ new_operation dst content ∷ [])
          × (lookup dst r.1.staged ≡ some content)
          × Staging sum r.0 r.1)
        (sym (stage_file-fresh tx dst content disk staging.open_))
        (
          refl,
          refl,
          staged,
          record {
            open_ = staging.open_;
            own = OwnFiles-append tx.manifest.files (new_operation dst content) apart staging.own;
            staged = Staged-append tx.manifest.files (new_operation dst content) _ kept last;
            saved = refl;
            unmarked = staging.unmarked;
          },
        )

  -- `Begin` starts a transaction that is being staged and has no files.
  pub begin-Staging :
      (id : String) (now : ℕ) (disk : Disk)
      → Staging sum (begin id now disk).0 (begin id now disk).1
  unfolding begin
  begin-Staging id now disk = record {
    open_ = refl;
    own = tt;
    staged = tt;
    saved = refl;
    unmarked = refl;
  }

  -- `MarkIntent` of a transaction that is being staged and has a valid manifest succeeds: the markers
  -- on the disk then allow a recovery, and the transaction is prepared for its commit.
  pub mark_intent-Prepared :
      (paths : Paths) (tx : Transaction) (disk : Disk)
      → Staging sum tx disk
      → validate_manifest paths tx.manifest ≡ none
      → ((mark_intent paths tx disk).2 ≡ none)
        × ((mark_intent paths tx disk).1.intent_marker ≡ true)
        × ((mark_intent paths tx disk).1.saved_manifest
            ≡ some (mark_intent paths tx disk).0.manifest)
        × Prepared sum (mark_intent paths tx disk).0 (mark_intent paths tx disk).1
  mark_intent-Prepared paths tx disk staging valid =
      subst
        (λ r.
          (r.2 ≡ none)
          × (r.1.intent_marker ≡ true)
          × (r.1.saved_manifest ≡ some r.0.manifest)
          × Prepared sum r.0 r.1)
        (sym (mark_intent-valid paths tx disk staging.open_ valid))
        (
          refl,
          refl,
          staging.saved,
          record {
            intended = refl;
            own = staging.own;
            staged = Staged-intent tx.manifest.files disk staging.staged;
            unmarked = staging.unmarked;
          },
        )

-- ===== src/Txn/Undo.antt =====
-- What one undo operation of a rollback restores.
use deespec.Base.{
  ◌≡◌, ◌≢◌, refl, inl, inr, String, Option, none, some, List, [], ◌∷◌, arith, eq_iff, Option-cases,
}
use deespec.Base.Dict.{lookup, lookup-insert, lookup-delete}
use deespec.Txn.Types.{RestoreOp, Disk}
use deespec.Txn.Rollback.{perform_restore}

-- The operation does not write the file, or does not read the backup.
abbrev pub Spares : String → RestoreOp → Type 0
Spares path (RestoreOp.overwrite target undo) = target ≢ path
Spares path (RestoreOp.create target undo) = target ≢ path
Spares path (RestoreOp.delete target) = target ≢ path
Spares path (RestoreOp.unknown op_type) = Unit

abbrev pub Leaves : String → RestoreOp → Type 0
Leaves undo (RestoreOp.overwrite target other) = other ≢ undo
Leaves undo (RestoreOp.create target other) = other ≢ undo
Leaves undo (RestoreOp.delete target) = Unit
Leaves undo (RestoreOp.unknown op_type) = Unit

-- The second operation touches nothing of the first.
abbrev pub Clear : RestoreOp → RestoreOp → Type 0
Clear (RestoreOp.overwrite target undo) op = Spares target op × Leaves undo op
Clear (RestoreOp.create target undo) op = Spares target op × Leaves undo op
Clear (RestoreOp.delete target) op = Spares target op
Clear (RestoreOp.unknown op_type) op = Unit

abbrev pub Alone : RestoreOp → List RestoreOp → Type 0
Alone op [] = Unit
Alone op (o ∷ ops) = (Clear op o × Clear o op) × Alone op ops

-- Every operation has a file and a backup of its own.
abbrev pub OwnTargets : List RestoreOp → Type 0
OwnTargets [] = Unit
OwnTargets (op ∷ ops) = Alone op ops × OwnTargets ops

-- The backup if there is one, and else what was there.
abbrev pub backup_or : Option String → Option String → Option String
backup_or none content = content
backup_or (some backup) content = some backup

-- What an operation has restored.
abbrev pub Restored : Disk → Disk → RestoreOp → Type 0
Restored before after (RestoreOp.overwrite target undo) =
    lookup target after.finals
    ≡ backup_or (lookup undo before.backups) (lookup target before.finals)
Restored before after (RestoreOp.create target undo) =
    lookup target after.finals
    ≡ backup_or (lookup undo before.backups) (lookup target before.finals)
Restored before after (RestoreOp.delete target) = lookup target after.finals ≡ none
Restored before after (RestoreOp.unknown op_type) = Unit

abbrev pub AllRestored : Disk → Disk → List RestoreOp → Type 0
AllRestored before after [] = Unit
AllRestored before after (op ∷ ops) = Restored before after op × AllRestored before after ops

abbrev pub AllSpare : String → List RestoreOp → Type 0
AllSpare path [] = Unit
AllSpare path (op ∷ ops) = Spares path op × AllSpare path ops

pub perform_restore-finals :
    (disk : Disk) (op : RestoreOp) (path : String)
    → Spares path op
    → lookup path (perform_restore disk op).finals ≡ lookup path disk.finals
unfolding perform_restore
perform_restore-finals disk (RestoreOp.overwrite target undo) path spares =
    elim (Option-cases (lookup undo disk.backups)) [
      | inl missing ↦ rw (missing, perform_restore) refl
      | inr (content, there) ↦
          rw (there, perform_restore)
            (ground (arith, lookup-insert target path content disk.finals, eq_iff target path))
    ]
perform_restore-finals disk (RestoreOp.create target undo) path spares =
    elim (Option-cases (lookup undo disk.backups)) [
      | inl missing ↦ rw (missing, perform_restore) refl
      | inr (content, there) ↦
          rw (there, perform_restore)
            (ground (arith, lookup-insert target path content disk.finals, eq_iff target path))
    ]
perform_restore-finals disk (RestoreOp.delete target) path spares =
    ground (arith, lookup-delete target path disk.finals, eq_iff target path)
perform_restore-finals disk (RestoreOp.unknown op_type) path spares = refl

pub perform_restore-backups :
    (disk : Disk) (op : RestoreOp) (undo : String)
    → Leaves undo op
    → lookup undo (perform_restore disk op).backups ≡ lookup undo disk.backups
unfolding perform_restore
perform_restore-backups disk (RestoreOp.overwrite target other) undo leaves =
    elim (Option-cases (lookup other disk.backups)) [
      | inl missing ↦ rw (missing, perform_restore) refl
      | inr (content, there) ↦
          rw (there, perform_restore)
            (ground (arith, lookup-delete other undo disk.backups, eq_iff other undo))
    ]
perform_restore-backups disk (RestoreOp.create target other) undo leaves =
    elim (Option-cases (lookup other disk.backups)) [
      | inl missing ↦ rw (missing, perform_restore) refl
      | inr (content, there) ↦
          rw (there, perform_restore)
            (ground (arith, lookup-delete other undo disk.backups, eq_iff other undo))
    ]
perform_restore-backups disk (RestoreOp.delete target) undo leaves = refl
perform_restore-backups disk (RestoreOp.unknown op_type) undo leaves = refl

-- An operation restores its own file at once.
pub perform_restore-Restored :
    (disk : Disk) (op : RestoreOp) → Restored disk (perform_restore disk op) op
unfolding perform_restore
perform_restore-Restored disk (RestoreOp.overwrite target undo) =
    elim (Option-cases (lookup undo disk.backups)) [
      | inl missing ↦ rw (missing, perform_restore) refl
      | inr (content, there) ↦
          rw (there, perform_restore)
            (ground (arith, lookup-insert target target content disk.finals, eq_iff target target))
    ]
perform_restore-Restored disk (RestoreOp.create target undo) =
    elim (Option-cases (lookup undo disk.backups)) [
      | inl missing ↦ rw (missing, perform_restore) refl
      | inr (content, there) ↦
          rw (there, perform_restore)
            (ground (arith, lookup-insert target target content disk.finals, eq_iff target target))
    ]
perform_restore-Restored disk (RestoreOp.delete target) =
    ground (arith, lookup-delete target target disk.finals, eq_iff target target)
perform_restore-Restored disk (RestoreOp.unknown op_type) = tt

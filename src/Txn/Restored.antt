-- ===== src/Txn/Restored.antt =====
-- What a rollback restores.
use deespec.Base.{◌≡◌, refl, sym, ap, ◌∙◌, String, false, none, List, [], ◌∷◌}
use deespec.Base.Dict.{lookup}
use deespec.Txn.Types
use deespec.Txn.Types.{Status, RestoreOp, Transaction, Disk}
use deespec.Txn.Rollback.{remove_all, perform_restore, restore_all, rollback}
use deespec.Txn.Undo.{
  Spares, Clear, Alone, OwnTargets, Restored, AllRestored, AllSpare, perform_restore-finals,
  perform_restore-backups, perform_restore-Restored,
}

restore_all-finals :
    (disk : Disk) (ops : List RestoreOp) (path : String)
    → AllSpare path ops
    → lookup path (restore_all disk ops).finals ≡ lookup path disk.finals
unfolding restore_all
restore_all-finals disk [] path spare = refl
restore_all-finals disk (op ∷ ops) path (here, spare) =
    restore_all-finals (perform_restore disk op) ops path spare
    ∙ perform_restore-finals disk op path here

-- What the earlier operation has not touched is restored as if it had not run.
Restored-before :
    (disk after : Disk) (op o : RestoreOp)
    → Clear o op
    → Restored (perform_restore disk op) after o
    → Restored disk after o
Restored-before disk after op (RestoreOp.overwrite target undo) (spares, leaves) h =
    rw
      (
        ← perform_restore-backups disk op undo leaves,
        ← perform_restore-finals disk op target spares,
      )
      h
Restored-before disk after op (RestoreOp.create target undo) (spares, leaves) h =
    rw
      (
        ← perform_restore-backups disk op undo leaves,
        ← perform_restore-finals disk op target spares,
      )
      h
Restored-before disk after op (RestoreOp.delete target) spares h = h
Restored-before disk after op (RestoreOp.unknown op_type) clear h = tt

AllRestored-before :
    (disk after : Disk) (op : RestoreOp) (ops : List RestoreOp)
    → Alone op ops
    → AllRestored (perform_restore disk op) after ops
    → AllRestored disk after ops
AllRestored-before disk after op [] alone all = tt
AllRestored-before disk after op (o ∷ ops) ((_, clear), alone) (here, all) =
    (Restored-before disk after op o clear here, AllRestored-before disk after op ops alone all)

Alone-AllSpare :
    (op : RestoreOp) (path : String) (ops : List RestoreOp)
    → ((o : RestoreOp) → Clear op o → Spares path o)
    → Alone op ops
    → AllSpare path ops
Alone-AllSpare op path [] spares alone = tt
Alone-AllSpare op path (o ∷ ops) spares ((clear, _), alone) =
    (spares o clear, Alone-AllSpare op path ops spares alone)

-- The later operations keep what the first has restored.
Restored-after :
    (disk next : Disk) (op : RestoreOp) (ops : List RestoreOp)
    → Alone op ops
    → Restored disk next op
    → Restored disk (restore_all next ops) op
Restored-after disk next (RestoreOp.overwrite target undo) ops alone h =
    restore_all-finals next ops target
      (Alone-AllSpare (RestoreOp.overwrite target undo) target ops (λ o clear. clear.0) alone)
    ∙ h
Restored-after disk next (RestoreOp.create target undo) ops alone h =
    restore_all-finals next ops target
      (Alone-AllSpare (RestoreOp.create target undo) target ops (λ o clear. clear.0) alone)
    ∙ h
Restored-after disk next (RestoreOp.delete target) ops alone h =
    restore_all-finals next ops target
      (Alone-AllSpare (RestoreOp.delete target) target ops (λ o clear. clear) alone)
    ∙ h
Restored-after disk next (RestoreOp.unknown op_type) ops alone h = tt

restore_all-AllRestored :
    (disk : Disk) (ops : List RestoreOp)
    → OwnTargets ops
    → AllRestored disk (restore_all disk ops) ops
unfolding restore_all
restore_all-AllRestored disk [] own = tt
restore_all-AllRestored disk (op ∷ ops) (alone, own) = (
  Restored-after disk (perform_restore disk op) op ops alone (perform_restore-Restored disk op),
  AllRestored-before disk (restore_all (perform_restore disk op) ops) op ops alone
      (restore_all-AllRestored (perform_restore disk op) ops own),
)

-- Only the final files matter.
AllRestored-finals :
    (disk after cleaned : Disk) (ops : List RestoreOp)
    → after.finals ≡ cleaned.finals
    → AllRestored disk after ops
    → AllRestored disk cleaned ops
AllRestored-finals disk after cleaned [] same all = tt
AllRestored-finals disk after cleaned (RestoreOp.overwrite target undo ∷ ops) same (here, all) =
    (ap (lookup target) (sym same) ∙ here, AllRestored-finals disk after cleaned ops same all)
AllRestored-finals disk after cleaned (RestoreOp.create target undo ∷ ops) same (here, all) =
    (ap (lookup target) (sym same) ∙ here, AllRestored-finals disk after cleaned ops same all)
AllRestored-finals disk after cleaned (RestoreOp.delete target ∷ ops) same (here, all) =
    (ap (lookup target) (sym same) ∙ here, AllRestored-finals disk after cleaned ops same all)
AllRestored-finals disk after cleaned (RestoreOp.unknown op_type ∷ ops) same (here, all) =
    (tt, AllRestored-finals disk after cleaned ops same all)

-- A rollback of a transaction that is not committed, and whose undo operations have files and backups
-- of their own, aborts it and removes its directory: every file that an operation overwrites or
-- creates has its backup again (or, where the backup is missing, is as it was), every file that one
-- deletes is gone, and a file that no operation names is as before.
pub rollback-AllRestored :
    (tx : Transaction) (disk : Disk) (path : String)
    → Types.same tx.status Status.commit ≡ false
    → OwnTargets tx.undo
    → AllSpare path tx.undo
    → ((rollback tx disk).2 ≡ none)
      × ((rollback tx disk).0.status ≡ Status.aborted)
      × ((rollback tx disk).1.saved_manifest ≡ none)
      × ((rollback tx disk).1.stage_dir ≡ false)
      × AllRestored disk (rollback tx disk).1 tx.undo
      × (lookup path (rollback tx disk).1.finals ≡ lookup path disk.finals)
unfolding rollback
rollback-AllRestored tx disk path open_ own spare =
    rw (open_, rollback)
      (
        refl,
        refl,
        refl,
        refl,
        AllRestored-finals disk (restore_all disk tx.undo) (remove_all (restore_all disk tx.undo))
            tx.undo refl (restore_all-AllRestored disk tx.undo own),
        restore_all-finals disk tx.undo path spare,
      )

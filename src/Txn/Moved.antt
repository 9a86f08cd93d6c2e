-- ===== src/Txn/Moved.antt =====
-- What the renames of a commit leave on the disk.
use deespec.Base.{
  ℕ, zero, suc, ◌≡◌, ◌≢◌, refl, sym, inl, inr, ◌∙◌, ◌≤◌, String, none, some, List, [], ◌∷◌, length,
  arith, eq_iff, Option-cases,
}
use deespec.Base.Dict.{lookup, lookup-insert, lookup-delete}
use deespec.Txn.Types.{FileChecksum, FileOperation, Disk}
use deespec.Txn.Manager.{rename}
use deespec.Txn.Renames.{Untouched, OwnFiles, Staged, Staged-rename, moved}

-- The destination of every operation holds what was staged for it before.
abbrev pub Placed : List FileOperation → Disk → Disk → Type 0
Placed [] before after = Unit
Placed (op ∷ ops) before after =
    (lookup op.destination after.finals ≡ lookup op.destination before.staged)
    × Placed ops before after

rename-other :
    (op : FileOperation) (content : String) (disk : Disk) (path : String)
    → op.destination ≢ path
    → (lookup path (rename op content disk).finals ≡ lookup path disk.finals)
      × (lookup path (rename op content disk).staged ≡ lookup path disk.staged)
unfolding rename
rename-other op content disk path different = ground (
  arith,
  lookup-insert op.destination path content disk.finals,
  lookup-delete op.destination path disk.staged,
  eq_iff op.destination path,
)

rename-own :
    (op : FileOperation) (content : String) (disk : Disk)
    → (lookup op.destination (rename op content disk).finals ≡ some content)
      × (lookup op.destination (rename op content disk).staged ≡ none)
unfolding rename
rename-own op content disk = ground (
  arith,
  lookup-insert op.destination op.destination content disk.finals,
  lookup-delete op.destination op.destination disk.staged,
  eq_iff op.destination op.destination,
)

pub moved-Untouched :
    (n : ℕ) (ops : List FileOperation) (disk : Disk) (path : String)
    → Untouched path ops
    → (lookup path (moved n ops disk).finals ≡ lookup path disk.finals)
      × (lookup path (moved n ops disk).staged ≡ lookup path disk.staged)
unfolding moved
moved-Untouched zero ops disk path apart = (refl, refl)
moved-Untouched (suc n) [] disk path apart = (refl, refl)
moved-Untouched (suc n) (op ∷ ops) disk path (different, apart) =
    elim (Option-cases (lookup op.destination disk.staged)) [
      | inl missing ↦ rw (missing, moved) (refl, refl)
      | inr (content, here) ↦
          let (finals, staged) = moved-Untouched n ops (rename op content disk) path apart in
          let (finals', staged') = rename-other op content disk path different in
          rw (here, moved) (finals ∙ finals', staged ∙ staged')
    ]

-- Only the staged and the final files change.
pub moved-markers :
    (n : ℕ) (ops : List FileOperation) (disk : Disk)
    → ((moved n ops disk).saved_manifest ≡ disk.saved_manifest)
      × ((moved n ops disk).intent_marker ≡ disk.intent_marker)
      × ((moved n ops disk).commit_marker ≡ disk.commit_marker)
unfolding moved rename
moved-markers zero ops disk = (refl, refl, refl)
moved-markers (suc n) [] disk = (refl, refl, refl)
moved-markers (suc n) (op ∷ ops) disk = elim (Option-cases (lookup op.destination disk.staged)) [
  | inl missing ↦ rw (missing, moved) (refl, refl, refl)
  | inr (content, here) ↦ rw (here, moved) (moved-markers n ops (rename op content disk))
]

-- After the first rename its file is no longer staged.
pub moved-first :
    (n : ℕ) (op : FileOperation) (ops : List FileOperation) (disk : Disk) (content : String)
    → Untouched op.destination ops
    → lookup op.destination disk.staged ≡ some content
    → lookup op.destination (moved (suc n) (op ∷ ops) disk).staged ≡ none
unfolding moved
moved-first n op ops disk content apart here =
    let (_, staged) = moved-Untouched n ops (rename op content disk) op.destination apart in
    let (_, gone) = rename-own op content disk in rw (here, moved) (staged ∙ gone)

Placed-rename :
    (op : FileOperation) (content : String) (ops : List FileOperation) (disk after : Disk)
    → Untouched op.destination ops
    → Placed ops (rename op content disk) after
    → Placed ops disk after
Placed-rename op content [] disk after apart placed = tt
Placed-rename op content (o ∷ ops) disk after (different, apart) (here, placed) =
    let (_, staged) = rename-other op content disk o.destination (λ e. different (sym e)) in
    (here ∙ staged, Placed-rename op content ops disk after apart placed)

pub moved-Placed :
    (sum : String → FileChecksum) (n : ℕ) (ops : List FileOperation) (disk : Disk)
    → length ops ≤ n
    → OwnFiles ops
    → Staged sum ops disk
    → Placed ops disk (moved n ops disk)
unfolding moved
moved-Placed sum n [] disk enough own staged = tt
moved-Placed sum zero (op ∷ ops) disk enough own staged = ground (arith, enough)
moved-Placed sum (suc n) (op ∷ ops) disk enough (apart, own) ((content, here, check), staged) =
    let (first, _) = moved-Untouched n ops (rename op content disk) op.destination apart in
    let (placed, _) = rename-own op content disk in
    rw (here, moved)
      (
        first ∙ placed,
        Placed-rename op content ops disk (moved n ops (rename op content disk)) apart (
            moved-Placed sum n ops (rename op content disk) (omega arith) own
              (Staged-rename sum op content ops disk apart staged)),
      )

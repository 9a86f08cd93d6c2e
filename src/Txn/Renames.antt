-- ===== src/Txn/Renames.antt =====
-- The renames of a commit, run to the end or cut off by a crash.
use deespec.Base.{
  ℕ, zero, suc, ◌≡◌, ◌≢◌, refl, ◌+◌, ◌≤◌, ◌<◌, ◌⊎◌, inl, inr, String, none, some, List, [], ◌∷◌,
  length, arith, eq_iff, eq_refl, if◌then◌else◌,
}
use deespec.Base.Dict.{lookup, delete, lookup-insert, lookup-delete}
use deespec.Txn.Types.{FileChecksum, FileOperation, Disk, validate_file_checksum}
use deespec.Txn.Manager.{finished, crashed, validate_staged, validate_final, rename, rename_all}

-- No operation of the list writes this file.
abbrev pub Untouched : String → List FileOperation → Type 0
Untouched path [] = Unit
Untouched path (op ∷ ops) = (op.destination ≢ path) × Untouched path ops

-- Every operation writes a file of its own.
abbrev pub OwnFiles : List FileOperation → Type 0
OwnFiles [] = Unit
OwnFiles (op ∷ ops) = Untouched op.destination ops × OwnFiles ops

-- Every operation has its content staged, with the recorded checksum if there is one.
abbrev pub Staged : (String → FileChecksum) → List FileOperation → Disk → Type 0
Staged sum [] disk = Unit
Staged sum (op ∷ ops) disk =
    ((content : String) × (lookup op.destination disk.staged ≡ some content)
      × ((op.checksum_info ≡ none)
          ⊎ ((expected : FileChecksum) × (op.checksum_info ≡ some expected)
              × (validate_file_checksum sum op.destination (some content) expected ≡ none))))
    × Staged sum ops disk

-- The renames of the first `n` operations.
unfoldable pub moved : ℕ → List FileOperation → Disk → Disk
unfolding rename
moved zero ops disk = disk
moved (suc n) [] disk = disk
moved (suc n) (op ∷ ops) disk = elim (lookup op.destination disk.staged) [
  | none ↦ disk
  | some content ↦ moved n ops (rename op content disk)
]

module _ (sum : String → FileChecksum) where
  pub Staged-validate_staged :
      (ops : List FileOperation) (disk : Disk)
      → Staged sum ops disk
      → validate_staged sum ops disk ≡ none
  unfolding validate_staged
  Staged-validate_staged [] disk staged = refl
  Staged-validate_staged (op ∷ ops) disk ((content, here, inl unchecked), rest) =
      rw (unchecked, validate_staged) (Staged-validate_staged ops disk rest)
  Staged-validate_staged (op ∷ ops) disk ((content, here, inr (expected, e, fine)), rest) =
      rw (e, validate_staged, here, fine) (Staged-validate_staged ops disk rest)

  -- A rename leaves the files of the other operations staged.
  pub Staged-rename :
      (op : FileOperation) (content : String) (ops : List FileOperation) (disk : Disk)
      → Untouched op.destination ops
      → Staged sum ops disk
      → Staged sum ops (rename op content disk)
  unfolding rename
  Staged-rename op content [] disk apart staged = tt
  Staged-rename op content (o ∷ ops) disk (different, apart) ((c, here, check), rest) =
      ((c, kept, check), Staged-rename op content ops disk apart rest)
    where
      kept : lookup o.destination (delete op.destination disk.staged) ≡ some c
      kept = ground (
        arith,
        lookup-delete op.destination o.destination disk.staged,
        eq_iff op.destination o.destination,
      )

  Staged-validate_final :
      (op : FileOperation) (content : String) (disk : Disk)
      → (op.checksum_info ≡ none)
        ⊎ ((expected : FileChecksum) × (op.checksum_info ≡ some expected)
            × (validate_file_checksum sum op.destination (some content) expected ≡ none))
      → validate_final sum op (rename op content disk) ≡ none
  unfolding validate_final rename
  Staged-validate_final op content disk (inl unchecked) = rw (unchecked, validate_final) refl
  Staged-validate_final op content disk (inr (expected, e, fine)) =
      rw
        (
          e,
          validate_final,
          lookup-insert op.destination op.destination content disk.finals,
          eq_refl op.destination,
          if◌then◌else◌,
        )
        fine

  -- With its files staged, a commit renames as many of them as the process lives for.
  pub rename_all-moved :
      (budget : ℕ) (ops : List FileOperation) (disk : Disk)
      → OwnFiles ops
      → Staged sum ops disk
      → ((length ops ≤ budget)
          × (rest : ℕ) × (length ops + rest ≡ budget)
          × (rename_all sum budget ops disk ≡ (moved budget ops disk, finished, rest)))
        ⊎ ((budget < length ops)
            × (rename_all sum budget ops disk ≡ (moved budget ops disk, crashed, 0)))
  unfolding rename_all moved
  rename_all-moved zero [] disk own staged = inl (omega arith, 0, refl, refl)
  rename_all-moved (suc budget) [] disk own staged =
      inl (omega arith, suc budget, omega arith, refl)
  rename_all-moved zero (op ∷ ops) disk own staged = inr (omega arith, refl)
  rename_all-moved (suc budget) (op ∷ ops) disk (apart, own) ((content, here, check), staged) =
      elim (rename_all-moved budget ops (rename op content disk) own
        (Staged-rename op content ops disk apart staged)) [
          | inl (enough, rest, sum_, e) ↦ inl (
            omega arith,
            rest,
            omega arith,
            rw (here, rename_all, moved, Staged-validate_final op content disk check) e,
          )
          | inr (short, e) ↦ inr (
            omega arith,
            rw (here, rename_all, moved, Staged-validate_final op content disk check) e,
          )
        ]

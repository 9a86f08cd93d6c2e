-- ===== src/Pbi/Approvals.antt =====
-- The counts and the lists of an approval manifest.
use deespec.Base.{ℕ, ◌≡◌, refl, ap, String, Bool, List, [], ◌∷◌, length, map, ◌+◌, arith}
use deespec.Pbi.Approval.{
  other, ApprovalRecord, ApprovalManifest, new_approval_record, new_approval_manifest,
  counts_as_approved, counts_as_pending, counts_as_rejected, files_where, count_where,
  get_approved_sbis, get_pending_sbis, approved_count, pending_count, rejected_count,
}

-- The records with a status that is none of the constants.
abbrev pub unknown_count : List ApprovalRecord → ℕ
unknown_count [] = 0
unknown_count (sbi ∷ sbis) =
    let rest = unknown_count sbis in elim sbi.status [ other _ ↦ rest + 1 | _ ↦ rest ]

length-files_where :
    (test : ApprovalRecord → Bool) (sbis : List ApprovalRecord)
    → length (files_where test sbis) ≡ count_where test sbis
unfolding files_where count_where
length-files_where test [] = refl
length-files_where test (sbi ∷ sbis) = ground (arith, length-files_where test sbis)

counts_add_up :
    (sbis : List ApprovalRecord)
    → count_where counts_as_approved sbis
        + count_where counts_as_pending sbis
        + count_where counts_as_rejected sbis
        + unknown_count sbis
      ≡ length sbis
unfolding count_where
counts_add_up [] = refl
counts_add_up (sbi ∷ sbis) = ground (arith, counts_add_up sbis)

-- The approved (or edited), pending and rejected SBIs of a manifest, and those with an unknown
-- status, are all its SBIs, each counted once; and the lists of the approved and of the pending
-- files are as long as their counts say.
pub counts_partition :
    (m : ApprovalManifest)
    → (approved_count m + pending_count m + rejected_count m + unknown_count m.sbis ≡ length m.sbis)
      × (length (get_approved_sbis m) ≡ approved_count m)
      × (length (get_pending_sbis m) ≡ pending_count m)
unfolding approved_count pending_count rejected_count get_approved_sbis get_pending_sbis
counts_partition m = (
  counts_add_up m.sbis,
  length-files_where counts_as_approved m.sbis,
  length-files_where counts_as_pending m.sbis,
)

pending_files :
    (files : List String) → files_where counts_as_pending (map new_approval_record files) ≡ files
unfolding files_where
pending_files [] = refl
pending_files (file ∷ files) = ap (λ rest. file ∷ rest) (pending_files files)

approved_none :
    (files : List String) → files_where counts_as_approved (map new_approval_record files) ≡ []
unfolding files_where
approved_none [] = refl
approved_none (file ∷ files) = approved_none files

-- In a new manifest every file is pending, in its order, none is approved, and the stored total is
-- the number of pending files.
pub new_approval_manifest-pending :
    (pbi_id : String) (files : List String) (now : ℕ)
    → (get_pending_sbis (new_approval_manifest pbi_id files now) ≡ files)
      × (get_approved_sbis (new_approval_manifest pbi_id files now) ≡ [])
      × ((new_approval_manifest pbi_id files now).total_sbis
          ≡ pending_count (new_approval_manifest pbi_id files now))
unfolding new_approval_manifest get_pending_sbis get_approved_sbis pending_count
new_approval_manifest-pending pbi_id files now = (
  pending_files files,
  approved_none files,
  rw (← length-files_where counts_as_pending (map new_approval_record files), pending_files files)
      refl,
)

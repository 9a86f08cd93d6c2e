-- ===== src/Pbi/Approval.antt =====
-- internal/domain/model/pbi/sbi_approval.go: the manifest of the SBIs generated for a PBI, each with
-- the outcome of its approval. The clock is the argument `now`.
use deespec.Base.{
  ℕ, String, Bool, true, false, Option, none, List, [], ◌∷◌, length, map, ◌+◌, if◌then◌else◌,
}

-- `other` is a text that is none of the constants.
pub data ApprovalStatus : Type 0 where
  pending approved rejected edited : ApprovalStatus
  other : String → ApprovalStatus

pub record ApprovalRecord : Type 0 where
  pub file : String
  pub status : ApprovalStatus
  pub reviewed_by : String
  pub reviewed_at : Option ℕ
  pub notes : String
  pub rejection_reason : String

pub record ApprovalManifest : Type 0 where
  pub pbi_id : String
  pub generated_at : ℕ
  pub total_sbis : ℕ
  pub sbis : List ApprovalRecord
  pub registered : Bool
  pub registered_at : Option ℕ
  pub registered_sbis : List String

abbrev pub new_approval_record : String → ApprovalRecord
new_approval_record file = record {
  file = file;
  status = pending;
  reviewed_by = "";
  reviewed_at = none;
  notes = "";
  rejection_reason = "";
}

unfoldable pub new_approval_manifest : String → List String → ℕ → ApprovalManifest
new_approval_manifest pbi_id sbi_files now = record {
  pbi_id = pbi_id;
  generated_at = now;
  total_sbis = length sbi_files;
  sbis = map new_approval_record sbi_files;
  registered = false;
  registered_at = none;
  registered_sbis = [];
}

abbrev pub counts_as_approved : ApprovalRecord → Bool
counts_as_approved sbi = elim sbi.status [ approved ↦ true | edited ↦ true | _ ↦ false ]

abbrev pub counts_as_pending : ApprovalRecord → Bool
counts_as_pending sbi = elim sbi.status [ pending ↦ true | _ ↦ false ]

abbrev pub counts_as_rejected : ApprovalRecord → Bool
counts_as_rejected sbi = elim sbi.status [ rejected ↦ true | _ ↦ false ]

-- `for _, sbi := range m.SBIs { if test { files = append(files, sbi.File) } }`
unfoldable pub files_where : (ApprovalRecord → Bool) → List ApprovalRecord → List String
files_where test [] = []
files_where test (sbi ∷ sbis) =
    let rest = files_where test sbis in if test sbi then sbi.file ∷ rest else rest

-- `for _, sbi := range m.SBIs { if test { count++ } }`
unfoldable pub count_where : (ApprovalRecord → Bool) → List ApprovalRecord → ℕ
count_where test [] = 0
count_where test (sbi ∷ sbis) =
    let rest = count_where test sbis in if test sbi then rest + 1 else rest

unfoldable pub get_approved_sbis : ApprovalManifest → List String
unfolding files_where
get_approved_sbis m = files_where counts_as_approved m.sbis

unfoldable pub get_pending_sbis : ApprovalManifest → List String
unfolding files_where
get_pending_sbis m = files_where counts_as_pending m.sbis

unfoldable pub approved_count : ApprovalManifest → ℕ
unfolding count_where
approved_count m = count_where counts_as_approved m.sbis

unfoldable pub pending_count : ApprovalManifest → ℕ
unfolding count_where
pending_count m = count_where counts_as_pending m.sbis

unfoldable pub rejected_count : ApprovalManifest → ℕ
unfolding count_where
rejected_count m = count_where counts_as_rejected m.sbis

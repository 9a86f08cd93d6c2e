-- ===== src/Register/Validation.antt =====
-- internal/application/service/register_validation_service.go: the checks of a specification, which
-- is that of internal/application/dto/register_sbi_dto.go. A compiled pattern is its test.
use deespec.Base.{
  ℕ, ltb, leb, String, Bool, true, not, ◌&&◌, ◌||◌, ◌==◌, str_eq, Option, some, none, List, [], ◌∷◌,
  ◌++◌, length, any, Result, ok, err, ◌>>=◌, if◌then◌else◌,
}
use deespec.Register.Runes.{Runes, runes, byte_length}

pub record RegisterSpec : Type 0 where
  pub id : String
  pub title : String
  pub labels : List String

pub record RegisterValidationService : Type 0 where
  pub id_pattern : Option (String → Bool)
  pub id_max_len : ℕ
  pub title_max_len : ℕ
  pub title_deny_empty : Bool
  pub labels_pattern : Option (String → Bool)
  pub labels_max_count : ℕ
  pub labels_warn_on_duplicates : Bool

pub data SpecError : Type 0 where
  id_missing invalid_id_format id_too_long title_missing title_too_long : SpecError
  invalid_label_format : String → SpecError

pub data SpecWarning : Type 0 where
  duplicate_label : String → SpecWarning
  labels_exceed : ℕ → ℕ → SpecWarning

pub record ValidationResult : Type 0 where
  pub warnings : List SpecWarning
  pub failure : Option SpecError

abbrev pub all_runes : (ℕ → Bool) → Runes → Bool
all_runes test [] = true
all_runes test (c ∷ s) = test c && all_runes test s

abbrev pub is_digit_or_hyphen : ℕ → Bool
is_digit_or_hyphen c = (leb b'0' c && leb c b'9') || (c == b'-')

-- ^[A-Z0-9-]{1,64}$
unfoldable pub default_id_pattern : String → Bool
default_id_pattern id =
    all_runes (λ c. (leb b'A' c && leb c b'Z') || is_digit_or_hyphen c) (runes id)
    && leb 1 (length (runes id))
    && leb (length (runes id)) 64

-- ^[a-z0-9-]+$
unfoldable pub default_labels_pattern : String → Bool
default_labels_pattern label =
    all_runes (λ c. (leb b'a' c && leb c b'z') || is_digit_or_hyphen c) (runes label)
    && leb 1 (length (runes label))

unfoldable pub new_register_validation_service : RegisterValidationService
unfolding default_id_pattern default_labels_pattern
new_register_validation_service = record {
  id_pattern = some default_id_pattern;
  id_max_len = 64;
  title_max_len = 200;
  title_deny_empty = true;
  labels_pattern = some default_labels_pattern;
  labels_max_count = 32;
  labels_warn_on_duplicates = true;
}

-- pattern == nil || pattern.MatchString(s)
abbrev pub matches : Option (String → Bool) → String → Bool
matches none s = true
matches (some pattern) s = pattern s

-- limit > 0 && size > limit
abbrev pub above : ℕ → ℕ → Bool
above limit size = ltb 0 limit && ltb limit size

unfoldable pub labels_result : Result SpecError (List SpecWarning) → ValidationResult
labels_result (err failure) = record { warnings = []; failure = some failure }
labels_result (ok warnings) = record { warnings = warnings; failure = none }

module _ (service : RegisterValidationService) where
  unfoldable pub validate_id : String → Option SpecError
  unfolding byte_length
  validate_id id =
      if str_eq id ""
      then some id_missing
      else if not (matches service.id_pattern id)
      then some invalid_id_format
      else if above service.id_max_len (byte_length (runes id))
      then some id_too_long
      else none

  unfoldable pub validate_title : String → Option SpecError
  unfolding byte_length
  validate_title title =
      if str_eq title "" && service.title_deny_empty
      then some title_missing
      else if above service.title_max_len (byte_length (runes title))
      then some title_too_long
      else none

  -- The loop over the labels, `seen` being the labels in labelMap.
  unfoldable pub check_labels : List String → List String → Result SpecError (List SpecWarning)
  check_labels seen [] = ok []
  check_labels seen (label ∷ labels) =
      let rest = check_labels (label ∷ seen) labels >>= λ warnings. ok (
        if any (str_eq label) seen && service.labels_warn_on_duplicates
        then duplicate_label label ∷ warnings
        else warnings) in
      if not (matches service.labels_pattern label) then err (invalid_label_format label) else rest

  unfoldable pub validate_labels : List String → Result SpecError (List SpecWarning)
  unfolding check_labels
  validate_labels labels = check_labels [] labels >>= λ warnings. ok (
      if above service.labels_max_count (length labels)
      then warnings ++ (labels_exceed service.labels_max_count (length labels) ∷ [])
      else warnings)

  unfoldable pub validate_spec : RegisterSpec → ValidationResult
  unfolding validate_id validate_title validate_labels labels_result
  validate_spec spec = elim (validate_id spec.id) [
    | some failure ↦ record { warnings = []; failure = some failure }
    | none ↦ elim (validate_title spec.title) [
      | some failure ↦ record { warnings = []; failure = some failure }
      | none ↦ labels_result (validate_labels spec.labels)
    ]
  ]

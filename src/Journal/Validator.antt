-- ===== src/Journal/Validator.antt =====
-- internal/validator/journal/validator.go: the validation of a line and of a file. The block for a
-- wrong number of keys that comes after the return on a wrong number of keys is left out: it is
-- never reached.
use deespec.Base.{
  ℕ, zero, String, Bool, not, List, [], ◌∷◌, ◌++◌, Result, ok, err, any, length, ◌+◌, ◌==◌, str_eq,
  if◌then◌else◌,
}
use deespec.Base.Int.{ℤ, negsuc}
use deespec.Journal.Line.{
  JournalEntry, Issue, invalid_json, type_validation_failed, wrong_key_count, missing_key, is_error,
  is_warning, required_keys, validate_timestamp, validate_turn, validate_step, validate_decision,
  validate_elapsed_ms, validate_artifacts,
}

-- A line without the space around it, its keys if it is an object of JSON, and the entry read from it.
pub record SourceLine : Type 0 where
  pub trimmed : String
  pub keys : Result String (List String)
  pub entry : Result String JournalEntry

pub record LineResult : Type 0 where
  pub line : ℕ
  pub issues : List Issue

pub record Summary : Type 0 where
  pub lines : ℕ
  pub ok_lines : ℕ
  pub warn_lines : ℕ
  pub error_lines : ℕ

unfoldable pub missing_keys : List String → List String → List Issue
missing_keys keys [] = []
missing_keys keys (key ∷ required) =
    let rest = missing_keys keys required in
    if any (str_eq key) keys then rest else missing_key key ∷ rest

module _ (parses : String → Bool) where
  unfoldable pub validate_entry : ℤ → JournalEntry → List Issue × ℤ
  unfolding validate_timestamp validate_turn validate_step validate_decision validate_elapsed_ms
      validate_artifacts
  validate_entry previous e = (
    validate_timestamp parses e.timestamp
        ++ (validate_turn previous e.turn).0
        ++ validate_step e.step
        ++ validate_decision e.decision
        ++ validate_elapsed_ms e.elapsed_ms
        ++ validate_artifacts e.artifacts e.turn,
    (validate_turn previous e.turn).1,
  )

  -- With the seven keys, the entry is read and its fields are checked.
  unfoldable pub validate_fields : ℤ → Result String JournalEntry → List Issue × ℤ
  unfolding validate_entry
  validate_fields previous (err e) = (type_validation_failed ∷ [], previous)
  validate_fields previous (ok e) = validate_entry previous e

  -- The structural issues end the validation of a line.
  unfoldable pub validate_structured : ℤ → List Issue → Result String JournalEntry → List Issue × ℤ
  unfolding validate_fields
  validate_structured previous [] entry = validate_fields previous entry
  validate_structured previous (issue ∷ issues) entry = (issue ∷ issues, previous)

  unfoldable pub validate_line : ℤ → SourceLine → List Issue × ℤ
  unfolding validate_structured missing_keys
  validate_line previous l = elim l.keys [
    | err e ↦ (invalid_json ∷ [], previous)
    | ok keys ↦
        if not (length keys == 7)
        then (wrong_key_count (length keys) ∷ [], previous)
        else validate_structured previous (missing_keys keys required_keys) l.entry
  ]

  unfoldable pub count_line : List Issue → Summary → Summary
  count_line issues s =
      if any is_error issues
      then record s { lines = s.lines + 1; error_lines = s.error_lines + 1 }
      else if any is_warning issues
      then record s { lines = s.lines + 1; warn_lines = s.warn_lines + 1 }
      else record s { lines = s.lines + 1; ok_lines = s.ok_lines + 1 }

  -- The state of the loop: the number of the last line, the last turn, the results and the summary.
  pub record Progress : Type 0 where
    pub line_number : ℕ
    pub previous_turn : ℤ
    pub results : List LineResult
    pub summary : Summary

  abbrev pub initial : Progress
  initial = record {
    line_number = zero;
    previous_turn = negsuc 0;
    results = [];
    summary = record { lines = 0; ok_lines = 0; warn_lines = 0; error_lines = 0 };
  }

  unfoldable pub take_line : SourceLine → Progress → Progress
  unfolding validate_line count_line
  take_line l p =
      if str_eq l.trimmed "" then record p { line_number = p.line_number + 1 } else record {
        line_number = p.line_number + 1;
        previous_turn = (validate_line p.previous_turn l).1;
        results =
            p.results
            ++ (record { line = p.line_number + 1; issues = (validate_line p.previous_turn l).0 })
              ∷ [];
        summary = count_line (validate_line p.previous_turn l).0 p.summary;
      }

  -- An error of the scanner, such as a line above its buffer, is left out.
  unfoldable pub validate_lines : List SourceLine → Progress → Progress
  unfolding take_line
  validate_lines [] p = p
  validate_lines (l ∷ ls) p = validate_lines ls (take_line l p)

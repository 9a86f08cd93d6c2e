-- ===== src/Journal/Tests.antt =====
-- The theorems about the validation of a journal at concrete inputs.
use deespec.Base.{◌≡◌, ◌↔◌, refl, String, Bool, true, List, [], ◌∷◌, some, ok, err, ◌+◌}
use deespec.Base.Int.{ℤ, pos, negsuc}
use deespec.Journal.Line.{
  JournalEntry, object, required_keys, validate_timestamp, validate_turn, validate_step,
  validate_decision, validate_elapsed_ms, validate_elements, validate_artifacts, ends_with_z,
}
use deespec.Journal.Validator.{
  SourceLine, initial, validate_lines, take_line, count_line, validate_line, validate_structured,
  validate_fields, validate_entry, missing_keys,
}
use deespec.Journal.Accepted.{ValidFrom, validate_lines-accepts}

abbrev every_time : String → Bool
every_time ts = true

abbrev entry : ℤ → JournalEntry
entry turn = record {
  timestamp = "2025-10-12T10:00:00Z";
  turn = turn;
  step = "review";
  decision = "OK";
  elapsed_ms = pos 1500;
  error = "";
  artifacts = some (object ∷ []);
}

abbrev line : ℤ → SourceLine
line turn = record { trimmed = "{...}"; keys = ok required_keys; entry = ok (entry turn) }

abbrev blank : SourceLine
blank = record { trimmed = ""; keys = err "empty"; entry = err "empty" }

abbrev broken : SourceLine
broken = record { trimmed = "{"; keys = err "unexpected end"; entry = err "unexpected end" }

abbrev file : List SourceLine
file = line (pos 2) ∷ blank ∷ line (pos 1) ∷ broken ∷ line (pos 1) ∷ []

unfoldable whole_validation : Unit {0}
unfolding validate_lines take_line count_line validate_line validate_structured validate_fields
    validate_entry missing_keys validate_timestamp validate_turn validate_step validate_decision
    validate_elapsed_ms validate_elements validate_artifacts ends_with_z
whole_validation = tt

file_summary :
    (validate_lines every_time file (initial every_time)).summary
    ≡ record { lines = 4; ok_lines = 2; warn_lines = 1; error_lines = 1 }
unfolding whole_validation
file_summary = refl

validate_lines-accepts_example :
    ((validate_lines every_time file (initial every_time)).summary.warn_lines
        + (validate_lines every_time file (initial every_time)).summary.error_lines
      ≡ 0)
    ↔ ValidFrom every_time (negsuc 0) file
validate_lines-accepts_example = validate_lines-accepts every_time file

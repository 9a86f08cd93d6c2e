-- ===== src/Execution/Decision.antt =====
-- internal/domain/execution/decision.go. The source's type is a string: `other` stands for a
-- string that is none of the constants.
use deespec.Base.{String, Bool, true, false, ◌||◌, str_eq, if◌then◌else◌}

pub data Decision : Type 0 where
  pending needs_changes succeeded failed : Decision
  other : String → Decision

-- Go's `==` on the strings.
unfoldable pub same : Decision → Decision → Bool
same pending pending = true
same needs_changes needs_changes = true
same succeeded succeeded = true
same failed failed = true
same (other s) (other t) = str_eq s t
same _ _ = false

unfoldable pub is_valid : Decision → Bool
is_valid (other _) = false
is_valid _ = true

unfoldable pub is_final : Decision → Bool
unfolding same
is_final d = same d succeeded || same d failed

unfoldable pub is_approved : Decision → Bool
unfolding same
is_approved d = same d succeeded

unfoldable pub requires_retry : Decision → Bool
unfolding same
requires_retry d = same d needs_changes

unfoldable pub is_pending : Decision → Bool
unfolding same
is_pending d = same d pending

-- The `switch` of `ParseDecision`, on the text that `TrimSpace` and `ToUpper` have normalized.
unfoldable pub parse_normalized : String → Decision
parse_normalized s =
    if str_eq s "OK"
      || str_eq s "APPROVED"
      || str_eq s "PASS"
      || str_eq s "PASSED"
      || str_eq s "SUCCEEDED"
      || str_eq s "SUCCESS"
    then succeeded
    else if str_eq s "NEEDS_CHANGES"
        || str_eq s "NEEDS CHANGES"
        || str_eq s "FAIL"
        || str_eq s "REJECT"
        || str_eq s "REJECTED"
    then needs_changes
    else if str_eq s "FAILED" || str_eq s "FAILURE"
    then failed
    else if str_eq s "PENDING" || str_eq s ""
    then pending
    else needs_changes

unfoldable pub to_journal_decision : Decision → String
to_journal_decision succeeded = "OK"
to_journal_decision needs_changes = "NEEDS_CHANGES"
to_journal_decision failed = "NEEDS_CHANGES"
to_journal_decision pending = "PENDING"
to_journal_decision (other _) = ""

unfoldable pub can_transition_to : Decision → Decision → Bool
unfolding same is_final
can_transition_to d next =
    if same d pending
    then same next needs_changes || same next succeeded || same next failed
    else if same d needs_changes
    then same next succeeded || same next failed || same next pending
    else if is_final d
    then false
    else false

-- ===== src/Continuous/Errors.antt =====
-- The classes of errors of internal/application/service/continuous_execution_service.go.
use text.Mathlib.Text.{starts_with}
use deespec.Base.{ℕ, String, Bool, true, false, ◌||◌, Option, some, none, ◌+◌, if◌then◌else◌}

-- strings.Contains
unfoldable pub contains : String → String → Bool
contains String.[] part = starts_with "" part
contains (String.◌∷◌ c s) part = starts_with (String.◌∷◌ c s) part || contains s part

unfoldable pub is_temporary_error : String → Bool
unfolding contains
is_temporary_error text =
    contains text "connection refused"
    || contains text "timeout"
    || contains text "permission denied"
    || contains text "no such file"

unfoldable pub is_configuration_error : String → Bool
unfolding contains
is_configuration_error text =
    contains text "config" || contains text "invalid flag" || contains text "missing required"

unfoldable pub is_critical_error : String → Bool
unfolding contains
is_critical_error text =
    contains text "out of memory" || contains text "disk full" || contains text "corrupted"

pub data Classification : Type 0 where
  temporary configuration critical unknown : Classification

-- `none` is no error.
unfoldable pub classify_error : Option String → Classification
unfolding is_temporary_error is_configuration_error is_critical_error
classify_error none = unknown
classify_error (some text) =
    if is_temporary_error text
    then temporary
    else if is_configuration_error text
    then configuration
    else if is_critical_error text
    then critical
    else unknown

pub record Statistics : Type 0 where
  pub total_executions : ℕ
  pub successful_runs : ℕ
  pub temporary_errors : ℕ
  pub config_errors : ℕ
  pub critical_errors : ℕ
  pub last_error : Option String

-- The statistics, and whether the execution goes on. The message is left out.
unfoldable pub handle_class : Classification → Statistics → Statistics × Bool
handle_class temporary stats =
    (record stats { temporary_errors = stats.temporary_errors + 1 }, true)
handle_class configuration stats = (record stats { config_errors = stats.config_errors + 1 }, true)
handle_class critical stats = (record stats { critical_errors = stats.critical_errors + 1 }, false)
handle_class unknown stats = (record stats { temporary_errors = stats.temporary_errors + 1 }, true)

unfoldable pub handle_execution_error : String → Statistics → Statistics × Bool
unfolding classify_error handle_class
handle_execution_error text stats =
    handle_class (classify_error (some text)) (record stats { last_error = some text })

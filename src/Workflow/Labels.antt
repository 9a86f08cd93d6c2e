-- ===== src/Workflow/Labels.antt =====
-- internal/application/usecase/execution/run_turn_use_case.go: the texts of statuses and steps, and
-- the status that the older workflow decides by such texts.
use deespec.Base.{ℕ, String, Bool, true, false, ◌||◌, leb, str_eq, if◌then◌else◌}
use deespec.Model.Status.{Status}

unfoldable pub map_domain_status_to_string : Status → String
map_domain_status_to_string Status.pending = "READY"
map_domain_status_to_string Status.picked = "WIP"
map_domain_status_to_string Status.implementing = "WIP"
map_domain_status_to_string Status.reviewing = "REVIEW"
map_domain_status_to_string Status.done = "DONE"
map_domain_status_to_string Status.failed = "FAILED"
map_domain_status_to_string (Status.other s) = s

unfoldable pub map_string_to_domain_status : String → Status
map_string_to_domain_status text =
    if str_eq text "READY"
    then Status.pending
    else if str_eq text "WIP"
    then Status.implementing
    else if str_eq text "REVIEW"
    then Status.reviewing
    else if str_eq text "REVIEW&WIP"
    then Status.implementing
    else if str_eq text "DONE"
    then Status.done
    else if str_eq text "FAILED"
    then Status.failed
    else Status.pending

unfoldable pub status_to_step : String → String
status_to_step status =
    if str_eq status "READY" || str_eq status "WIP"
    then "implement"
    else if str_eq status "REVIEW"
    then "review"
    else if str_eq status "REVIEW&WIP"
    then "force_implement"
    else if str_eq status "DONE"
    then "done"
    else "unknown"

-- The next status, and whether the attempt counter goes up.
unfoldable pub determine_next_status : String → String → ℕ → String × Bool
determine_next_status current_status decision attempt =
    if str_eq current_status "" || str_eq current_status "READY"
    then ("WIP", false)
    else if str_eq current_status "WIP"
    then ("REVIEW", false)
    else if str_eq current_status "REVIEW"
    then if str_eq decision "SUCCEEDED"
      then ("DONE", false)
      else if leb 3 attempt
      then ("REVIEW&WIP", false)
      else ("WIP", true)
    else if str_eq current_status "REVIEW&WIP"
    then ("DONE", false)
    else if str_eq current_status "DONE"
    then ("DONE", false)
    else ("READY", false)

unfoldable pub determine_next_status_for_sbi : Status → String → ℕ → Status × Bool
unfolding map_domain_status_to_string determine_next_status map_string_to_domain_status
determine_next_status_for_sbi current_status decision attempt =
    let (next_status, should_increment) =
      determine_next_status (map_domain_status_to_string current_status) decision attempt in
    (map_string_to_domain_status next_status, should_increment)

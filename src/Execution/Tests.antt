-- ===== src/Execution/Tests.antt =====
-- The theorems about executions at concrete inputs.
use deespec.Base.{
  ◌≡◌, refl, ◌⊎◌, ◌<◌, String, Bool, Option, none, some, List, [], ◌∷◌, ok, err, Result, Succeeds,
  arith, str_eq, eq_refl, if◌then◌else◌,
}
use deespec.Execution.Step
use deespec.Execution.Step.{Step}
use deespec.Execution.Status
use deespec.Execution.Decision
use deespec.Execution.Decision.{Decision}
use deespec.Execution.Entity.{SbiExecution, new_sbi_execution, is_completed}
use deespec.Execution.Service.{Repository, advance, not_updated, progress_execution}
use deespec.Execution.Invariant.{Inv, new_sbi_execution-Inv, advance_total}
use deespec.Execution.Stored.{Keeps, progress_execution_stored}

abbrev fresh : SbiExecution
unfolding new_sbi_execution
fresh = new_sbi_execution "SBI-1" 1_700_000_000_000_000_000

fresh-Inv : Inv fresh
unfolding new_sbi_execution
fresh-Inv = new_sbi_execution-Inv "SBI-1" 1_700_000_000_000_000_000

fresh_id : fresh.id ≡ "SBI-1_1700000000"
unfolding new_sbi_execution
fresh_id = refl

advance_total_example :
    Succeeds
      (λ e'. Inv e' × (Step.to_number fresh.step < Step.to_number e'.step))
      (advance fresh Decision.pending 5)
unfolding new_sbi_execution is_completed
advance_total_example = advance_total fresh Decision.pending 5 fresh-Inv refl

-- In the third review, with the decision that the second review left.
abbrev third : SbiExecution
third = record fresh {
  step = Step.third_review;
  status = Status.review;
  decision = Decision.needs_changes;
  attempt = 3;
}

third-Inv : Inv third
unfolding new_sbi_execution is_completed Step.to_status Decision.is_valid Decision.same
third-Inv = ground arith

-- Completed by the forced path, with a decision that is not final.
abbrev forced : SbiExecution
forced = record third { step = Step.done; status = Status.done; attempt = 4; completed_at = some 9 }

forced-Inv : Inv forced
unfolding new_sbi_execution is_completed Step.to_status Decision.is_valid Decision.same
forced-Inv = ground arith

-- A repository in memory: the newest version of an execution stands first.
abbrev first_where : (SbiExecution → Bool) → List SbiExecution → Option SbiExecution
first_where test [] = none
first_where test (e ∷ es) = if test e then some e else first_where test es

abbrev or_missing : Option SbiExecution → Result String SbiExecution
or_missing none = err "not found"
or_missing (some e) = ok e

abbrev in_memory : Repository
in_memory = record {
  Store = List SbiExecution;
  save = λ es e. (e ∷ es, none);
  find_by_id = λ es id. or_missing (first_where (λ e. str_eq e.id id) es);
  find_by_sbi_id = λ es id. ok (first_where (λ e. str_eq e.sbi_id id) es);
  update = λ es e. (e ∷ es, none);
}

in_memory-Keeps : Keeps in_memory
in_memory-Keeps = record {
  found_by_sbi_id = λ store e saved. rw (eq_refl e.sbi_id, if◌then◌else◌) refl;
  found_updated = λ store e updated. rw (eq_refl e.id, if◌then◌else◌, or_missing) refl;
}

progress_execution_stored_example :
    Succeeds
      (λ e'.
        (in_memory.find_by_id
            (progress_execution in_memory (third ∷ []) third.id Decision.failed 5).0
            third.id
          ≡ ok e')
        × Inv e'
        × (Step.to_number third.step < Step.to_number e'.step))
      (progress_execution in_memory (third ∷ []) third.id Decision.failed 5).1
    ⊎ ((x : String) × ((progress_execution in_memory (third ∷ []) third.id Decision.failed 5).1
          ≡ err (not_updated x)))
unfolding new_sbi_execution is_completed
progress_execution_stored_example =
    progress_execution_stored in_memory in_memory-Keeps (third ∷ []) third.id Decision.failed 5
      third refl refl third-Inv refl

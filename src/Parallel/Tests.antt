-- ===== src/Parallel/Tests.antt =====
-- The theorems about batches at concrete inputs.
use deespec.Base.{
  ◌≡◌, ◌≢◌, refl, ◌⊎◌, ◌≤◌, arith, String, true, false, none, some, List, [], ◌∷◌, length, differ,
  Result, ok, any, if◌then◌else◌,
}
use deespec.Base.Int.{pos, pos_part}
use deespec.Model.Status
use deespec.Model.Status.{Status}
use deespec.Model.Value.{Step, TaskType}
use deespec.Model.Sbi.{Sbi}
use deespec.Parallel.AgentPool.{AgentPool, new_agent_pool, get_current, get_max, try_acquire}
use deespec.Parallel.Runner.{
  Batch, Worker, here, ◌⊢◌⟶◌, started, skipped, consider, SbiFilter, whole_batch,
}
use deespec.Parallel.Files.{shares}
use deespec.Parallel.Slots.{slots}
use deespec.Parallel.Outcomes.{
  ◌⊢◌⟶*◌, ended, goes, AllDistinct, Idle, new_batch, workers_share_no_file, slots_within_limits,
}
use deespec.Parallel.Ends.{AtRest, steps, batch_ends-AtRest}

abbrev changing : String → List String → Status → Sbi
changing id file_paths status = record {
  base = record {
    id = id;
    task_type = TaskType.sbi;
    title = "Change files";
    description = "";
    status = status;
    current_step = Step.pick;
    parent_id = none;
    created_at = 5;
    updated_at = 9;
  };
  metadata = record {
    priority = pos 0;
    sequence = pos 1;
    registered_at = 5;
    started_at = none;
    completed_at = none;
    labels = [];
    assigned_agent = "claude-code";
    file_paths = file_paths;
    depends_on = [];
    only_implement = false;
  };
  execution = record {
    current_turn = record { value = 0 };
    current_attempt = record { value = 1 };
    max_turns = pos 10;
    max_attempts = pos 3;
    last_error = "";
    artifact_paths = [];
  };
}

abbrev parser : Sbi
parser = changing "SBI-1" ("parser.go" ∷ "ast.go" ∷ []) Status.pending

abbrev printer : Sbi
printer = changing "SBI-2" ("printer.go" ∷ []) Status.pending

abbrev checker : Sbi
checker = changing "SBI-3" ("check.go" ∷ "ast.go" ∷ []) Status.pending

abbrev sbis : List Sbi
sbis = parser ∷ printer ∷ checker ∷ []

sbis-AllDistinct : AllDistinct sbis
sbis-AllDistinct = ((differ _ _ refl, (differ _ _ refl, tt)), ((differ _ _ refl, tt), (tt, tt)))

new_agent_pool-Idle : Idle (some new_agent_pool)
unfolding whole_batch new_agent_pool
new_agent_pool-Idle agent = refl

abbrev at_start : Batch
at_start = new_batch (some new_agent_pool) sbis

abbrev one_running : Batch
unfolding whole_batch new_batch
one_running = (consider at_start parser (printer ∷ checker ∷ [])).0

abbrev two_running : Batch
unfolding whole_batch new_batch
two_running = (consider one_running printer (checker ∷ [])).0

abbrev all_considered : Batch
unfolding whole_batch new_batch
all_considered = (consider two_running checker []).0

first_start : 4 ⊢ at_start ⟶ one_running
unfolding whole_batch new_batch new_agent_pool
first_start = started {b = at_start} {s = parser} refl refl (omega arith)

-- The third SBI shares a file with the first: it is skipped.
run : 4 ⊢ new_batch (some new_agent_pool) sbis ⟶* all_considered
unfolding whole_batch new_batch new_agent_pool
run = goes first_start (
    goes (started {b = one_running} {s = printer} refl refl (omega arith))
      (goes (skipped {b = two_running} {s = checker} refl refl) ended))

abbrev first_worker : Worker
first_worker = record { sbi = parser; holds_slot = true }

abbrev second_worker : Worker
second_worker = record { sbi = printer; holds_slot = true }

workers_share_no_file_example : shares ("printer.go" ∷ []) ("parser.go" ∷ "ast.go" ∷ []) ≡ false
unfolding whole_batch new_batch new_agent_pool
workers_share_no_file_example =
    workers_share_no_file 4 (some new_agent_pool) sbis sbis-AllDistinct new_agent_pool-Idle
      all_considered run second_worker first_worker (first_worker ∷ []) [] here here

abbrev pool_then : AgentPool
unfolding try_acquire
pool_then = (try_acquire (try_acquire new_agent_pool "claude-code").0 "claude-code").0

slots_within_limits_example :
    (get_current pool_then "claude-code" ≡ slots "claude-code" all_considered.workers)
    × (slots "claude-code" all_considered.workers ≤ pos_part (get_max pool_then "claude-code"))
    × (length all_considered.workers ≤ 4)
    × ((all_considered.workers ≢ []) ⊎ (get_current pool_then "claude-code" ≡ 0))
unfolding whole_batch new_batch new_agent_pool try_acquire
slots_within_limits_example =
    slots_within_limits 4 (some new_agent_pool) sbis sbis-AllDistinct new_agent_pool-Idle
      all_considered run pool_then "claude-code" refl

batch_ends-AtRest_example :
    (steps run ≤ 9) × ((b' : Batch) × (4 ⊢ all_considered ⟶* b') × AtRest b')
unfolding whole_batch
batch_ends-AtRest_example =
    batch_ends-AtRest 4 (some new_agent_pool) sbis all_considered (omega arith) sbis-AllDistinct
      new_agent_pool-Idle run

abbrev finished : Sbi
finished = changing "SBI-0" [] Status.done

-- A repository in which `printer` waits for an SBI that is not done.
abbrev select : List Status → List Sbi → List Sbi
select statuses [] = []
select statuses (s ∷ rest) =
    let others = select statuses rest in
    if any (Status.same s.status) statuses then s ∷ others else others

abbrev list : SbiFilter → Result String (List Sbi)
list filter = ok (select filter.statuses (finished ∷ sbis))

abbrev get_dependencies : Sbi → Result String (List String)
get_dependencies s = elim s.metadata.file_paths [
  | [] ↦ ok []
  | path ∷ [] ↦ ok ("SBI-0" ∷ "SBI-9" ∷ [])
  | path ∷ paths ↦ ok ("SBI-0" ∷ [])
]

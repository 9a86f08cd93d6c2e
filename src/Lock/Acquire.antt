-- ===== src/Lock/Acquire.antt =====
-- internal/infrastructure/persistence/sqlite/run_lock_repository_impl.go: the acquisition of a run lock.
-- The table holds at most one row for a lock, since its id is unique. Each statement is one step, and
-- other processes may take steps in between. Failures of the database are left out, and times are
-- compared as numbers, not as the texts that the table holds.
use deespec.Base.{
  ℕ, String, Bool, true, false, not, ◌||◌, Option, none, some, ltb, ◌==◌, if◌then◌else◌,
}
use deespec.Lock.RunLock.{RunLock, new_run_lock, is_expired}

-- How far a call of Acquire has come: before its Find, before the DELETE for the row it found, before
-- the second Find, before the INSERT, and its two results.
pub data Phase : Type 0 where
  started checking inserting refused : Phase
  cleaning : RunLock → Phase
  acquired : RunLock → Phase

-- A call of Acquire: the process, its time at the start and at the INSERT.
pub record Call : Type 0 where
  pub pid : ℕ
  pub hostname : String
  pub now : ℕ
  pub inserts_at : ℕ

-- DELETE ... WHERE lock_id = ? AND (expires_at < ? OR pid = ?), and whether it deleted a row.
unfoldable pub delete_stale : Option RunLock → ℕ → ℕ → Option RunLock × Bool
delete_stale none now pid = (none, false)
delete_stale (some row) now pid =
    if ltb row.expires_at now || (row.pid == pid) then (none, true) else (some row, false)

-- `running` is isProcessRunning.
unfoldable pub acquire_step :
    (ℕ → Bool) → ℕ → Call → Phase → Option RunLock → Phase × Option RunLock
unfolding delete_stale is_expired new_run_lock
acquire_step running ttl call started none = (inserting, none)
acquire_step running ttl call started (some row) =
    if not (is_expired row call.now || not (running row.pid))
    then (refused, some row)
    else (cleaning row, some row)
acquire_step running ttl call (cleaning existing) table =
    let (table', deleted) = delete_stale table call.now existing.pid in
    if deleted then (inserting, table') else (checking, table')
acquire_step running ttl call checking none = (inserting, none)
acquire_step running ttl call checking (some row) = (refused, some row)
acquire_step running ttl call inserting none =
    let row = new_run_lock call.pid call.hostname ttl call.inserts_at in (acquired row, some row)
acquire_step running ttl call inserting (some row) = (refused, some row)
acquire_step running ttl call refused table = (refused, table)
acquire_step running ttl call (acquired row) table = (acquired row, table)

-- A call that no other process interrupts.
unfoldable pub acquire : (ℕ → Bool) → ℕ → Call → Option RunLock → Phase × Option RunLock
unfolding acquire_step
acquire running ttl call table =
    let (phase, table') = acquire_step running ttl call started table in
    let (phase', table'') = acquire_step running ttl call phase table' in
    acquire_step running ttl call phase' table''

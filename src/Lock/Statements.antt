-- ===== src/Lock/Statements.antt =====
-- internal/infrastructure/persistence/sqlite/run_lock_repository_impl.go: the other statements on the
-- row of a run lock. Failures of the database are left out, and Extend, which reads and then writes, is
-- not interrupted.
use deespec.Base.{ℕ, ◌+◌, Option, none, some, Result, ok, err, ltb, if◌then◌else◌}
use deespec.Lock.RunLock.{RunLock}

pub data LockError : Type 0 where
  lock_missing : LockError

unfoldable pub release_row : Option RunLock → Result LockError (Option RunLock)
release_row none = err lock_missing
release_row (some row) = ok none

unfoldable pub update_heartbeat_row : Option RunLock → ℕ → Result LockError (Option RunLock)
update_heartbeat_row none now = err lock_missing
update_heartbeat_row (some row) now = ok (some (record row { heartbeat_at = now }))

unfoldable pub extend_row : Option RunLock → ℕ → Result LockError (Option RunLock)
extend_row none duration = err lock_missing
extend_row (some row) duration = ok (some (record row { expires_at = row.expires_at + duration }))

-- The row after the clean-up, and the number of rows deleted.
unfoldable pub cleanup_expired : Option RunLock → ℕ → Option RunLock × ℕ
cleanup_expired none now = (none, 0)
cleanup_expired (some row) now = if ltb row.expires_at now then (none, 1) else (some row, 0)

-- ===== src/Lock/RunLock.antt =====
-- internal/domain/model/lock/run_lock.go: a lock held by a process until it expires. Metadata is left
-- out; times are numbers.
use deespec.Base.{ℕ, ◌+◌, ◌-◌, String, Bool, ltb}

pub record RunLock : Type 0 where
  pub pid : ℕ
  pub hostname : String
  pub acquired_at : ℕ
  pub expires_at : ℕ
  pub heartbeat_at : ℕ

unfoldable pub new_run_lock : ℕ → String → ℕ → ℕ → RunLock
new_run_lock pid hostname ttl now = record {
  pid = pid;
  hostname = hostname;
  acquired_at = now;
  expires_at = now + ttl;
  heartbeat_at = now;
}

unfoldable pub is_expired : RunLock → ℕ → Bool
is_expired l now = ltb l.expires_at now

-- A difference of times below zero is never above the staleness.
unfoldable pub is_heartbeat_stale : RunLock → ℕ → ℕ → Bool
is_heartbeat_stale l max_staleness now = ltb max_staleness (now - l.heartbeat_at)

unfoldable pub update_heartbeat : RunLock → ℕ → RunLock
update_heartbeat l now = record l { heartbeat_at = now }

unfoldable pub extend : RunLock → ℕ → RunLock
extend l duration = record l { expires_at = l.expires_at + duration }

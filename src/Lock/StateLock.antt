-- ===== src/Lock/StateLock.antt =====
-- internal/domain/model/lock/state_lock.go: a lock on a state file, for reading or for writing. The
-- host's name, the process and the time are arguments; times are numbers.
use deespec.Base.{ℕ, ◌+◌, ◌-◌, String, Bool, ltb, Result, ok, err}

-- A string that is no constant is `other`.
pub data LockType : Type 0 where
  read write : LockType
  other : String → LockType

pub record StateLock : Type 0 where
  pub pid : ℕ
  pub hostname : String
  pub acquired_at : ℕ
  pub expires_at : ℕ
  pub heartbeat_at : ℕ
  pub lock_type : LockType

pub data StateLockError : Type 0 where
  invalid_lock_type : String → StateLockError
  lock_not_found : String → StateLockError

abbrev pub state_lock_of : ℕ → String → LockType → ℕ → ℕ → StateLock
state_lock_of pid hostname lock_type ttl now = record {
  pid = pid;
  hostname = hostname;
  acquired_at = now;
  expires_at = now + ttl;
  heartbeat_at = now;
  lock_type = lock_type;
}

unfoldable pub new_state_lock : ℕ → String → LockType → ℕ → ℕ → Result StateLockError StateLock
new_state_lock pid hostname read ttl now = ok (state_lock_of pid hostname read ttl now)
new_state_lock pid hostname write ttl now = ok (state_lock_of pid hostname write ttl now)
new_state_lock pid hostname (other text) ttl now = err (invalid_lock_type text)

unfoldable pub is_expired : StateLock → ℕ → Bool
is_expired l now = ltb l.expires_at now

-- A difference of times below zero is never above the staleness.
unfoldable pub is_heartbeat_stale : StateLock → ℕ → ℕ → Bool
is_heartbeat_stale l max_staleness now = ltb max_staleness (now - l.heartbeat_at)

unfoldable pub update_heartbeat : StateLock → ℕ → StateLock
update_heartbeat l now = record l { heartbeat_at = now }

unfoldable pub extend : StateLock → ℕ → StateLock
extend l duration = record l { expires_at = l.expires_at + duration }

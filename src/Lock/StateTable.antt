-- ===== src/Lock/StateTable.antt =====
-- internal/infrastructure/persistence/sqlite/state_lock_repository_impl.go: the table of state locks,
-- a row for each id. A call is not interrupted; failures of the database are left out, and times are
-- compared as numbers.
use deespec.Base.{
  ℕ, ◌+◌, String, Bool, not, ◌||◌, ltb, Option, some, none, List, [], ◌∷◌, Result, ok, err, ◌>>=◌,
  if◌then◌else◌,
}
use deespec.Base.Dict.{Dict, lookup, insert, delete}
use deespec.Lock.Acquire.{Call}
use deespec.Lock.StateLock.{
  LockType, StateLock, StateLockError, lock_not_found, new_state_lock, is_expired, update_heartbeat,
  extend,
}

abbrev pub StateLocks : Type 0
StateLocks = Dict StateLock

unfoldable pub find_state : String → StateLocks → Result StateLockError StateLock
unfolding lookup
find_state id table = elim (lookup id table) [ none ↦ err (lock_not_found id) | some row ↦ ok row ]

-- The creation and the INSERT, for an id without a row.
unfoldable pub insert_state :
    ℕ
    → Call
    → LockType
    → String
    → StateLocks
    → Result StateLockError (Option StateLock) × StateLocks
unfolding new_state_lock insert
insert_state ttl call lock_type id table =
    elim (new_state_lock call.pid call.hostname lock_type ttl call.inserts_at) [
      | err failure ↦ (err failure, table)
      | ok row ↦ (ok (some row), insert id row table)
    ]

-- `running` is isStateLockProcessRunning. The DELETE of a stale row matches by its process.
unfoldable pub acquire_state :
    (ℕ → Bool)
    → ℕ
    → Call
    → LockType
    → String
    → StateLocks
    → Result StateLockError (Option StateLock) × StateLocks
unfolding insert_state is_expired lookup delete
acquire_state running ttl call lock_type id table = elim (lookup id table) [
  | none ↦ insert_state ttl call lock_type id table
  | some row ↦
      if not (is_expired row call.now || not (running row.pid))
      then (ok none, table)
      else insert_state ttl call lock_type id (delete id table)
]

-- DELETE FROM state_locks WHERE lock_id = ?
unfoldable pub release_state : String → StateLocks → Result StateLockError StateLocks
unfolding find_state delete
release_state id table = find_state id table >>= λ _. ok (delete id table)

unfoldable pub update_state_heartbeat : String → ℕ → StateLocks → Result StateLockError StateLocks
unfolding find_state update_heartbeat insert
update_state_heartbeat id now table =
    find_state id table >>= λ row. ok (insert id (update_heartbeat row now) table)

unfoldable pub extend_state : String → ℕ → StateLocks → Result StateLockError StateLocks
unfolding find_state extend insert
extend_state id duration table =
    find_state id table >>= λ row. ok (insert id (extend row duration) table)

-- DELETE FROM state_locks WHERE expires_at < ?, and the number of rows deleted.
unfoldable pub cleanup_expired_states : ℕ → StateLocks → StateLocks × ℕ
cleanup_expired_states now [] = ([], 0)
cleanup_expired_states now ((id, row) ∷ table) =
    let (rest, count) = cleanup_expired_states now table in
    if ltb row.expires_at now then (rest, count + 1) else ((id, row) ∷ rest, count)

-- internal/application/service/lock_service.go: the heartbeats of a lock at these times, up to one that
-- fails.
unfoldable pub heartbeats : String → List ℕ → StateLocks → StateLocks
unfolding update_state_heartbeat
heartbeats id [] table = table
heartbeats id (now ∷ times) table = elim (update_state_heartbeat id now table) [
  | err failure ↦ table
  | ok table' ↦ heartbeats id times table'
]

-- ===== src/Lock/Service.antt =====
-- internal/application/service/lock_service.go: the state locks of the service, which sends heartbeats
-- for the locks that it holds. The run locks have the same code over their own repository.
use deespec.Base.{ℕ, String, Bool, Option, none, some, Result, ok, err}
use deespec.Lock.Acquire.{Call}
use deespec.Lock.StateLock.{LockType, StateLock, StateLockError}
use deespec.Lock.StateTable.{
  StateLocks, acquire_state, release_state, extend_state, cleanup_expired_states,
}
use deespec.Lock.Heartbeats.{Heartbeats, start_heartbeat, stop_heartbeat, stop_all}

-- The table, and the heartbeats of this process.
pub record LockService : Type 0 where
  pub table : StateLocks
  pub heartbeats : Heartbeats

unfoldable pub after_acquire :
    String
    → Heartbeats
    → Result StateLockError (Option StateLock) × StateLocks
    → Result StateLockError (Option StateLock) × LockService
unfolding start_heartbeat
after_acquire id beats (err failure, table) =
    (err failure, record { table = table; heartbeats = beats })
after_acquire id beats (ok none, table) = (ok none, record { table = table; heartbeats = beats })
after_acquire id beats (ok (some lock), table) =
    (ok (some lock), record { table = table; heartbeats = start_heartbeat id beats })

unfoldable pub acquire_state_lock :
    (ℕ → Bool)
    → ℕ
    → Call
    → LockType
    → String
    → LockService
    → Result StateLockError (Option StateLock) × LockService
unfolding after_acquire acquire_state
acquire_state_lock running ttl call lock_type id s =
    after_acquire id s.heartbeats (acquire_state running ttl call lock_type id s.table)

-- The heartbeat is stopped also if there is no row to release.
unfoldable pub release_state_lock : String → LockService → Option StateLockError × LockService
unfolding release_state stop_heartbeat
release_state_lock id s =
    let beats = stop_heartbeat id s.heartbeats in
    elim (release_state id s.table) [
      | err failure ↦ (some failure, record { table = s.table; heartbeats = beats })
      | ok table ↦ (none, record { table = table; heartbeats = beats })
    ]

unfoldable pub extend_state_lock : String → ℕ → LockService → Option StateLockError × LockService
unfolding extend_state
extend_state_lock id duration s = elim (extend_state id duration s.table) [
  | err failure ↦ (some failure, s)
  | ok table ↦ (none, record s { table = table })
]

-- One round of the clean-up, on the state locks.
unfoldable pub cleanup_round : ℕ → LockService → LockService
unfolding cleanup_expired_states
cleanup_round now s = record s { table = (cleanup_expired_states now s.table).0 }

-- Stop
unfoldable pub stop_service : LockService → LockService
unfolding stop_all
stop_service s = record s { heartbeats = stop_all s.heartbeats }

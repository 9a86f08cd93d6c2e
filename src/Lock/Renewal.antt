-- ===== src/Lock/Renewal.antt =====
-- A lock that is extended in time cannot be taken from a running process, and a released one can.
use deespec.Base.{ℕ, ◌≡◌, ◌+◌, ◌≤◌, Bool, true, some, Succeeds, arith}
use deespec.Lock.RunLock.{RunLock, is_expired}
use deespec.Lock.Acquire.{Call, refused, acquire}
use deespec.Lock.Statements.{extend_row, release_row, cleanup_expired}
use deespec.Lock.Race.{has_lock}

-- A row of a running process that is extended at a time when it had not expired refuses every
-- uninterrupted call until the extension ends, survives a clean-up in that time, and once released
-- lets the next call have the lock.
pub extend_row-keeps :
    (running : ℕ → Bool) (ttl duration : ℕ) (row : RunLock) (call : Call)
    → running row.pid ≡ true
    → call.now ≤ row.expires_at + duration
    → Succeeds
        (λ table.
          (acquire running ttl call table ≡ (refused, table))
          × (cleanup_expired table call.now ≡ (table, 0))
          × Succeeds
              (λ table'. has_lock (acquire running ttl call table').0 ≡ true)
              (release_row table))
        (extend_row (some row) duration)
unfolding acquire extend_row release_row cleanup_expired is_expired
extend_row-keeps running ttl duration row call runs early = ground arith

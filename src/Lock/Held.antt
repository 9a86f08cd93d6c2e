-- ===== src/Lock/Held.antt =====
-- A state lock that the service acquires and releases.
use deespec.Base.{
  ℕ, ◌≡◌, ◌+◌, true, false, sym, subst, refl, ap, ◌∙◌, inl, inr, ◌-◌, arith, String, Bool, Option,
  none, some, Result, ok, err, eq_refl,
}
use deespec.Base.Dict.{Dict, lookup, delete, lookup-delete, lookup-insert_self}
use deespec.Lock.Acquire.{Call}
use deespec.Lock.StateLock.{LockType, read, write, other, StateLock, StateLockError}
use deespec.Lock.StateTable.{StateLocks, find_state, acquire_state, release_state}
use deespec.Lock.States.{Taken, Acquires, acquire_state-Acquires}
use deespec.Lock.Heartbeats.{
  Heartbeat, Heartbeats, is_cancelled, cancel_of, start_heartbeat, stop_heartbeat, Among,
}
use deespec.Lock.Service.{LockService, after_acquire, acquire_state_lock, release_state_lock}

-- After the acquisition: a row for the lock, and a goroutine that beats for it and whose context, the
-- newest, is registered; and after a release then no row and no registration, the context is
-- cancelled, and there is no error.
abbrev pub HeldBy : String → StateLock → LockService → Type 0
HeldBy id lock s =
    let context = s.heartbeats.next_context - 1 in
    (lookup id s.table ≡ some lock)
    × (lookup id s.heartbeats.cancels ≡ some context)
    × Among (record { context = context; lock_id = id; failing = false }) s.heartbeats.live
    × ((release_state_lock id s).0 ≡ none)
    × (lookup id (release_state_lock id s).1.table ≡ none)
    × (lookup id (release_state_lock id s).1.heartbeats.cancels ≡ none)
    × (is_cancelled (release_state_lock id s).1.heartbeats context ≡ true)

-- The three results of the service's acquisition: a lock that is held; a refusal or an error, which
-- starts no heartbeat.
abbrev pub Granted :
    String → LockService → Result StateLockError (Option StateLock) × LockService → Type 0
Granted id s (ok (some lock), s') = HeldBy id lock s'
Granted id s (ok none, s') = s' ≡ s
Granted id s (err failure, s') = s'.heartbeats ≡ s.heartbeats

ok_injective :
    (a b : Option StateLock)
    → ◌≡◌ {A = Result StateLockError (Option StateLock)} (ok a) (ok b)
    → a ≡ b
ok_injective a b e = cc

-- A release of a lock with a row.
release_outcome :
    (id : String) (lock : StateLock) (s : LockService)
    → lookup id s.table ≡ some lock
    → release_state_lock id s
      ≡ (none, record { table = delete id s.table; heartbeats = stop_heartbeat id s.heartbeats })
unfolding release_state_lock release_state find_state
release_outcome id lock s there = simp (there, release_state_lock, release_state, find_state)

lookup-delete_self {ℓ} : {V : Type ℓ} (id : String) (m : Dict V) → lookup id (delete id m) ≡ none
lookup-delete_self id m = rw (lookup-delete id id m, eq_refl id) refl

abbrev beat : String → ℕ → Heartbeat
beat id context = record { context = context; lock_id = id; failing = false }

-- A release cancels the context that is registered.
ended :
    (id : String) (context : ℕ) (s : Heartbeats)
    → lookup id s.cancels ≡ some context
    → is_cancelled (stop_heartbeat id s) context ≡ true
unfolding stop_heartbeat cancel_of
ended id context s found = rw found (ground arith)

released_row :
    (id : String) (lock : StateLock) (table : StateLocks) (beats : Heartbeats)
    → lookup id table ≡ some lock
    → HeldBy id lock (record { table = table; heartbeats = start_heartbeat id beats })
unfolding start_heartbeat stop_heartbeat
released_row id lock table beats there =
    let beats' : Heartbeats = start_heartbeat id beats in
    let s : LockService = record { table = table; heartbeats = beats' } in
    let newest : beats.next_context + 1 - 1 ≡ beats.next_context = omega arith in
    let found = lookup-insert_self id beats.next_context beats.cancels in
    let gone = release_outcome id lock s there in
    (
      there,
      ground (arith, found),
      inl (ap (beat id) newest),
      ap (λ (r : Option StateLockError × LockService). r.0) gone,
      ap (λ (r : Option StateLockError × LockService). lookup id r.1.table) gone
          ∙ lookup-delete_self id table,
      ap (λ (r : Option StateLockError × LockService). lookup id r.1.heartbeats.cancels) gone
          ∙ lookup-delete_self id beats'.cancels,
      subst
          (λ (r : Option StateLockError × LockService).
            is_cancelled r.1.heartbeats (beats.next_context + 1 - 1) ≡ true)
          (sym gone) (rw newest (ended id beats.next_context beats' found)),
    )

-- A lock that is given has its row, whatever its type; a lock that may be taken is not refused.
module _ (ttl : ℕ) (call : Call) (id : String) (table : StateLocks) where
  granted_row :
      (lock_type : LockType) (lock : StateLock)
      → Taken ttl call lock_type id (ok (some lock), table)
      → lookup id table ≡ some lock
  granted_row read lock (given, there) = cc
  granted_row write lock (given, there) = cc
  granted_row (other text) lock (given, gone) = cc

  Taken-not_refused : (lock_type : LockType) → Taken ttl call lock_type id (ok none, table) → ⊥
  Taken-not_refused read (given, there) = cc
  Taken-not_refused write (given, there) = cc
  Taken-not_refused (other text) (given, gone) = cc

module _ (running : ℕ → Bool) (ttl : ℕ) (call : Call) (lock_type : LockType) (id : String)
    (s : LockService) where
  after_acquire-Granted :
      (acquired : Result StateLockError (Option StateLock) × StateLocks)
      → Acquires running ttl call lock_type id s.table acquired
      → Granted id s (after_acquire id s.heartbeats acquired)
  unfolding after_acquire
  after_acquire-Granted (err failure, table) h = refl
  after_acquire-Granted (ok none, table) (_, inl (row, there, holds, result, same)) =
      ap (λ (t : StateLocks). record { table = t; heartbeats = s.heartbeats }) same
  after_acquire-Granted (ok none, table) (_, inr (free, taken)) =
      absurd (Taken-not_refused ttl call id table lock_type taken)
  after_acquire-Granted (ok (some lock), table) (_, inl (row, there, holds, result, same)) =
      cc (ok_injective _ _ result)
  after_acquire-Granted (ok (some lock), table) (_, inr (free, taken)) =
      released_row id lock table s.heartbeats (granted_row ttl call id table lock_type lock taken)

  -- Where the service grants a state lock, the lock has its row, and a goroutine beats for it with a
  -- registered context; a release then succeeds, removes the row and the registration, and cancels
  -- the context, so that the goroutine ends. Where it refuses, nothing changes; where it fails, no heartbeat is
  -- started or stopped.
  pub acquire_state_lock-Granted : Granted id s (acquire_state_lock running ttl call lock_type id s)
  unfolding acquire_state_lock
  acquire_state_lock-Granted =
      after_acquire-Granted (acquire_state running ttl call lock_type id s.table)
        (acquire_state-Acquires running ttl call lock_type id s.table)

-- ===== src/Lock/States.antt =====
-- What an acquisition of a state lock does to the table, and what heartbeats do not do.
use deespec.Base.{
  ℕ, ◌≡◌, refl, sym, subst, ap, ◌∙◌, ◌<◌, ◌⊎◌, inl, inr, String, Bool, true, false, not, ◌||◌,
  str_eq, eq_refl, Option, some, none, List, [], ◌∷◌, Result, ok, err, Bool-cases, Option-cases,
  arith,
}
use deespec.Base.Dict.{lookup, insert, delete, lookup-insert, lookup-insert_self, lookup-delete}
use deespec.Lock.Acquire.{Call}
use deespec.Lock.StateLock.{
  LockType, read, write, other, StateLock, StateLockError, invalid_lock_type, state_lock_of,
  new_state_lock, is_expired, update_heartbeat,
}
use deespec.Lock.StateTable.{
  StateLocks, find_state, insert_state, acquire_state, update_state_heartbeat, heartbeats,
}

-- The rows of all other ids are the same.
abbrev pub SameElsewhere : String → StateLocks → StateLocks → Type 0
SameElsewhere id table table' =
    (j : String) → str_eq id j ≡ false → lookup j table' ≡ lookup j table

-- A row that keeps others out: neither expired nor of a process that has ended.
abbrev pub Holds : (ℕ → Bool) → ℕ → StateLock → Type 0
Holds running now row = (row.expires_at < now → ⊥) × (running row.pid ≡ true)

-- What an acquisition leaves for its id when no row keeps it out.
abbrev pub Taken :
    ℕ → Call → LockType → String → Result StateLockError (Option StateLock) × StateLocks → Type 0
Taken ttl call (other text) id (result, table') =
    (result ≡ err (invalid_lock_type text)) × (lookup id table' ≡ none)
Taken ttl call lock_type id (result, table') =
    let row = state_lock_of call.pid call.hostname lock_type ttl call.inserts_at in
    (result ≡ ok (some row)) × (lookup id table' ≡ some row)

module _ (ttl : ℕ) (call : Call) (id : String) where
  insert_state-Taken :
      (lock_type : LockType) (table : StateLocks)
      → lookup id table ≡ none
      → Taken ttl call lock_type id (insert_state ttl call lock_type id table)
  unfolding insert_state new_state_lock
  insert_state-Taken read table h = (refl, lookup-insert_self id _ table)
  insert_state-Taken write table h = (refl, lookup-insert_self id _ table)
  insert_state-Taken (other text) table h = (refl, h)

  insert_state-SameElsewhere :
      (lock_type : LockType) (table : StateLocks)
      → SameElsewhere id table (insert_state ttl call lock_type id table).1
  unfolding insert_state new_state_lock
  insert_state-SameElsewhere read table j h = rw (lookup-insert, h) refl
  insert_state-SameElsewhere write table j h = rw (lookup-insert, h) refl
  insert_state-SameElsewhere (other text) table j h = refl

  deleted : (table : StateLocks) → lookup id (delete id table) ≡ none
  deleted table = rw (lookup-delete, eq_refl id) refl

-- The result of an acquisition, in the table and for its caller.
abbrev pub Acquires :
    (ℕ → Bool)
    → ℕ
    → Call
    → LockType
    → String
    → StateLocks
    → Result StateLockError (Option StateLock) × StateLocks
    → Type 0
Acquires running ttl call lock_type id table (result, table') =
    SameElsewhere id table table'
    × (((row : StateLock) × (lookup id table ≡ some row)
          × Holds running call.now row
          × (result ≡ ok none)
          × (table' ≡ table))
        ⊎ (((row : StateLock) → lookup id table ≡ some row → Holds running call.now row → ⊥)
            × Taken ttl call lock_type id (result, table')))

module _ (running : ℕ → Bool) (ttl : ℕ) (call : Call) (lock_type : LockType) (id : String)
    (table : StateLocks) where
  free_Acquires :
      (base : StateLocks)
      → lookup id base ≡ none
      → SameElsewhere id table base
      → ((row : StateLock) → lookup id table ≡ some row → Holds running call.now row → ⊥)
      → Acquires running ttl call lock_type id table (insert_state ttl call lock_type id base)
  free_Acquires base empty same free = (
    (λ j h. insert_state-SameElsewhere ttl call id lock_type base j h ∙ same j h),
    inr (free, insert_state-Taken ttl call id lock_type base empty),
  )

  -- A row that is neither expired nor of an ended process refuses every acquisition, also a read lock
  -- a second reader, and the table stays. Otherwise a call for a read or a write lock gets a new row
  -- for its process in place of the old one, and a call with another type fails and has removed the
  -- old row. The rows of other ids never change.
  pub acquire_state-Acquires :
      Acquires running ttl call lock_type id table
        (acquire_state running ttl call lock_type id table)
  unfolding acquire_state is_expired
  acquire_state-Acquires = elim (Option-cases (lookup id table)) [
    | inl empty ↦
        let same : acquire_state running ttl call lock_type id table
            ≡ insert_state ttl call lock_type id table =
          simp (empty, acquire_state) in
        subst (Acquires running ttl call lock_type id table) (sym same)
          (free_Acquires table empty (λ j h. refl) (λ row there h. cc (empty, there)))
    | inr (row, there) ↦
        let test = not (is_expired row call.now || not (running row.pid)) in
        elim (Bool-cases test) [
          | inl held ↦
              let same : acquire_state running ttl call lock_type id table ≡ (ok none, table) =
                simp (there, held, acquire_state) in
              subst (Acquires running ttl call lock_type id table) (sym same)
                ((λ j h. refl), inl (row, there, (ground arith), refl, refl))
          | inr stale ↦
              let same : acquire_state running ttl call lock_type id table
                  ≡ insert_state ttl call lock_type id (delete id table) =
                simp (there, stale, acquire_state) in
              subst (Acquires running ttl call lock_type id table) (sym same) (
                free_Acquires (delete id table) (deleted ttl call id table)
                  (λ j h. rw (lookup-delete, h) refl)
                  (λ row' there' h.
                    let one : row ≡ row' = cc (there, there') in
                    subst (λ r. Holds running call.now r → ⊥) one (ground arith) h))
        ]
  ]

-- The row of an id, if it expires at `end`.
abbrev ExpiresAt : String → ℕ → StateLocks → Type 0
ExpiresAt id end table = (row : StateLock) × (lookup id table ≡ some row) × (row.expires_at ≡ end)

heartbeats-ExpiresAt :
    (id : String) (end : ℕ) (times : List ℕ) (table : StateLocks)
    → ExpiresAt id end table
    → ExpiresAt id end (heartbeats id times table)
unfolding heartbeats update_state_heartbeat find_state update_heartbeat
heartbeats-ExpiresAt id end [] table h = h
heartbeats-ExpiresAt id end (now ∷ times) table (row, there, ends) =
    let row' : StateLock = record row { heartbeat_at = now } in
    let same : heartbeats id (now ∷ times) table ≡ heartbeats id times (insert id row' table) =
      simp (there, heartbeats, update_state_heartbeat, find_state) in
    subst (ExpiresAt id end) (sym same) (
      heartbeats-ExpiresAt id end times (insert id row' table)
        (row', lookup-insert_self id row' table, ends))

-- Heartbeats do not keep a lock: however many its process sends, once the time of the row is over
-- another call gets the lock, while the process runs on.
pub heartbeats_renew_nothing :
    (running : ℕ → Bool) (ttl : ℕ) (call : Call) (id : String) (times : List ℕ) (table : StateLocks)
    (row : StateLock)
    → lookup id table ≡ some row
    → running row.pid ≡ true
    → row.expires_at < call.now
    → (acquire_state running ttl call write id (heartbeats id times table)).0
      ≡ ok (some (state_lock_of call.pid call.hostname write ttl call.inserts_at))
heartbeats_renew_nothing running ttl call id times table row there runs over =
    let late = heartbeats id times table in
    let (kept, stays, ends) =
      heartbeats-ExpiresAt id row.expires_at times table (row, there, refl) in
    elim (acquire_state-Acquires running ttl call write id late).1 [
      | inl (held, found, holds, _, _) ↦
          let one : kept ≡ held = cc (stays, found) in
          absurd (holds.0 (omega (arith, ends, ap (λ (l : StateLock). l.expires_at) one)))
      | inr (_, taken) ↦ taken.0
    ]

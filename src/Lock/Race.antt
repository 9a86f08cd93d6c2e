-- ===== src/Lock/Race.antt =====
-- What calls of Acquire lead to, alone and against each other.
use deespec.Base.{
  ℕ, ◌≡◌, ◌≢◌, ◌+◌, ◌≤◌, ◌⊎◌, inl, inr, Bool, true, false, not, ◌||◌, ◌&&◌, sym, Option, none, some,
  List, [], ◌∷◌, arith,
}
use deespec.Lock.RunLock.{RunLock, is_expired, new_run_lock}
use deespec.Lock.Acquire.{
  Phase, started, checking, inserting, refused, cleaning, acquired, Call, acquire_step, acquire,
  delete_stale,
}

-- A lock that may be taken: there is none, it has expired, or its process is gone.
abbrev pub free : (ℕ → Bool) → ℕ → Option RunLock → Bool
free running now none = true
free running now (some row) = is_expired row now || not (running row.pid)

-- Without interruption, Acquire takes a free lock and writes a new row for its process; a lock that is
-- not free is refused and keeps its row.
pub acquire_outcome :
    (running : ℕ → Bool) (ttl : ℕ) (call : Call) (table : Option RunLock)
    → (free running call.now table ≡ true)
        × (acquire running ttl call table ≡ (
          acquired (new_run_lock call.pid call.hostname ttl call.inserts_at),
          some (new_run_lock call.pid call.hostname ttl call.inserts_at),
        ))
      ⊎ (free running call.now table ≡ false) × (acquire running ttl call table ≡ (refused, table))
unfolding acquire
acquire_outcome running ttl call table = ground arith

-- Two calls that race for a lock, and their steps in any order.
pub record Pair : Type 0 where
  pub first : Phase
  pub second : Phase
  pub table : Option RunLock

abbrev pub at_start : Option RunLock → Pair
at_start table = record { first = started; second = started; table = table }

unfoldable pub race : (ℕ → Bool) → ℕ → Call → Call → List Bool → Pair → Pair
race running ttl p q [] s = s
race running ttl p q (true ∷ schedule) s =
    let (phase, table) = acquire_step running ttl p s.first s.table in
    race running ttl p q schedule (record { first = phase; second = s.second; table = table })
race running ttl p q (false ∷ schedule) s =
    let (phase, table) = acquire_step running ttl q s.second s.table in
    race running ttl p q schedule (record { first = s.first; second = phase; table = table })

-- The row that a call inserts.
abbrev pub row_of : ℕ → Call → RunLock
row_of ttl call = record {
  pid = call.pid;
  hostname = call.hostname;
  acquired_at = call.inserts_at;
  expires_at = call.inserts_at + ttl;
  heartbeat_at = call.inserts_at;
}

-- Two running processes, of which neither starts after the other's lock would expire.
pub record Rivals (running : ℕ → Bool) (ttl : ℕ) (p q : Call) : Type 0 where
  pub different : p.pid ≢ q.pid
  pub first_runs : running p.pid ≡ true
  pub second_runs : running q.pid ≡ true
  pub first_ordered : p.now ≤ p.inserts_at
  pub second_ordered : q.now ≤ q.inserts_at
  pub first_early : p.now ≤ q.inserts_at + ttl
  pub second_early : q.now ≤ p.inserts_at + ttl

-- The row is that of one of the two, or of a process that is neither.
abbrev pub Row : ℕ → Call → Call → Option RunLock → Type 0
Row ttl p q none = Unit
Row ttl p q (some row) =
    (row ≡ row_of ttl p) ⊎ (row ≡ row_of ttl q) ⊎ (row.pid ≢ p.pid) × (row.pid ≢ q.pid)

-- A call only removes the row of a third process, and one that has the lock still has its row.
abbrev Standing : ℕ → Call → Call → Phase → Option RunLock → Type 0
Standing ttl own rival (cleaning row) table = (row.pid ≢ own.pid) × (row.pid ≢ rival.pid)
Standing ttl own rival (acquired row) table = table ≡ some (row_of ttl own)
Standing ttl own rival started table = Unit
Standing ttl own rival checking table = Unit
Standing ttl own rival inserting table = Unit
Standing ttl own rival refused table = Unit

own_step :
    (running : ℕ → Bool) (ttl : ℕ) (own rival : Call) (phase other : Phase) (table : Option RunLock)
    → own.pid ≢ rival.pid
    → running rival.pid ≡ true
    → own.now ≤ rival.inserts_at + ttl
    → running own.pid ≡ true
    → own.now ≤ own.inserts_at + ttl
    → Row ttl own rival table
    → Standing ttl own rival phase table
    → Standing ttl rival own other table
    → Row ttl own rival (acquire_step running ttl own phase table).1
      × Standing ttl own rival
          (acquire_step running ttl own phase table).0
          (acquire_step running ttl own phase table).1
      × Standing ttl rival own other (acquire_step running ttl own phase table).1
unfolding acquire_step delete_stale is_expired new_run_lock
own_step running ttl own rival phase other table d r e r' e' row standing against = ground arith

Row-swap : (ttl : ℕ) (p q : Call) (table : Option RunLock) → Row ttl p q table → Row ttl q p table
Row-swap ttl p q none row = tt
Row-swap ttl p q (some row) (inl e) = inr (inl e)
Row-swap ttl p q (some row) (inr (inl e)) = inl e
Row-swap ttl p q (some row) (inr (inr (a, b))) = inr (inr (b, a))

abbrev pub has_lock : Phase → Bool
has_lock (acquired row) = true
has_lock _ = false

not_both :
    (ttl : ℕ) (p q : Call) (first second : Phase) (table : Option RunLock)
    → p.pid ≢ q.pid
    → Standing ttl p q first table
    → Standing ttl q p second table
    → has_lock first && has_lock second ≡ false
not_both ttl p q first second table different a b = ground arith

race-Standing :
    (running : ℕ → Bool) (ttl : ℕ) (p q : Call) (schedule : List Bool) (s : Pair)
    → Rivals running ttl p q
    → Row ttl p q s.table
    → Standing ttl p q s.first s.table
    → Standing ttl q p s.second s.table
    → has_lock (race running ttl p q schedule s).first
        && has_lock (race running ttl p q schedule s).second
      ≡ false
unfolding race
race-Standing running ttl p q [] s rivals row a b =
    not_both ttl p q s.first s.second s.table rivals.different a b
race-Standing running ttl p q (true ∷ schedule) s rivals row a b =
    let (row', a', b') =
      own_step running ttl p q s.first s.second s.table rivals.different rivals.second_runs
        rivals.first_early rivals.first_runs (omega (arith, rivals.first_ordered)) row a b in
    race-Standing running ttl p q schedule _ rivals row' a' b'
race-Standing running ttl p q (false ∷ schedule) s rivals row a b =
    let (row', b', a') =
      own_step running ttl q p s.second s.first s.table (λ e. rivals.different (sym e))
        rivals.first_runs rivals.second_early rivals.second_runs
        (omega (arith, rivals.second_ordered)) (Row-swap ttl p q s.table row) b a in
    race-Standing running ttl p q schedule _ rivals (Row-swap ttl q p _ row') a' b'

-- Two different running processes that call Acquire for a lock whose row, if there is one, is that of
-- a third process, never both get the lock, in any interleaving of their statements, provided that
-- each call looks at the clock before it inserts, and neither does so after the lock that the other
-- inserts would have expired.
pub race_excludes :
    (running : ℕ → Bool) (ttl : ℕ) (p q : Call) (schedule : List Bool) (table : Option RunLock)
    → Rivals running ttl p q
    → Row ttl p q table
    → has_lock (race running ttl p q schedule (at_start table)).first
        && has_lock (race running ttl p q schedule (at_start table)).second
      ≡ false
race_excludes running ttl p q schedule table rivals row =
    race-Standing running ttl p q schedule (at_start table) rivals row tt tt

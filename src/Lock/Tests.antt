-- ===== src/Lock/Tests.antt =====
-- The theorems about locks at concrete inputs.
use deespec.Base.{
  inl, ◌⊎◌, ok, ◌≡◌, refl, inr, Bool, true, false, ◌&&◌, some, none, List, [], ◌∷◌, arith, ℕ, ◌==◌,
  not,
}
use deespec.Base.Dict.{lookup}
use deespec.Lock.StateLock.{LockType, StateLock, state_lock_of}
use deespec.Lock.StateTable.{StateLocks, acquire_state, heartbeats}
use deespec.Lock.States.{Acquires, acquire_state-Acquires, heartbeats_renew_nothing}
use deespec.Lock.Heartbeats.{
  Heartbeat, Heartbeats, is_cancelled, start_heartbeat, stop_heartbeat, stop_all, fails, give_up,
  HeartbeatSteps, no_heartbeats, Among,
}
use deespec.Lock.Heartbeats
use deespec.Lock.Beating.{heartbeats_end}
use deespec.Lock.Service.{LockService, acquire_state_lock}
use deespec.Lock.Held.{Granted, acquire_state_lock-Granted}
use deespec.Lock.RunLock.{RunLock}
use deespec.Lock.Acquire.{Call}
use deespec.Lock.Race.{race, at_start, Rivals, has_lock, race_excludes}

abbrev first_call : Call
first_call = record { pid = 11; hostname = "a"; now = 100; inserts_at = 103 }

abbrev second_call : Call
second_call = record { pid = 12; hostname = "a"; now = 101; inserts_at = 102 }

-- The row of a process that is gone.
abbrev left_over : RunLock
left_over = record { pid = 7; hostname = "a"; acquired_at = 5; expires_at = 605; heartbeat_at = 5 }

abbrev running : ℕ → Bool
running pid = not (pid == 7)

-- Both find the old row; the first deletes it, the second inserts its own.
abbrev schedule : List Bool
schedule = true ∷ false ∷ true ∷ false ∷ false ∷ false ∷ true ∷ []

calls-Rivals : Rivals running 600 first_call second_call
calls-Rivals = record {
  different = omega arith;
  first_runs = refl;
  second_runs = refl;
  first_ordered = omega arith;
  second_ordered = omega arith;
  first_early = omega arith;
  second_early = omega arith;
}

race_excludes_example :
    has_lock (race running 600 first_call second_call schedule (at_start (some left_over))).first
      && has_lock
          (race running 600 first_call second_call schedule (at_start (some left_over))).second
    ≡ false
race_excludes_example =
    race_excludes running 600 first_call second_call schedule (some left_over) calls-Rivals
      (inr (inr (omega arith)))

abbrev all_run : ℕ → Bool
all_run pid = true

abbrev reader : StateLock
reader = state_lock_of 7 "host" LockType.read 60 100

abbrev state_table : StateLocks
state_table = ("sbi/SBI-1", reader) ∷ []

abbrev second_reader : Call
second_reader = record { pid = 8; hostname = "host"; now = 120; inserts_at = 121 }

abbrev late_writer : Call
late_writer = record { pid = 8; hostname = "host"; now = 170; inserts_at = 171 }

acquire_state-Acquires_example :
    Acquires all_run 60 second_reader LockType.read "sbi/SBI-1" state_table
      (acquire_state all_run 60 second_reader LockType.read "sbi/SBI-1" state_table)
acquire_state-Acquires_example =
    acquire_state-Acquires all_run 60 second_reader LockType.read "sbi/SBI-1" state_table

-- A second reader is refused.
readers_exclude :
    (acquire_state all_run 60 second_reader LockType.read "sbi/SBI-1" state_table).0 ≡ ok none
unfolding acquire_state
readers_exclude = refl

state_table_row : lookup "sbi/SBI-1" state_table ≡ some reader
unfolding lookup
state_table_row = refl

heartbeats_renew_nothing_example :
    (acquire_state all_run 60 late_writer LockType.write "sbi/SBI-1"
      (heartbeats "sbi/SBI-1" (130 ∷ 160 ∷ []) state_table)).0
    ≡ ok (some (state_lock_of 8 "host" LockType.write 60 171))
heartbeats_renew_nothing_example =
    heartbeats_renew_nothing all_run 60 late_writer "sbi/SBI-1" (130 ∷ 160 ∷ []) state_table reader
      state_table_row refl (omega arith)

abbrev one_beat : Heartbeats
one_beat = start_heartbeat "SBI-1" no_heartbeats

one_beat_steps : HeartbeatSteps no_heartbeats one_beat
one_beat_steps = Heartbeats.next Heartbeats.here (Heartbeats.acquired "SBI-1" no_heartbeats)

abbrev first_beat : Heartbeat
first_beat = record { context = 0; lock_id = "SBI-1"; failing = false }

first_live : Among first_beat one_beat.live
unfolding start_heartbeat
first_live = inl refl

heartbeats_end_example :
    ((is_cancelled one_beat 0 ≡ true) ⊎ (lookup "SBI-1" one_beat.cancels ≡ some 0))
    × (is_cancelled (stop_heartbeat "SBI-1" one_beat) 0 ≡ true)
    × ((one_beat.stopped_once ≡ true) ⊎ (is_cancelled (stop_all one_beat) 0 ≡ true))
heartbeats_end_example = heartbeats_end one_beat first_beat one_beat_steps first_live

abbrev old_beat : Heartbeat
old_beat = record { context = 0; lock_id = "SBI-1"; failing = true }

-- The heartbeat of context 0 fails after a release; before it gives up the lock is acquired anew, with
-- context 1, which the old goroutine then cancels.
abbrev reacquired : Heartbeats
unfolding stop_heartbeat start_heartbeat fails
reacquired =
    let ended = stop_heartbeat "SBI-1" one_beat in
    start_heartbeat "SBI-1" (record ended { live = fails 0 ended.live })

new_beat_lost : is_cancelled (give_up old_beat reacquired) 1 ≡ true
unfolding give_up reacquired stop_heartbeat start_heartbeat fails
new_beat_lost = refl

abbrev idle : LockService
idle = record { table = state_table; heartbeats = no_heartbeats }

acquire_state_lock-Granted_example :
    Granted "sbi/SBI-2" idle
      (acquire_state_lock all_run 60 second_reader LockType.write "sbi/SBI-2" idle)
acquire_state_lock-Granted_example =
    acquire_state_lock-Granted all_run 60 second_reader LockType.write "sbi/SBI-2" idle

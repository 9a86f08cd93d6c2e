-- ===== src/Lock/Heartbeats.antt =====
-- internal/application/service/lock_service.go: the goroutines that send heartbeats for the locks of
-- one kind, and the map of their cancel functions. Run locks and state locks have a map each and the
-- same code. A context is a number, and its cancel function puts it on a list.
use deespec.Base.{
  ℕ, ◌+◌, ◌≡◌, ◌==◌, ◌⊎◌, String, Bool, true, false, Option, none, some, List, [], ◌∷◌, ◌++◌, any,
  if◌then◌else◌,
}
use deespec.Base.Dict.{Dict, lookup, insert, delete}

-- A goroutine that has not returned; `failing` once its UpdateHeartbeat has failed.
pub record Heartbeat : Type 0 where
  pub context : ℕ
  pub lock_id : String
  pub failing : Bool

pub record Heartbeats : Type 0 where
  pub cancels : Dict ℕ
  pub cancelled : List ℕ
  pub live : List Heartbeat
  pub next_context : ℕ
  pub stopped_once : Bool

abbrev pub is_cancelled : Heartbeats → ℕ → Bool
is_cancelled s context = any (λ c. c == context) s.cancelled

-- if cancel, exists := heartbeats[lockID]; exists { cancel() }
unfoldable pub cancel_of : Option ℕ → List ℕ → List ℕ
cancel_of none cancelled = cancelled
cancel_of (some context) cancelled = context ∷ cancelled

-- startRunLockHeartbeat
unfoldable pub start_heartbeat : String → Heartbeats → Heartbeats
unfolding cancel_of lookup insert
start_heartbeat id s = record {
  cancels = insert id s.next_context s.cancels;
  cancelled = cancel_of (lookup id s.cancels) s.cancelled;
  live = record { context = s.next_context; lock_id = id; failing = false } ∷ s.live;
  next_context = s.next_context + 1;
  stopped_once = s.stopped_once;
}

-- stopRunLockHeartbeat
unfoldable pub stop_heartbeat : String → Heartbeats → Heartbeats
unfolding cancel_of lookup delete
stop_heartbeat id s = record s {
  cancels = delete id s.cancels;
  cancelled = cancel_of (lookup id s.cancels) s.cancelled;
}

unfoldable pub contexts_of : Dict ℕ → List ℕ
contexts_of [] = []
contexts_of ((id, context) ∷ cancels) = context ∷ contexts_of cancels

-- Stop: `stopOnce` runs its body the first time only.
unfoldable pub stop_all : Heartbeats → Heartbeats
unfolding contexts_of
stop_all s = if s.stopped_once then s else record s {
  cancels = [];
  cancelled = contexts_of s.cancels ++ s.cancelled;
  stopped_once = true;
}

unfoldable pub returned : ℕ → List Heartbeat → List Heartbeat
returned context [] = []
returned context (h ∷ live) =
    let rest = returned context live in if h.context == context then rest else h ∷ rest

unfoldable pub fails : ℕ → List Heartbeat → List Heartbeat
fails context [] = []
fails context (h ∷ live) =
    let rest = fails context live in
    if h.context == context then record h { failing = true } ∷ rest else h ∷ rest

-- A goroutine whose heartbeat has failed stops the heartbeat of its lock, and returns.
unfoldable pub give_up : Heartbeat → Heartbeats → Heartbeats
unfolding stop_heartbeat returned
give_up h s = record (stop_heartbeat h.lock_id s) { live = returned h.context s.live }

abbrev pub Among : Heartbeat → List Heartbeat → Type 0
Among h [] = ⊥
Among h (g ∷ live) = (h ≡ g) ⊎ Among h live

-- What the service and its goroutines do, in any order: a lock is acquired or released, the service
-- is told to stop, a goroutine sees its context done, or its heartbeat fails, or it gives up after that.
pub data HeartbeatStep : Heartbeats → Heartbeats → Type 0 where
  acquired : (id : String) (s : Heartbeats) → HeartbeatStep s (start_heartbeat id s)
  released : (id : String) (s : Heartbeats) → HeartbeatStep s (stop_heartbeat id s)
  stopped : (s : Heartbeats) → HeartbeatStep s (stop_all s)
  done :
      (h : Heartbeat) (s : Heartbeats)
      → Among h s.live
      → h.failing ≡ false
      → is_cancelled s h.context ≡ true
      → HeartbeatStep s (record s { live = returned h.context s.live })
  beat_fails :
      (h : Heartbeat) (s : Heartbeats)
      → Among h s.live
      → h.failing ≡ false
      → HeartbeatStep s (record s { live = fails h.context s.live })
  gives_up :
      (h : Heartbeat) (s : Heartbeats)
      → Among h s.live
      → h.failing ≡ true
      → HeartbeatStep s (give_up h s)

-- The service when it is made.
abbrev pub no_heartbeats : Heartbeats
no_heartbeats = record {
  cancels = [];
  cancelled = [];
  live = [];
  next_context = 0;
  stopped_once = false;
}

pub data HeartbeatSteps (s : Heartbeats) : Heartbeats → Type 0 where
  here : HeartbeatSteps s s
  next : {t u : Heartbeats} → HeartbeatSteps s t → HeartbeatStep t u → HeartbeatSteps s u

-- ===== src/Lock/Beating.antt =====
-- No heartbeat outlives the registration of its lock.
use deespec.Base.{
  ℕ, ◌≡◌, ◌≢◌, refl, sym, ◌==◌, ◌||◌, ◌⊎◌, inl, inr, String, Bool, true, false, eq_iff, eq_refl,
  Option, none, some, List, [], ◌∷◌, ◌++◌, any, Bool-cases, arith, subst,
}
use deespec.Base.Dict.{
  Dict, lookup, insert, delete, lookup-insert, lookup-insert_self, lookup-delete,
}
use deespec.Lock.Heartbeats.{
  Heartbeat, Heartbeats, is_cancelled, cancel_of, start_heartbeat, stop_heartbeat, contexts_of,
  stop_all, returned, fails, give_up, Among, HeartbeatStep, acquired, released, stopped, done,
  beat_fails, gives_up, no_heartbeats, HeartbeatSteps, here, next,
}

abbrev cancels : List ℕ → ℕ → Bool
cancels cancelled context = any (λ c. c == context) cancelled

-- A goroutine that is not cancelled is the one registered for its lock.
abbrev Tracked : Dict ℕ → List ℕ → Heartbeat → Type 0
Tracked registered cancelled h =
    cancels cancelled h.context ≡ false → lookup h.lock_id registered ≡ some h.context

abbrev AllTracked : Dict ℕ → List ℕ → List Heartbeat → Type 0
AllTracked registered cancelled [] = Unit
AllTracked registered cancelled (h ∷ live) =
    Tracked registered cancelled h × AllTracked registered cancelled live

Tracked-live :
    (registered : Dict ℕ) (cancelled : List ℕ) (live : List Heartbeat) (h : Heartbeat)
    → AllTracked registered cancelled live
    → Among h live
    → Tracked registered cancelled h
Tracked-live registered cancelled [] h ts among = absurd among
Tracked-live registered cancelled (g ∷ live) h (t, ts) (inl same) =
    subst (Tracked registered cancelled) (sym same) t
Tracked-live registered cancelled (g ∷ live) h (t, ts) (inr later) =
    Tracked-live registered cancelled live h ts later

AllTracked-map :
    (r r' : Dict ℕ) (c c' : List ℕ) (live : List Heartbeat)
    → ((h : Heartbeat) → Tracked r c h → Tracked r' c' h)
    → AllTracked r c live
    → AllTracked r' c' live
AllTracked-map r r' c c' [] step ts = tt
AllTracked-map r r' c c' (h ∷ live) step (t, ts) = (step h t, AllTracked-map r r' c c' live step ts)

AllTracked-returned :
    (r : Dict ℕ) (c : List ℕ) (context : ℕ) (live : List Heartbeat)
    → AllTracked r c live
    → AllTracked r c (returned context live)
unfolding returned
AllTracked-returned r c context [] ts = tt
AllTracked-returned r c context (h ∷ live) (t, ts) = elim (Bool-cases (h.context == context)) [
  | inl out ↦ rw out (AllTracked-returned r c context live ts)
  | inr stays ↦ rw stays (t, AllTracked-returned r c context live ts)
]

AllTracked-fails :
    (r : Dict ℕ) (c : List ℕ) (context : ℕ) (live : List Heartbeat)
    → AllTracked r c live
    → AllTracked r c (fails context live)
unfolding fails
AllTracked-fails r c context [] ts = tt
AllTracked-fails r c context (h ∷ live) (t, ts) = elim (Bool-cases (h.context == context)) [
  | inl out ↦ rw out (t, AllTracked-fails r c context live ts)
  | inr stays ↦ rw stays (t, AllTracked-fails r c context live ts)
]

-- What remains uncancelled after the cancel of an id was uncancelled before, and is not its context.
cancel_of-inv :
    (found : Option ℕ) (c : List ℕ) (context : ℕ)
    → cancels (cancel_of found c) context ≡ false
    → (cancels c context ≡ false) × (found ≢ some context)
unfolding cancel_of
cancel_of-inv none c context h = (h, λ e. cc)
cancel_of-inv (some other) c context h = (ground arith, λ e. ground arith)

Tracked-start :
    (id : String) (new : ℕ) (r : Dict ℕ) (c : List ℕ) (h : Heartbeat)
    → Tracked r c h
    → Tracked (insert id new r) (cancel_of (lookup id r) c) h
Tracked-start id new r c h t kept =
    let (before, others) = cancel_of-inv (lookup id r) c h.context kept in
    let found = t before in
    ground (arith, lookup-insert id h.lock_id new r, eq_iff id h.lock_id, found, others)

Tracked-stop :
    (id : String) (r : Dict ℕ) (c : List ℕ) (h : Heartbeat)
    → Tracked r c h
    → Tracked (delete id r) (cancel_of (lookup id r) c) h
Tracked-stop id r c h t kept =
    let (before, others) = cancel_of-inv (lookup id r) c h.context kept in
    let found = t before in
    ground (arith, lookup-delete id h.lock_id r, eq_iff id h.lock_id, found, others)

any-append :
    (c d : List ℕ) (context : ℕ)
    → cancels (c ++ d) context ≡ (cancels c context || cancels d context)
any-append [] d context = refl
any-append (x ∷ c) d context = ground (arith, any-append c d context)

contexts_of-lookup :
    (r : Dict ℕ) (id : String) (context : ℕ)
    → lookup id r ≡ some context
    → cancels (contexts_of r) context ≡ true
unfolding lookup contexts_of
contexts_of-lookup [] id context h = cc
contexts_of-lookup ((j, other) ∷ r) id context h = ground (arith, contexts_of-lookup r id context)

Tracked-stop_all :
    (r : Dict ℕ) (c : List ℕ) (h : Heartbeat)
    → Tracked r c h
    → cancels (contexts_of r ++ c) h.context ≡ true
Tracked-stop_all r c h t =
    ground (arith, any-append (contexts_of r) c h.context, contexts_of-lookup r h.lock_id h.context)

lookup-delete_self : (id : String) (r : Dict ℕ) → lookup id (delete id r) ≡ none
lookup-delete_self id r = rw (lookup-delete id id r, eq_refl id) refl

fresh-Tracked :
    (id : String) (new : ℕ) (r : Dict ℕ) (c : List ℕ)
    → Tracked (insert id new r) c (record { context = new; lock_id = id; failing = false })
fresh-Tracked id new r c kept = lookup-insert_self id new r

abbrev IsTracked : Heartbeats → Type 0
IsTracked s = AllTracked s.cancels s.cancelled s.live

module _ (s : Heartbeats) (ts : IsTracked s) where
  start_heartbeat-IsTracked : (id : String) → IsTracked (start_heartbeat id s)
  unfolding start_heartbeat
  start_heartbeat-IsTracked id = (
    fresh-Tracked id s.next_context s.cancels (cancel_of (lookup id s.cancels) s.cancelled),
    AllTracked-map s.cancels (insert id s.next_context s.cancels) s.cancelled
        (cancel_of (lookup id s.cancels) s.cancelled) s.live
        (Tracked-start id s.next_context s.cancels s.cancelled) ts,
  )

  stop_heartbeat-IsTracked : (id : String) → IsTracked (stop_heartbeat id s)
  unfolding stop_heartbeat
  stop_heartbeat-IsTracked id =
      AllTracked-map s.cancels (delete id s.cancels) s.cancelled
        (cancel_of (lookup id s.cancels) s.cancelled) s.live (Tracked-stop id s.cancels s.cancelled)
        ts

  stop_all-IsTracked : IsTracked (stop_all s)
  unfolding stop_all
  stop_all-IsTracked = elim (Bool-cases s.stopped_once) [
    | inl before ↦ rw before ts
    | inr first ↦ rw first (
        AllTracked-map s.cancels [] s.cancelled (contexts_of s.cancels ++ s.cancelled) s.live
          (λ h t kept. cc (kept, Tracked-stop_all s.cancels s.cancelled h t)) ts)
  ]

HeartbeatStep-IsTracked : {s t : Heartbeats} → HeartbeatStep s t → IsTracked s → IsTracked t
unfolding give_up stop_heartbeat
HeartbeatStep-IsTracked (acquired id s) ts = start_heartbeat-IsTracked s ts id
HeartbeatStep-IsTracked (released id s) ts = stop_heartbeat-IsTracked s ts id
HeartbeatStep-IsTracked (stopped s) ts = stop_all-IsTracked s ts
HeartbeatStep-IsTracked (done h s among fine ended) ts =
    AllTracked-returned s.cancels s.cancelled h.context s.live ts
HeartbeatStep-IsTracked (beat_fails h s among fine) ts =
    AllTracked-fails s.cancels s.cancelled h.context s.live ts
HeartbeatStep-IsTracked (gives_up h s among failed) ts =
    AllTracked-returned (delete h.lock_id s.cancels)
      (cancel_of (lookup h.lock_id s.cancels) s.cancelled) h.context s.live
      (stop_heartbeat-IsTracked s ts h.lock_id)

HeartbeatSteps-IsTracked : {s t : Heartbeats} → IsTracked s → HeartbeatSteps s t → IsTracked t
HeartbeatSteps-IsTracked ts here = ts
HeartbeatSteps-IsTracked ts (next steps step) =
    HeartbeatStep-IsTracked step (HeartbeatSteps-IsTracked ts steps)

-- Whatever the service and its goroutines have done, in any order: a goroutine that has not returned
-- is cancelled or registered for its lock, so that at most one for a lock is not cancelled; it is
-- cancelled once its lock is released; and it is cancelled once the service is told to stop, unless
-- the service was stopped before, since only the first stop does something.
pub heartbeats_end :
    (s : Heartbeats) (h : Heartbeat)
    → HeartbeatSteps no_heartbeats s
    → Among h s.live
    → ((is_cancelled s h.context ≡ true) ⊎ (lookup h.lock_id s.cancels ≡ some h.context))
      × (is_cancelled (stop_heartbeat h.lock_id s) h.context ≡ true)
      × ((s.stopped_once ≡ true) ⊎ (is_cancelled (stop_all s) h.context ≡ true))
unfolding stop_heartbeat stop_all
heartbeats_end s h steps among =
    let ts = HeartbeatSteps-IsTracked tt steps in
    let tracked = Tracked-live s.cancels s.cancelled s.live h ts among in
    let stopped_tracked =
      Tracked-live (delete h.lock_id s.cancels) (cancel_of (lookup h.lock_id s.cancels) s.cancelled)
        s.live h (stop_heartbeat-IsTracked s ts h.lock_id) among in
    (
      elim (Bool-cases (is_cancelled s h.context)) [
        | inl ended ↦ inl ended
        | inr beats ↦ inr (tracked beats)
      ],
      elim (Bool-cases (cancels (cancel_of (lookup h.lock_id s.cancels) s.cancelled) h.context)) [
        | inl ended ↦ ended
        | inr beats ↦ cc (stopped_tracked beats, lookup-delete_self h.lock_id s.cancels)
      ],
      elim (Bool-cases s.stopped_once) [
        | inl before ↦ inl before
        | inr first ↦ inr (rw first (Tracked-stop_all s.cancels s.cancelled h tracked))
      ],
    )

-- ===== src/Parallel/Slots.antt =====
-- The slots of the agents: what the workers of a batch hold, and what the pool counts.
use deespec.Base.{
  ℕ, ◌≡◌, refl, ◌+◌, ◌-◌, ◌≤◌, String, true, false, Option, none, some, List, [], ◌∷◌, ◌&&◌, arith,
  str_eq, eq_iff, if◌then◌else◌,
}
use deespec.Base.Int.{pos_part}
use deespec.Base.Dict.{lookup-insert}
use deespec.Model.Sbi.{Sbi}
use deespec.Parallel.AgentPool.{AgentPool, get_current, get_max, try_acquire, release}
use deespec.Parallel.Runner.{Worker, Picks, here, there}

-- 1 for a worker that holds a slot of the agent.
abbrev pub slot : String → Worker → ℕ
slot agent w = if w.holds_slot && str_eq w.sbi.metadata.assigned_agent agent then 1 else 0

abbrev pub slots : String → List Worker → ℕ
slots agent [] = 0
slots agent (w ∷ ws) = slot agent w + slots agent ws

pub Picks-slots :
    (agent : String) {w : Worker} {ws rest : List Worker}
    → Picks w ws rest
    → slots agent ws ≡ slot agent w + slots agent rest
Picks-slots agent here = refl
Picks-slots agent (there p) = omega (arith, Picks-slots agent p)

-- The pool counts the slots that the workers hold, and no agent has more than its limit (a limit
-- below zero counts as zero).
abbrev pub Fits : Option AgentPool → List Worker → Type 0
Fits none ws = Unit
Fits (some p) ws =
    (agent : String)
    → (get_current p agent ≡ slots agent ws) × (get_current p agent ≤ pos_part (get_max p agent))

pub try_acquire-Fits :
    (p : AgentPool) (s : Sbi) (ws : List Worker)
    → (try_acquire p s.metadata.assigned_agent).1 ≡ true
    → Fits (some p) ws
    → Fits
        (some (try_acquire p s.metadata.assigned_agent).0)
        ((record { sbi = s; holds_slot = true }) ∷ ws)
unfolding try_acquire get_current get_max
try_acquire-Fits p s ws acquired fits agent = ground (
  arith,
  fits agent,
  fits s.metadata.assigned_agent,
  lookup-insert s.metadata.assigned_agent agent (get_current p s.metadata.assigned_agent + 1)
      p.current,
  eq_iff s.metadata.assigned_agent agent,
)

pub release-Fits :
    (p : AgentPool) {w : Worker} {ws rest : List Worker}
    → Picks w ws rest
    → w.holds_slot ≡ true
    → Fits (some p) ws
    → Fits
        (some (release p w.sbi.metadata.assigned_agent))
        ((record w { holds_slot = false }) ∷ rest)
unfolding release get_current get_max
release-Fits p {w} {ws} {rest} picks holds fits agent = ground (
  arith,
  fits agent,
  fits w.sbi.metadata.assigned_agent,
  Picks-slots agent picks,
  Picks-slots w.sbi.metadata.assigned_agent picks,
  lookup-insert w.sbi.metadata.assigned_agent agent
      (get_current p w.sbi.metadata.assigned_agent - 1) p.current,
  eq_iff w.sbi.metadata.assigned_agent agent,
)

-- A worker without a slot leaves the count as it is.
pub exit-Fits :
    (pool : Option AgentPool) {w : Worker} {ws rest : List Worker}
    → Picks w ws rest
    → w.holds_slot ≡ false
    → Fits pool ws
    → Fits pool rest
exit-Fits none {w} {ws} {rest} picks holds fits = tt
exit-Fits (some p) {w} {ws} {rest} picks holds fits =
    λ agent. ground (arith, fits agent, Picks-slots agent picks)

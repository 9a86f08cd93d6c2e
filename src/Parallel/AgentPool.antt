-- ===== src/Parallel/AgentPool.antt =====
-- internal/application/service/agent_pool.go: how many executions each agent may run at a time. The
-- mutex makes each method one step. A count starts at 0, and Release never lowers it below.
use deespec.Base.{
  ℕ, ◌+◌, ◌-◌, String, Bool, true, false, none, some, [], ◌∷◌, Result, ok, err, ltb, if◌then◌else◌,
}
use deespec.Base.Int.{ℤ, pos, leb_ℤ, ltb_ℤ}
use deespec.Base.Dict.{Dict, lookup, insert}

pub record AgentPool : Type 0 where
  pub max_per_agent : Dict ℤ
  pub current : Dict ℕ

unfoldable pub new_agent_pool : AgentPool
new_agent_pool = record {
  max_per_agent = ("claude-code", pos 2) ∷ ("gemini-cli", pos 1) ∷ ("codex", pos 1) ∷ [];
  current = [];
}

unfoldable pub new_agent_pool_with_config : Dict ℤ → AgentPool
new_agent_pool_with_config max_per_agent = record { max_per_agent = max_per_agent; current = [] }

-- A missing key reads as 0.
unfoldable pub get_current : AgentPool → String → ℕ
get_current p agent = elim (lookup agent p.current) [ none ↦ 0 | some n ↦ n ]

unfoldable pub get_max : AgentPool → String → ℤ
get_max p agent = elim (lookup agent p.max_per_agent) [ none ↦ pos 1 | some max ↦ max ]

unfoldable pub try_acquire : AgentPool → String → AgentPool × Bool
unfolding get_current get_max
try_acquire p agent =
    if leb_ℤ (get_max p agent) (pos (get_current p agent))
    then (p, false)
    else (record p { current = insert agent (get_current p agent + 1) p.current }, true)

unfoldable pub release : AgentPool → String → AgentPool
unfolding get_current
release p agent =
    if ltb 0 (get_current p agent)
    then record p { current = insert agent (get_current p agent - 1) p.current }
    else p

pub data LimitError : Type 0 where
  max_below_one : ℤ → LimitError

unfoldable pub set_limit : AgentPool → String → ℤ → Result LimitError AgentPool
set_limit p agent max =
    if ltb_ℤ max (pos 1)
    then err (max_below_one max)
    else ok (record p { max_per_agent = insert agent max p.max_per_agent })

unfoldable pub reset : AgentPool → AgentPool
reset p = record p { current = [] }

pub record AgentStats : Type 0 where
  pub agent : String
  pub current : ℕ
  pub max : ℤ

unfoldable pub is_available : AgentStats → Bool
is_available s = ltb_ℤ (pos s.current) s.max

abbrev pub stats_of : AgentPool → Dict ℤ → Dict AgentStats
unfolding get_current
stats_of p [] = []
stats_of p ((agent, max) ∷ rest) =
    (agent, record { agent = agent; current = get_current p agent; max = max }) ∷ stats_of p rest

unfoldable pub get_stats : AgentPool → Dict AgentStats
get_stats p = stats_of p p.max_per_agent

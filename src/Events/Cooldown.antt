-- ===== src/Events/Cooldown.antt =====
-- `_cooldown_gate` of backend/runner/event_analysis.py. The table of cooldowns is passed in and returned,
-- and the monotonic clock's reading is an argument, in ticks: a difference of two readings is compared
-- as a sum, since `now - cooldown_seconds` may be below zero.
use engineering_memory_agent.Common.{
  ℕ, ◌+◌, Bool, false, not, String, Option, none, some, List, [], ◌∷◌, length, filter, ltb,
  if◌then◌else◌,
}
use engineering_memory_agent.Common.Eq.{string_eq}
use engineering_memory_agent.Common.Dict.{Dict, get, put}

pub data Gate : Type 0 where
  pass : Gate
  skipped_cooldown : Gate

abbrev pub Cooldowns : Type 0
Cooldowns = Dict String ℕ

abbrev pub prune_above : ℕ
prune_above = 512

-- `last is not None and (now - last) < cooldown_seconds`
unfoldable pub is_cooling : ℕ → ℕ → Option ℕ → Bool
is_cooling cooldown_seconds now none = false
is_cooling cooldown_seconds now (some last) = ltb now (last + cooldown_seconds)

-- `v < cutoff`
abbrev pub is_expired : ℕ → ℕ → ℕ → Bool
is_expired cooldown_seconds now v = ltb (v + cooldown_seconds) now

unfoldable pub prune_expired : ℕ → ℕ → Cooldowns → Cooldowns
prune_expired cooldown_seconds now d =
    if ltb prune_above (length d)
    then filter (λ (e : String × ℕ). not (is_expired cooldown_seconds now e.1)) d
    else d

unfoldable pub cooldown_gate : ℕ → ℕ → Option String → Cooldowns → Gate × Cooldowns
unfolding is_cooling prune_expired
cooldown_gate cooldown_seconds now none d = (pass, d)
cooldown_gate cooldown_seconds now (some key) d =
    if is_cooling cooldown_seconds now (get key d)
    then (skipped_cooldown, d)
    else (pass, prune_expired cooldown_seconds now (put key now d))

-- The gate's calls in order: when, and for which key.
pub record Arrival : Type 0 where
  pub now : ℕ
  pub key : Option String

unfoldable pub run_gate : ℕ → List Arrival → Cooldowns → List Gate
unfolding cooldown_gate
run_gate cooldown_seconds [] d = []
run_gate cooldown_seconds (a ∷ rest) d =
    let (answer, next) = cooldown_gate cooldown_seconds a.now a.key d in
    answer ∷ run_gate cooldown_seconds rest next

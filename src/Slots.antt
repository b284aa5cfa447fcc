-- ===== src/Slots.antt =====
-- backend/shared/slots.py: the bounded counter behind the agent, scenario and event caps.
-- A method runs under the lock, so one call is one step of the model.
pub mod Cap
mod Tests
use engineering_memory_agent.Common.{
  ℕ, suc, ◌+◌, ◌-◌, Bool, true, false, List, [], ◌∷◌, ◌++◌, leb, if◌then◌else◌,
}

-- A call of one of the metric hooks, with its argument.
pub data Hook : Type 0 where
  reject : Hook
  change : ℕ → Hook

-- `on_reject` and `on_change` say whether the hook was given to the constructor; `fired` lists
-- the hook calls, the latest first.
pub record SlotLimiter : Type 0 where
  pub on_reject : Bool
  pub on_change : Bool
  pub active : ℕ
  pub fired : List Hook

unfoldable pub new : Bool → Bool → SlotLimiter
new on_reject on_change = record {
  on_reject = on_reject;
  on_change = on_change;
  active = 0;
  fired = [];
}

fire : Bool → Hook → List Hook → List Hook
fire given h fired = if given then h ∷ fired else fired

-- `limit` is what the `limit` callable returns at this call.
unfoldable pub try_acquire : ℕ → SlotLimiter → Bool × SlotLimiter
unfolding fire
try_acquire limit s =
    if leb limit s.active then (false, record s { fired = fire s.on_reject reject s.fired }) else (
      true,
      record s { active = s.active + 1; fired = fire s.on_change (change (s.active + 1)) s.fired },
    )

-- `max(active - 1, 0)` is subtraction on the numbers.
unfoldable pub release : SlotLimiter → SlotLimiter
unfolding fire
release s = record s {
  active = s.active - 1;
  fired = fire s.on_change (change (s.active - 1)) s.fired;
}

-- What callers do: take a slot at some limit, or give one back.
pub data Call : Type 0 where
  acquire : ℕ → Call
  done : Call

unfoldable pub call : Call → SlotLimiter → SlotLimiter
unfolding try_acquire release
call (acquire limit) s = (try_acquire limit s).1
call done s = release s

pub run : List Call → SlotLimiter → SlotLimiter
run [] s = s
run (c ∷ cs) s = run cs (call c s)

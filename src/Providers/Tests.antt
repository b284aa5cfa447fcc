-- ===== src/Providers/Tests.antt =====
-- Runs of `chat_structured` of backend/service/structured.py, with texts as values, and of the failover
-- of backend/service/llm_service.py.
use engineering_memory_agent.Common.{
  ℕ, zero, suc, ◌+◌, arith, ◌≡◌, refl, true, String, none, some, List, [], ◌∷◌, str_eq,
  if◌then◌else◌,
}
use engineering_memory_agent.Providers.Structured.{
  ModelReply, replied, fails, transient_error, Schema, value, judge, parse_strict_json,
  attempt_loop, chat_structured,
}
use engineering_memory_agent.Breaker.{
  Settings, Outcome, returned, raised, timed_out, is_retryable, new,
}
use engineering_memory_agent.Providers.Switch.{PairCall, serve, outage_served}
use engineering_memory_agent.Providers.Attempts.{IsOrderly, chat_structured-IsOrderly}

-- Only "ok" is accepted, and a fence is never there.
abbrev only_ok : Schema String String
only_ok = record {
  loads = λ s. some s;
  parse_error = λ s. "json";
  strip_markdown_fence = λ s. s;
  validate = λ v. if str_eq v "ok" then none else some "refused";
  feedback = λ detail raw. detail;
}

-- A failure, a wrong output and an accepted one.
abbrev improving : ℕ → List String → ModelReply
improving zero p = replied "ok"
improving (suc zero) p = replied "bad"
improving (suc (suc n)) p = fails (transient_error "timeout")

improving_run :
    chat_structured only_ok improving 3 ("ask" ∷ [])
    ≡ (value "ok", ("ask" ∷ []) ∷ ("ask" ∷ []) ∷ ("ask" ∷ "refused" ∷ []) ∷ [])
unfolding chat_structured attempt_loop judge parse_strict_json
improving_run = refl

chat_structured-IsOrderly_example :
    IsOrderly only_ok ("ask" ∷ []) 3 (chat_structured only_ok improving 3 ("ask" ∷ []))
chat_structured-IsOrderly_example = chat_structured-IsOrderly only_ok ("ask" ∷ []) improving 3

abbrev cfg : Settings
cfg = record { failure_threshold = 1; cooldown_seconds = 60; metrics_enabled = true }

-- The first of two providers fails once under a threshold of one, and would have recovered at 20.
abbrev pair_call : ℕ → Outcome ℕ → ℕ → PairCall ℕ
pair_call t o n = record {
  primary = record { now = t; later = t + 1; outcome = o };
  fallback = returned n;
}

outage_served_example :
    let (answers, b') =
      serve cfg (pair_call 5 (raised timed_out) 1 ∷ pair_call 20 (returned 9) 2 ∷ []) new in
    (answers ≡ returned 1 ∷ returned 2 ∷ []) × (b'.open_until ≡ 66)
unfolding new is_retryable
outage_served_example =
    outage_served cfg [] (pair_call 5 (raised timed_out) 1) (pair_call 20 (returned 9) 2 ∷ []) new
      refl tt (timed_out, refl, refl) (omega arith) (omega arith, tt)

-- ===== src/Breaker/Tests.antt =====
-- Runs of the circuit breaker of backend/shared/resilience.py on concrete calls.
use engineering_memory_agent.Common.{ℕ, ◌≡◌, true, false, refl, List, [], ◌∷◌, ◌++◌, ◌+◌, arith}
use engineering_memory_agent.Breaker.{
  Settings, CircuitBreaker, Outcome, returned, raised, cancelled, status_code, circuit_open, new,
  is_retryable, before_call, Registry,
}
use engineering_memory_agent.Breaker.Trip.{
  Event, before, success, failure, Inv, run, run-Inv, fails_fast,
}
use engineering_memory_agent.Breaker.Outage.{WrappedCall, run_calls, outage_isolated}

abbrev cfg : Settings
cfg = record { failure_threshold = 3; cooldown_seconds = 60; metrics_enabled = true }

abbrev mixed : List Event
mixed =
    failure 1 ∷ success ∷ failure 2 ∷ failure 3 ∷ failure 4 ∷ before 10 ∷ success ∷ before 70 ∷ []

abbrev tripped : CircuitBreaker
tripped = record { failures = 0; open_until = 65; gauge = true; opens = 1; rejections = 0 }

abbrev two : Registry
two = ("chat", tripped) ∷ []

run-Inv_example : Inv cfg (run cfg mixed new)
run-Inv_example = run-Inv cfg (omega arith) (omega arith) refl mixed

fails_fast_example :
    let b' = run cfg (before 20 ∷ success ∷ []) tripped in
    ((before_call cfg 64 b').0 ≡ false)
    × ((before_call cfg 65 b').0 ≡ true)
    × ((before_call cfg 65 b').1.open_until ≡ 0)
    × ((before_call cfg 65 b').1.failures ≡ 0)
fails_fast_example =
    fails_fast cfg (before 20 ∷ success ∷ []) tripped 64 65 (omega arith) (omega arith, (tt, tt))
      (omega arith) (omega arith)

-- Two failures under a threshold of three, the third one ends at 9, and two calls come before 69, of
-- which one would have succeeded and one was cancelled.
abbrev wrapped : ℕ → Outcome ℕ → WrappedCall ℕ
wrapped t o = record { now = t; later = t + 1; outcome = o }

abbrev unavailable : Outcome ℕ
unavailable = raised (status_code 503)

outage_isolated_example :
    let failing = wrapped 5 unavailable ∷ wrapped 6 unavailable ∷ [] in
    let during = wrapped 20 (returned 1) ∷ wrapped 68 cancelled ∷ [] in
    let (answers, b') = run_calls cfg (failing ++ (wrapped 8 unavailable ∷ during)) new in
    (answers
      ≡ unavailable ∷ unavailable ∷ unavailable ∷ raised circuit_open ∷ raised circuit_open ∷ [])
    × (b'.open_until ≡ 69)
    × (b'.failures ≡ 0)
unfolding new is_retryable
outage_isolated_example =
    outage_isolated cfg (wrapped 5 unavailable ∷ wrapped 6 unavailable ∷ []) (wrapped 8 unavailable)
      (wrapped 20 (returned 1) ∷ wrapped 68 cancelled ∷ []) new refl
      ((status_code 503, refl, refl), ((status_code 503, refl, refl), tt))
      (status_code 503, refl, refl) (omega arith) (omega arith, (omega arith, tt))

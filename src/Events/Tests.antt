-- ===== src/Events/Tests.antt =====
-- Runs of the gate of backend/runner/event_analysis.py with a window of ten ticks.
use engineering_memory_agent.Common.{ℕ, String, none, some, List, [], ◌∷◌, ◌≡◌, refl, arith}
use engineering_memory_agent.Common.Dict.{get, put}
use engineering_memory_agent.Events.Cooldown.{pass, skipped_cooldown, Arrival, run_gate}
use engineering_memory_agent.Events.Unpruned.{run_ideal, run_gate-run_ideal}

abbrev at : ℕ → String → Arrival
at t k = record { now = t; key = some k }

-- A skipped event does not prolong the window, and an event without a key always passes.
abbrev storm : List Arrival
storm =
    at 1 "a"
    ∷ at 5 "a"
    ∷ at 6 "b"
    ∷ record { now = 7; key = none }
    ∷ at 10 "a"
    ∷ at 11 "a"
    ∷ at 12 "b"
    ∷ []

storm_answers :
    run_gate 10 storm []
    ≡ pass ∷ skipped_cooldown ∷ pass ∷ pass ∷ skipped_cooldown ∷ pass ∷ skipped_cooldown ∷ []
unfolding run_gate get put
storm_answers = refl

run_gate-run_ideal_example : run_gate 10 storm [] ≡ run_ideal 10 storm (λ key. none)
run_gate-run_ideal_example = run_gate-run_ideal 10 storm (
  omega arith,
  (omega arith, (omega arith, (omega arith, (omega arith, (omega arith, (omega arith, tt)))))),
)

-- ===== src/Slots/Tests.antt =====
-- Runs of backend/shared/slots.py on concrete schedules.
use engineering_memory_agent.Common.{◌≡◌, true, refl, List, [], ◌∷◌}
use engineering_memory_agent.Slots.{Call, acquire, done, new, try_acquire, release, run}
use engineering_memory_agent.Slots.Cap.{run-holders}

abbrev schedule : List Call
schedule = acquire 2 ∷ acquire 2 ∷ acquire 2 ∷ done ∷ acquire 1 ∷ []

abbrev spurious : List Call
spurious = done ∷ acquire 2 ∷ acquire 1 ∷ done ∷ done ∷ acquire 2 ∷ []

run-holders_example : (run schedule (new true true)).active ≡ 1
unfolding new try_acquire release
run-holders_example = run-holders schedule 0 1 (new true true) refl refl

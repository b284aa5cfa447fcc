-- ===== src/Usage/Tests.antt =====
-- Runs of backend/service/usage.py on rows of numbers, with a buffer of two.
use engineering_memory_agent.Common.{ℕ, ◌+◌, ◌≡◌, true, List, [], ◌∷◌, ◌==◌}
use engineering_memory_agent.Usage.Buffer.{
  record_call, flush_usage_buffer, drop_oldest, UsageState, committed, cancelled, fresh_row,
  UsageStep, recorded, flushed, usage_run,
}
use engineering_memory_agent.Usage.Conserved.{held, usage_run-held}

abbrev full : UsageState ℕ
full = record {
  pending = fresh_row 1 ∷ fresh_row 2 ∷ [];
  table = [];
  lost = [];
  consecutive_failures = 0;
}

abbrev steps : List (UsageStep ℕ)
steps = recorded 3 ∷ flushed (4 ∷ []) (cancelled true) ∷ recorded 5 ∷ flushed [] committed ∷ []

-- The row 3 is recorded once, and its first INSERT is committed and cancelled: it ends in the table twice.
usage_run-held_example :
    held (λ n. n == 3) (usage_run 2 steps full) ≡ held (λ n. n == 3) full + 1 + 1
unfolding record_call flush_usage_buffer drop_oldest
usage_run-held_example = usage_run-held (λ n. n == 3) 2 steps full

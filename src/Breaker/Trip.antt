-- ===== src/Breaker/Trip.antt =====
-- The circuit breaker of backend/shared/resilience.py over sequences of calls.
use engineering_memory_agent.Common.{
  ℕ, ◌+◌, ◌≤◌, ◌<◌, ◌≡◌, ◌↔◌, refl, ap, ◌∙◌, true, false, List, [], ◌∷◌, ◌++◌, arith, All, length,
}
use engineering_memory_agent.Breaker.{
  Settings, CircuitBreaker, new, before_call, record_success, record_failure,
}

-- The calls that reach a shared breaker, in the order in which they take its lock.
pub data Event : Type 0 where
  before : ℕ → Event
  success : Event
  failure : ℕ → Event

pub step : Settings → Event → CircuitBreaker → CircuitBreaker
step cfg (before now) b = (before_call cfg now b).1
step cfg success b = record_success cfg b
step cfg (failure now) b = record_failure cfg now b

pub run : Settings → List Event → CircuitBreaker → CircuitBreaker
run cfg [] b = b
run cfg (e ∷ es) b = run cfg es (step cfg e b)

-- Between two calls the count is below the threshold, and the gauge shows whether the breaker waits
-- for a cooldown.
pub record Inv (cfg : Settings) (b : CircuitBreaker) : Type 0 where
  pub counting : b.failures < cfg.failure_threshold
  pub mirrored : (b.gauge ≡ true) ↔ (0 < b.open_until)

module _ (cfg : Settings) (positive : 0 < cfg.failure_threshold) (cools : 0 < cfg.cooldown_seconds)
    (metrics : cfg.metrics_enabled ≡ true) where
  new-Inv : Inv cfg new
  unfolding new
  new-Inv = ground arith

  step-Inv : (e : Event) (b : CircuitBreaker) → Inv cfg b → Inv cfg (step cfg e b)
  unfolding step before_call record_success record_failure
  step-Inv (before now) b v = ground arith
  step-Inv success b v = ground arith
  step-Inv (failure now) b v = ground arith

  run_from-Inv : (es : List Event) (b : CircuitBreaker) → Inv cfg b → Inv cfg (run cfg es b)
  unfolding run
  run_from-Inv [] b v = v
  run_from-Inv (e ∷ es) b v = run_from-Inv es (step cfg e b) (step-Inv e b v)

  -- After any interleaving of calls, successes and failures the failure count is below the
  -- threshold, and the gauge is 1 exactly when the breaker has an open deadline, provided that the
  -- threshold and the cooldown are positive and metrics are enabled.
  pub run-Inv : (es : List Event) → Inv cfg (run cfg es new)
  run-Inv es = run_from-Inv es new new-Inv

-- Failures at the given times, one after another.
abbrev pub failures_at : List ℕ → List Event
failures_at [] = []
failures_at (t ∷ ts) = failure t ∷ failures_at ts

pub fail_counts :
    (cfg : Settings) (t : ℕ) (b : CircuitBreaker)
    → b.failures + 1 < cfg.failure_threshold
    → record_failure cfg t b ≡ record b { failures = b.failures + 1 }
unfolding record_failure
fail_counts cfg t b h = ground arith

pub fail_trips :
    (cfg : Settings) (t : ℕ) (b : CircuitBreaker)
    → b.failures + 1 ≡ cfg.failure_threshold
    → ((record_failure cfg t b).open_until ≡ t + cfg.cooldown_seconds)
      × ((record_failure cfg t b).failures ≡ 0)
unfolding record_failure
fail_trips cfg t b h = ground arith

-- Failures that stay below the threshold only count.
failures_count :
    (cfg : Settings) (ts : List ℕ) (b : CircuitBreaker)
    → b.failures + length ts < cfg.failure_threshold
    → run cfg (failures_at ts) b ≡ record b { failures = b.failures + length ts }
unfolding run step
failures_count cfg [] b h = ground arith
failures_count cfg (t ∷ ts) b h =
    ap (run cfg (failures_at ts)) (fail_counts cfg t b (omega arith))
    ∙ failures_count cfg ts (record b { failures = b.failures + 1 }) (omega arith)
    ∙ ap count (omega arith)
  where
    count : ℕ → CircuitBreaker
    count n = record b { failures = n }

run-append :
    (cfg : Settings) (es fs : List Event) (b : CircuitBreaker)
    → run cfg (es ++ fs) b ≡ run cfg fs (run cfg es b)
unfolding run
run-append cfg [] fs b = refl
run-append cfg (e ∷ es) fs b = run-append cfg es fs (step cfg e b)

-- From a count of k, failures that leave the count one below the threshold change nothing but the
-- count, whatever their times. The next failure opens the breaker until its own time plus the
-- cooldown, and starts the count again.
pub trips_exactly :
    (cfg : Settings) (ts : List ℕ) (last : ℕ) (b : CircuitBreaker)
    → b.failures + length ts + 1 ≡ cfg.failure_threshold
    → (run cfg (failures_at ts) b ≡ record b { failures = b.failures + length ts })
      × ((run cfg (failures_at ts ++ failure last ∷ []) b).open_until ≡ last + cfg.cooldown_seconds)
      × ((run cfg (failures_at ts ++ failure last ∷ []) b).failures ≡ 0)
trips_exactly cfg ts last b h =
    let counted = failures_count cfg ts b (omega arith) in
    let warm : CircuitBreaker = record b { failures = b.failures + length ts } in
    let tripped = fail_trips cfg last warm h in
    (
      counted,
      rw (run-append cfg (failures_at ts) (failure last ∷ []) b, counted)
          (unfold run step in tripped.0),
      rw (run-append cfg (failures_at ts) (failure last ∷ []) b, counted)
          (unfold run step in tripped.1),
    )

-- What an open breaker sees before its deadline: attempts, and successes of calls that were already
-- under way.
abbrev pub Early : ℕ → Event → Type 0
Early deadline (before now) = now < deadline
Early deadline success = Unit
Early deadline (failure now) = ⊥

step-Early :
    (cfg : Settings) (e : Event) (b : CircuitBreaker)
    → 0 < b.open_until
    → Early b.open_until e
    → ((step cfg e b).open_until ≡ b.open_until) × ((step cfg e b).failures ≡ b.failures)
unfolding step before_call record_success
step-Early cfg (before now) b o h = ground arith
step-Early cfg success b o h = ground arith
step-Early cfg (failure now) b o h = absurd h

stays_open :
    (cfg : Settings) (deadline : ℕ) (es : List Event) (b : CircuitBreaker)
    → 0 < deadline
    → b.open_until ≡ deadline
    → All (Early deadline) es
    → (run cfg es b).open_until ≡ deadline
unfolding run
stays_open cfg deadline [] b o e h = e
stays_open cfg deadline (v ∷ es) b o e h =
    stays_open cfg deadline es (step cfg v b) o ((step-Early cfg v b (rw e o) (rw e h.0)).0 ∙ e) h.1

admits_late :
    (cfg : Settings) (now : ℕ) (b : CircuitBreaker)
    → 0 < b.open_until
    → b.open_until ≤ now
    → ((before_call cfg now b).0 ≡ true)
      × ((before_call cfg now b).1.open_until ≡ 0)
      × ((before_call cfg now b).1.failures ≡ 0)
unfolding before_call
admits_late cfg now b o h = ground arith

pub rejects_early :
    (cfg : Settings) (now : ℕ) (b : CircuitBreaker)
    → now < b.open_until
    → (before_call cfg now b).0 ≡ false
unfolding before_call
rejects_early cfg now b h = ground arith

-- While it is open a breaker rejects every call before the deadline, whatever attempts and late
-- successes came before: no success closes it early. The first call at or after the deadline is
-- admitted and finds the breaker closed with a count of 0.
pub fails_fast :
    (cfg : Settings) (es : List Event) (b : CircuitBreaker) (early late : ℕ)
    → 0 < b.open_until
    → All (Early b.open_until) es
    → early < b.open_until
    → b.open_until ≤ late
    → let b' = run cfg es b in
      ((before_call cfg early b').0 ≡ false)
      × ((before_call cfg late b').0 ≡ true)
      × ((before_call cfg late b').1.open_until ≡ 0)
      × ((before_call cfg late b').1.failures ≡ 0)
fails_fast cfg es b early late o h he hl =
    let b' = run cfg es b in
    let same : b'.open_until ≡ b.open_until = stays_open cfg b.open_until es b o refl h in
    let a = admits_late cfg late b' (omega arith) (omega arith) in
    (rejects_early cfg early b' (omega arith), a.0, a.1, a.2)

-- ===== src/Breaker/Outage.antt =====
-- Wrapped calls of backend/shared/resilience.py one after another, through an outage of the provider.
use engineering_memory_agent.Common.{
  ℕ, ◌+◌, ◌<◌, ◌≡◌, refl, ap, ◌∙◌, true, List, [], ◌∷◌, ◌++◌, arith, All, length, map,
}
use engineering_memory_agent.Breaker.{
  Settings, CircuitBreaker, Outcome, ProviderError, raised, circuit_open, is_retryable, before_call,
  record_failure, call_with_resilience,
}
use engineering_memory_agent.Breaker.Trip.{rejects_early, fail_counts, fail_trips}

-- A call: when it starts, when its operation is done, and how that ends.
pub record WrappedCall {ℓ} (A : Type ℓ) : Type ℓ where
  pub now : ℕ
  pub later : ℕ
  pub outcome : Outcome A

admitted_closed :
    (cfg : Settings) (now : ℕ) (b : CircuitBreaker)
    → b.open_until ≡ 0
    → before_call cfg now b ≡ (true, b)
unfolding before_call
admitted_closed cfg now b h = ground arith

early_kept :
    (cfg : Settings) (now : ℕ) (b : CircuitBreaker)
    → now < b.open_until
    → ((before_call cfg now b).1.open_until ≡ b.open_until)
      × ((before_call cfg now b).1.failures ≡ b.failures)
unfolding before_call
early_kept cfg now b h = ground arith

module _ {ℓ} {A : Type ℓ} where
  -- The answers of calls that do not overlap, and the breaker after them.
  unfoldable pub run_calls :
      Settings → List (WrappedCall A) → CircuitBreaker → List (Outcome A) × CircuitBreaker
  unfolding call_with_resilience
  run_calls cfg [] b = ([], b)
  run_calls cfg (c ∷ cs) b =
      let (answer, b') = call_with_resilience cfg c.now c.later (λ x. x) c.outcome b in
      let (answers, b'') = run_calls cfg cs b' in (answer ∷ answers, b'')

  -- The operation ends with an error that counts.
  abbrev pub IsFailing : WrappedCall A → Type ℓ
  IsFailing c = (e : ProviderError) × (c.outcome ≡ raised e) × (is_retryable e ≡ true)

  abbrev pub outcomes : List (WrappedCall A) → List (Outcome A)
  outcomes cs = map (λ (c : WrappedCall A). c.outcome) cs

  abbrev pub refused : List (WrappedCall A) → List (Outcome A)
  refused cs = map (λ (c : WrappedCall A). raised circuit_open) cs

  -- A run whose first call is known.
  run_step :
      (cfg : Settings) (c : WrappedCall A) (cs : List (WrappedCall A)) (b b' : CircuitBreaker)
      (answer : Outcome A)
      → call_with_resilience cfg c.now c.later (λ x. x) c.outcome b ≡ (answer, b')
      → run_calls cfg (c ∷ cs) b ≡ (answer ∷ (run_calls cfg cs b').0, (run_calls cfg cs b').1)
  unfolding run_calls
  run_step cfg c cs b b' answer e =
      ap
        (λ (r : Outcome A × CircuitBreaker).
          (r.0 ∷ (run_calls cfg cs r.1).0, (run_calls cfg cs r.1).1))
        e

  pub call_fails :
      (cfg : Settings) (c : WrappedCall A) (b : CircuitBreaker)
      → b.open_until ≡ 0
      → IsFailing c
      → call_with_resilience cfg c.now c.later (λ x. x) c.outcome b
        ≡ (c.outcome, record_failure cfg c.later b)
  unfolding call_with_resilience
  call_fails cfg c b h (e, is, counts) = rw (admitted_closed cfg c.now b h, is, counts) refl

  pub call_refused :
      (cfg : Settings) (c : WrappedCall A) (b : CircuitBreaker)
      → c.now < b.open_until
      → let (answer, b') = call_with_resilience cfg c.now c.later (λ x. x) c.outcome b in
        (answer ≡ raised circuit_open) × (b'.open_until ≡ b.open_until) × (b'.failures ≡ b.failures)
  unfolding call_with_resilience
  call_refused cfg c b h =
      let (kept, count) = early_kept cfg c.now b h in
      rw (rejects_early cfg c.now b h) (refl, kept, count)

  refused_run :
      (cfg : Settings) (deadline : ℕ) (during : List (WrappedCall A)) (b : CircuitBreaker)
      → b.open_until ≡ deadline
      → All (λ (c : WrappedCall A). c.now < deadline) during
      → let (answers, b') = run_calls cfg during b in
        (answers ≡ refused during) × (b'.open_until ≡ deadline) × (b'.failures ≡ b.failures)
  unfolding run_calls
  refused_run cfg deadline [] b o h = (refl, o, refl)
  refused_run cfg deadline (c ∷ cs) b o h =
      let (answer, kept, count) = call_refused cfg c b (rw o (h.0)) in
      let b' = (call_with_resilience cfg c.now c.later (λ x. x) c.outcome b).1 in
      let (answers, kept', count') = refused_run cfg deadline cs b' (kept ∙ o) (h.1) in
      (
        ap (λ a. a ∷ (run_calls cfg cs b').0) answer ∙ ap (λ l. raised circuit_open ∷ l) answers,
        kept',
        count' ∙ count,
      )

  -- Calls come one after another, and the provider goes down under a closed breaker. The calls that
  -- fail, up to the one that reaches the threshold, reach the provider and get its errors. Every call
  -- that starts before the last one's end plus the cooldown then gets the breaker's error, whatever
  -- its operation would have come to, and leaves the deadline and the count of 0 as they are: no
  -- success and no failure is recorded.
  pub outage_isolated :
      (cfg : Settings) (failing : List (WrappedCall A)) (last : WrappedCall A)
      (during : List (WrappedCall A)) (b : CircuitBreaker)
      → b.open_until ≡ 0
      → All IsFailing failing
      → IsFailing last
      → b.failures + length failing + 1 ≡ cfg.failure_threshold
      → All (λ (c : WrappedCall A). c.now < last.later + cfg.cooldown_seconds) during
      → let (answers, b') = run_calls cfg (failing ++ (last ∷ during)) b in
        (answers ≡ outcomes failing ++ (last.outcome ∷ refused during))
        × (b'.open_until ≡ last.later + cfg.cooldown_seconds)
        × (b'.failures ≡ 0)
  outage_isolated cfg [] last during b closed fs f n h =
      let (deadline, count) = fail_trips cfg last.later b (omega arith) in
      let tripped = record_failure cfg last.later b in
      let (answers, kept, count') =
        refused_run cfg (last.later + cfg.cooldown_seconds) during tripped deadline h in
      rw (run_step cfg last during b tripped last.outcome (call_fails cfg last b closed f))
        (ap (λ l. last.outcome ∷ l) answers, kept, count' ∙ count)
  outage_isolated cfg (c ∷ cs) last during b closed fs f n h =
      let more : CircuitBreaker = record b { failures = b.failures + 1 } in
      let counted =
        call_fails cfg c b closed (fs.0)
        ∙ ap (λ x. (c.outcome, x)) (fail_counts cfg c.later b (omega arith)) in
      let (answers, kept, count) =
        outage_isolated cfg cs last during more closed (fs.1) f (omega arith) h in
      rw (run_step cfg c (cs ++ (last ∷ during)) b more c.outcome counted)
        (ap (λ l. c.outcome ∷ l) answers, kept, count)

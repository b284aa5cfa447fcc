-- ===== src/Providers/Switch.antt =====
-- `FallbackLLMProvider` of backend/service/llm_service.py over the circuit breaker of its primary.
use engineering_memory_agent.Common.{
  ℕ, ◌+◌, ◌<◌, ◌≡◌, refl, ap, ◌∙◌, List, [], ◌∷◌, ◌++◌, arith, All, length, map,
}
use engineering_memory_agent.Breaker.{
  Settings, CircuitBreaker, Outcome, raised, circuit_open, is_retryable, record_failure,
  call_with_resilience,
}
use engineering_memory_agent.Breaker.Trip.{fail_counts, fail_trips}
use engineering_memory_agent.Breaker.Outage.{WrappedCall, IsFailing, call_fails, call_refused}
use engineering_memory_agent.Providers.Failover.{should_failover, chat}

-- A call of the pair: what the primary's operation would come to, and what the fallback's.
pub record PairCall {ℓ} (A : Type ℓ) : Type ℓ where
  pub primary : WrappedCall A
  pub fallback : Outcome A

module _ {ℓ} {A : Type ℓ} where
  -- Calls of the pair that do not overlap: their answers, and the primary's breaker after them.
  unfoldable pub serve :
      Settings → List (PairCall A) → CircuitBreaker → List (Outcome A) × CircuitBreaker
  unfolding call_with_resilience chat
  serve cfg [] b = ([], b)
  serve cfg (c ∷ cs) b =
      let (answer, b') =
        call_with_resilience cfg c.primary.now c.primary.later (λ x. x) c.primary.outcome b in
      let (answers, b'') = serve cfg cs b' in (chat answer c.fallback ∷ answers, b'')

  abbrev pub fallbacks : List (PairCall A) → List (Outcome A)
  fallbacks cs = map (λ (c : PairCall A). c.fallback) cs

  chat_failing :
      (c : WrappedCall A) (fallback : Outcome A) → IsFailing c → chat c.outcome fallback ≡ fallback
  unfolding chat should_failover
  chat_failing c fallback (e, is, counts) = rw (is, counts) refl

  chat_open : (fallback : Outcome A) → chat (raised circuit_open) fallback ≡ fallback
  unfolding chat should_failover is_retryable
  chat_open fallback = refl

  -- A run whose first call is known.
  serve_step :
      (cfg : Settings) (c : PairCall A) (cs : List (PairCall A)) (b b' : CircuitBreaker)
      (answer : Outcome A)
      → call_with_resilience cfg c.primary.now c.primary.later (λ x. x) c.primary.outcome b
        ≡ (answer, b')
      → serve cfg (c ∷ cs) b ≡ (chat answer c.fallback ∷ (serve cfg cs b').0, (serve cfg cs b').1)
  unfolding serve
  serve_step cfg c cs b b' answer e =
      ap
        (λ (r : Outcome A × CircuitBreaker).
          (chat r.0 c.fallback ∷ (serve cfg cs r.1).0, (serve cfg cs r.1).1))
        e

  served_open :
      (cfg : Settings) (deadline : ℕ) (during : List (PairCall A)) (b : CircuitBreaker)
      → b.open_until ≡ deadline
      → All (λ (c : PairCall A). c.primary.now < deadline) during
      → ((serve cfg during b).0 ≡ fallbacks during) × ((serve cfg during b).1.open_until ≡ deadline)
  served_open cfg deadline [] b o h = unfold serve in (refl, o)
  served_open cfg deadline (c ∷ cs) b o h =
      let (answer, kept, count) = call_refused cfg c.primary b (rw o (h.0)) in
      let b' =
        (call_with_resilience cfg c.primary.now c.primary.later (λ x. x) c.primary.outcome b).1 in
      let (answers, kept') = served_open cfg deadline cs b' (kept ∙ o) (h.1) in
      rw (serve_step cfg c cs b b' (raised circuit_open) (ap (λ a. (a, b')) answer))
        (rw (chat_open c.fallback) (ap (λ l. c.fallback ∷ l) answers), kept')

  -- Calls come one after another, and the primary goes down under a closed breaker. Every call from
  -- then on gets what the fallback's comes to: those that fail, up to the one that reaches the
  -- threshold, and every call that starts before that one's end plus the cooldown, whatever the
  -- primary's operation would have come to. The breaker is then still open until that time.
  pub outage_served :
      (cfg : Settings) (failing : List (PairCall A)) (last : PairCall A)
      (during : List (PairCall A)) (b : CircuitBreaker)
      → b.open_until ≡ 0
      → All (λ (c : PairCall A). IsFailing c.primary) failing
      → IsFailing last.primary
      → b.failures + length failing + 1 ≡ cfg.failure_threshold
      → All (λ (c : PairCall A). c.primary.now < last.primary.later + cfg.cooldown_seconds) during
      → let (answers, b') = serve cfg (failing ++ (last ∷ during)) b in
        (answers ≡ fallbacks (failing ++ (last ∷ during)))
        × (b'.open_until ≡ last.primary.later + cfg.cooldown_seconds)
  outage_served cfg [] last during b closed fs f n h =
      let (deadline, count) = fail_trips cfg last.primary.later b (omega arith) in
      let tripped = record_failure cfg last.primary.later b in
      let (answers, kept) =
        served_open cfg (last.primary.later + cfg.cooldown_seconds) during tripped deadline h in
      rw
        (serve_step cfg last during b tripped last.primary.outcome
          (call_fails cfg last.primary b closed f))
        (rw (chat_failing last.primary last.fallback f) (ap (λ l. last.fallback ∷ l) answers), kept)
  outage_served cfg (c ∷ cs) last during b closed fs f n h =
      let more : CircuitBreaker = record b { failures = b.failures + 1 } in
      let counted =
        call_fails cfg c.primary b closed (fs.0)
        ∙ ap (λ x. (c.primary.outcome, x)) (fail_counts cfg c.primary.later b (omega arith)) in
      let (answers, kept) = outage_served cfg cs last during more closed (fs.1) f (omega arith) h in
      rw (serve_step cfg c (cs ++ (last ∷ during)) b more c.primary.outcome counted)
        (rw (chat_failing c.primary c.fallback (fs.0)) (ap (λ l. c.fallback ∷ l) answers), kept)

-- ===== src/Providers/Failover.antt =====
-- `_should_failover` and `FallbackLLMProvider` of backend/service/llm_service.py, and
-- `FallbackEmbeddingProvider` of backend/service/embedding_service.py. The outcome of each provider's
-- call is an argument; the fallback's counts only where it is asked.
use engineering_memory_agent.Common.{
  Bool, true, false, ◌||◌, List, [], ◌∷◌, Option, none, some, if◌then◌else◌,
}
use engineering_memory_agent.Breaker.{
  ProviderError, status_code, http_status, timed_out, connection, circuit_open, other, is_retryable,
  Outcome, returned, raised, cancelled,
}

abbrev pub is_circuit_open : ProviderError → Bool
is_circuit_open (status_code n) = false
is_circuit_open (http_status n) = false
is_circuit_open timed_out = false
is_circuit_open connection = false
is_circuit_open circuit_open = true
is_circuit_open other = false

unfoldable pub should_failover : ProviderError → Bool
unfolding is_retryable
should_failover e = is_retryable e || is_circuit_open e

-- `chat`, `chat_raw`, `chat_sync` and `chat_json` all have this shape.
unfoldable pub chat {ℓ} : {A : Type ℓ} → Outcome A → Outcome A → Outcome A
unfolding should_failover
chat (returned a) fallback = returned a
chat (raised e) fallback = if should_failover e then fallback else raised e
chat cancelled fallback = cancelled

-- A stream: its events, and the exception that ends it if it fails.
pub record EventStream {ℓ} (A : Type ℓ) : Type ℓ where
  pub events : List A
  pub failure : Option ProviderError

-- `chat_raw_stream`: the fallback is asked only before the first event.
unfoldable pub chat_raw_stream {ℓ} : {A : Type ℓ} → EventStream A → EventStream A → EventStream A
unfolding should_failover
chat_raw_stream primary fallback = elim primary.events [
  | [] ↦ elim primary.failure [
    | none ↦ primary
    | some e ↦ if should_failover e then fallback else primary
  ]
  | _ ∷ _ ↦ primary
]

-- `embed` and `embed_sync`: any exception goes to the fallback.
unfoldable pub embed {ℓ} : {A : Type ℓ} → Outcome A → Outcome A → Outcome A
embed (returned a) fallback = returned a
embed (raised e) fallback = fallback
embed cancelled fallback = cancelled

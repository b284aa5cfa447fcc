-- ===== src/Breaker.antt =====
-- backend/shared/resilience.py: the circuit breaker, its registry, the classification of provider
-- errors, and the wrapper that runs one call under breaker and retry. Times of the monotonic clock
-- are numbers of ticks since the process started; 0 stands for "closed", as 0.0 does in the source.

pub mod Trip
pub mod Names
pub mod Outage
mod Tests
use engineering_memory_agent.Common.{
  ℕ, suc, zero, ◌+◌, ◌-◌, Bool, true, false, not, ◌||◌, Option, none, some, List, [], ◌∷◌, leb, ltb,
  ◌==◌, String, str_eq, if◌then◌else◌,
}

-- What `config.resilience` and `config.metrics_enabled` say.
pub record Settings : Type 0 where
  pub failure_threshold : ℕ
  pub cooldown_seconds : ℕ
  pub metrics_enabled : Bool

-- A breaker with its three Prometheus series: the state gauge and two counters.
pub record CircuitBreaker : Type 0 where
  pub failures : ℕ
  pub open_until : ℕ
  pub gauge : Bool
  pub opens : ℕ
  pub rejections : ℕ

unfoldable pub new : CircuitBreaker
new = record { failures = 0; open_until = 0; gauge = false; opens = 0; rejections = 0 }

set_state : Settings → Bool → CircuitBreaker → CircuitBreaker
set_state cfg tripped b = if cfg.metrics_enabled then record b { gauge = tripped } else b

inc_opens : Settings → CircuitBreaker → CircuitBreaker
inc_opens cfg b = if cfg.metrics_enabled then record b { opens = b.opens + 1 } else b

inc_rejections : Settings → CircuitBreaker → CircuitBreaker
inc_rejections cfg b = if cfg.metrics_enabled then record b { rejections = b.rejections + 1 } else b

unfoldable pub is_open : ℕ → CircuitBreaker → Bool
is_open now b = ltb now b.open_until

-- `false` is `CircuitOpenError`.
unfoldable pub before_call : Settings → ℕ → CircuitBreaker → Bool × CircuitBreaker
unfolding set_state inc_rejections
before_call cfg now b =
    if ltb now b.open_until
    then (false, inc_rejections cfg b)
    else if b.open_until == 0
    then (true, b)
    else (true, set_state cfg false (record b { open_until = 0; failures = 0 }))

unfoldable pub record_success : Settings → CircuitBreaker → CircuitBreaker
unfolding set_state
record_success cfg b =
    if b.open_until == 0 then set_state cfg false (record b { failures = 0 }) else b

unfoldable pub record_failure : Settings → ℕ → CircuitBreaker → CircuitBreaker
unfolding set_state inc_opens
record_failure cfg now b =
    if leb cfg.failure_threshold (b.failures + 1)
    then set_state cfg true
        (inc_opens cfg (record b { open_until = now + cfg.cooldown_seconds; failures = 0 }))
    else record b { failures = b.failures + 1 }

-- An exception as `is_retryable` sees it: an SDK error with an integer `status_code`, an httpx
-- error with the status on its response, a member of the listed classes of timeouts and connection
-- errors, the breaker's own error, or any other.
pub data ProviderError : Type 0 where
  status_code : ℕ → ProviderError
  http_status : ℕ → ProviderError
  timed_out connection circuit_open other : ProviderError

unfoldable pub is_retryable : ProviderError → Bool
is_retryable (status_code n) = n == 429 || leb 500 n
is_retryable (http_status n) = n == 429 || leb 500 n
is_retryable timed_out = true
is_retryable connection = true
is_retryable circuit_open = false
is_retryable other = false

-- How an operation ends. `cancelled` is asyncio's CancelledError, which `except Exception` does not see,
-- so that neither a success nor a failure is recorded.
pub data Outcome {ℓ} (A : Type ℓ) : Type ℓ where
  returned : A → Outcome A
  raised : ProviderError → Outcome A
  cancelled : Outcome A

-- One call by name: `retried` is what the retrier makes of the operation (tenacity is not part of
-- the program), `later` the clock when it is done, and `others` what the calls that overlap with it
-- have done to the shared breaker meanwhile.
finish {ℓ} : {A : Type ℓ} → Settings → ℕ → Outcome A → CircuitBreaker → CircuitBreaker
finish cfg later (returned a) b = record_success cfg b
finish cfg later (raised e) b = if is_retryable e then record_failure cfg later b else b
finish cfg later cancelled b = b

unfoldable pub call_with_resilience {ℓ} :
    {A : Type ℓ}
    → Settings
    → ℕ
    → ℕ
    → (CircuitBreaker → CircuitBreaker)
    → Outcome A
    → CircuitBreaker
    → Outcome A × CircuitBreaker
unfolding finish before_call record_success record_failure is_retryable
call_with_resilience cfg now later others retried b =
    let (admitted, b') = before_call cfg now b in
    if admitted then (retried, finish cfg later retried (others b')) else (raised circuit_open, b')

-- The sync variant runs the same steps.
unfoldable pub call_with_resilience_sync {ℓ} :
    {A : Type ℓ}
    → Settings
    → ℕ
    → ℕ
    → (CircuitBreaker → CircuitBreaker)
    → Outcome A
    → CircuitBreaker
    → Outcome A × CircuitBreaker
unfolding finish before_call
call_with_resilience_sync cfg now later others retried b =
    let (admitted, b') = before_call cfg now b in
    if admitted then (retried, finish cfg later retried (others b')) else (raised circuit_open, b')

-- The breaker alone, round the body of a `with`.
unfoldable pub circuit_breaker_guard {ℓ} :
    {A : Type ℓ}
    → Settings
    → ℕ
    → ℕ
    → (CircuitBreaker → CircuitBreaker)
    → Outcome A
    → CircuitBreaker
    → Outcome A × CircuitBreaker
unfolding finish before_call
circuit_breaker_guard cfg now later others body b =
    let (admitted, b') = before_call cfg now b in
    if admitted then (body, finish cfg later body (others b')) else (raised circuit_open, b')

-- A stream: the connection under retry, then its body. Only the body may record a success.
unfoldable pub resilient_stream_guard {ℓ κ} :
    {S : Type κ} {A : Type ℓ}
    → Settings
    → ℕ
    → ℕ
    → (CircuitBreaker → CircuitBreaker)
    → Outcome S
    → (S → Outcome A)
    → CircuitBreaker
    → Outcome A × CircuitBreaker
unfolding finish before_call
resilient_stream_guard cfg now later others (returned stream) body b =
    let (admitted, b') = before_call cfg now b in
    if admitted
    then (body stream, finish cfg later (body stream) (others b'))
    else (raised circuit_open, b')
resilient_stream_guard cfg now later others (raised e) body b =
    let (admitted, b') = before_call cfg now b in
    if admitted
    then (raised e, if is_retryable e then record_failure cfg later (others b') else others b')
    else (raised circuit_open, b')
resilient_stream_guard cfg now later others cancelled body b =
    let (admitted, b') = before_call cfg now b in
    if admitted then (cancelled, others b') else (raised circuit_open, b')

-- `_circuit_breakers` and `get_circuit_breaker`: a breaker is made at the first use of its name.
abbrev pub Registry : Type 0
Registry = List (String × CircuitBreaker)

pub get_circuit_breaker : String → Registry → CircuitBreaker × Registry
get_circuit_breaker name [] = (new, (name, new) ∷ [])
get_circuit_breaker name ((n, b) ∷ rest) =
    let (found, rest') = get_circuit_breaker name rest in
    if str_eq n name then (b, (n, b) ∷ rest) else (found, (n, b) ∷ rest')

-- The breaker of a name with its new state put back.
pub put : String → CircuitBreaker → Registry → Registry
put name b [] = []
put name b ((n, c) ∷ rest) = if str_eq n name then (n, b) ∷ rest else (n, c) ∷ put name b rest

-- ===== src/RateLimit/Middleware.antt =====
-- The middleware of backend/api/ratelimit.py: which requests are limited, under which tier and key.
use engineering_memory_agent.Common.{
  ℕ, String, Bool, true, false, not, ◌&&◌, ◌||◌, ◌≡◌, ◌≢◌, inl, inr, some, List, [], ◌∷◌, str_eq,
  if◌then◌else◌, Bool-cases,
}
use engineering_memory_agent.Common.Dict.{get}
use engineering_memory_agent.Common.Text.{strip}
use engineering_memory_agent.RateLimit.Bucket.{Bucket}
use engineering_memory_agent.RateLimit.Table.{
  Tier, chat, general, Key, key_eq, Table, is_idle, allow,
}
use engineering_memory_agent.RateLimit.Frame.{allow_frame}

-- What the configuration says: the quotas and windows of the two tiers, whether limiting is enabled,
-- and whether `APP_ENV` is "test".
pub record Limits : Type 0 where
  pub chat_requests : ℕ
  pub chat_window_seconds : ℕ
  pub general_requests : ℕ
  pub general_window_seconds : ℕ
  pub enabled : Bool
  pub in_test : Bool

-- An ASGI scope: whether its type is "http", its path, and its headers as latin-1 texts.
pub record Scope : Type 0 where
  pub http : Bool
  pub path : String
  pub headers : List (String × String)

-- The application is called, or the caller gets a 429 with the seconds to wait.
pub data Reply : Type 0 where
  passed : Reply
  too_many : ℕ → Reply

unfoldable pub starts_with : String → String → Bool
starts_with s String.[] = true
starts_with String.[] (String.◌∷◌ d p) = false
starts_with (String.◌∷◌ c s) (String.◌∷◌ d p) =
    str_eq (String.◌∷◌ c String.[]) (String.◌∷◌ d String.[]) && starts_with s p

unfoldable pub tier_for_path : String → Tier
unfolding starts_with
tier_for_path path =
    if starts_with path "/api/agent/chat" || starts_with path "/api/scenarios"
    then chat
    else general

-- `partition(" ")`, without the separator.
unfoldable pub partition_space : String → String × String
partition_space String.[] = (String.[], String.[])
partition_space (String.◌∷◌ c s) =
    let (scheme, token) = partition_space s in
    if str_eq (String.◌∷◌ c String.[]) " " then (String.[], s) else (String.◌∷◌ c scheme, token)

-- The key that a value of the header gives. `lower` is Python's.
unfoldable pub bearer : (String → String) → String → String
unfolding partition_space
bearer lower value =
    let (scheme, token) = partition_space value in
    if str_eq (lower scheme) "bearer" && not (str_eq (strip token) "")
    then strip token
    else "anonymous"

unfoldable pub extract_key : (String → String) → List (String × String) → String
unfolding bearer
extract_key lower [] = "anonymous"
extract_key lower ((name, value) ∷ headers) =
    if str_eq (lower name) "authorization" then bearer lower value else extract_key lower headers

unfoldable pub read_limit_config : Limits → Tier → ℕ × ℕ
read_limit_config c chat = (c.chat_requests, c.chat_window_seconds)
read_limit_config c general = (c.general_requests, c.general_window_seconds)

-- The early returns of `__call__`.
unfoldable pub is_exempt : Limits → Scope → Bool
unfolding starts_with
is_exempt c s = not s.http || not (starts_with s.path "/api/") || c.in_test || not c.enabled

abbrev pub key_of : (String → String) → Scope → Key
key_of lower s = (tier_for_path s.path, extract_key lower s.headers)

abbrev pub reply : Bool × ℕ → Reply
reply (true, wait) = passed
reply (false, wait) = too_many wait

-- `RateLimitMiddleware.__call__`
unfoldable pub handle : ℕ → (String → String) → Limits → ℕ → Scope → Table → Reply × Table
unfolding is_exempt read_limit_config tier_for_path extract_key
handle second lower c now s t =
    if is_exempt c s
    then (passed, t)
    else let (requests, window) = read_limit_config c (tier_for_path s.path) in
      let (answer, t') = allow second (key_of lower s) requests window now t in (reply answer, t')

-- Requests that arrive at the middleware, each with the clock.
pub handle_all : ℕ → (String → String) → Limits → List (ℕ × Scope) → Table → Table
handle_all second lower c [] t = t
handle_all second lower c ((now, s) ∷ rest) t =
    handle_all second lower c rest (handle second lower c now s t).1

-- None of the requests has the key, and the bucket is in use at each of them.
abbrev pub Foreign : ℕ → (String → String) → Key → Bucket → List (ℕ × Scope) → Type 0
Foreign second lower k b [] = Unit
Foreign second lower k b ((now, s) ∷ rest) =
    (key_of lower s ≢ k) × (is_idle second now b ≡ false) × Foreign second lower k b rest

handle_frame :
    (second : ℕ) (lower : String → String) (c : Limits) (now : ℕ) (s : Scope) (k : Key) (b : Bucket)
    (t : Table)
    → key_of lower s ≢ k
    → is_idle second now b ≡ false
    → get k t ≡ some b
    → get k (handle second lower c now s t).1 ≡ some b
unfolding handle
handle_frame second lower c now s k b t ne busy h = elim (Bool-cases (is_exempt c s)) [
  | inl e ↦ rw e h
  | inr e ↦
      let (requests, window) = read_limit_config c (tier_for_path s.path) in
      rw e (allow_frame second requests window now (key_of lower s) k b t ne h busy)
]

-- Any run of requests none of which falls under a given tier and key, by its path and its bearer
-- token, leaves the bucket of that tier and key as it was, provided that the bucket is not idle past
-- the timeout at any of them.
pub callers_independent :
    (second : ℕ) (lower : String → String) (c : Limits) (run : List (ℕ × Scope)) (k : Key)
    (b : Bucket) (t : Table)
    → Foreign second lower k b run
    → get k t ≡ some b
    → get k (handle_all second lower c run t) ≡ some b
unfolding handle_all
callers_independent second lower c [] k b t f h = h
callers_independent second lower c ((now, s) ∷ rest) k b t f h =
    callers_independent second lower c rest k b (handle second lower c now s t).1 f.2
      (handle_frame second lower c now s k b t f.0 f.1 h)

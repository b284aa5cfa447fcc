-- ===== src/RateLimit/Tests.antt =====
-- Runs of backend/api/ratelimit.py on concrete requests, with a clock of ten ticks to a second.
use engineering_memory_agent.Common.{
  ◌≡◌, ◌≢◌, refl, ap, str_ne, true, false, some, [], ◌∷◌, ◌++◌, replicate, arith,
}
use engineering_memory_agent.Common.Dict.{get}
use engineering_memory_agent.Common.Text.{strip, lstrip, rstrip, is_space}
use engineering_memory_agent.RateLimit.Bucket.{Bucket, fresh}
use engineering_memory_agent.RateLimit.Table.{chat, general, Key, key_eq, Table, is_idle}
use engineering_memory_agent.RateLimit.Quota.{Arrivals, granted, burst_exact}
use engineering_memory_agent.RateLimit.Middleware.{
  Limits, Scope, starts_with, tier_for_path, partition_space, bearer, extract_key, handle_all,
  callers_independent,
}

-- Two requests per three seconds, with one token left.
abbrev bucket : Bucket
bucket = record {
  tokens = 30;
  rate = 2;
  scale = 30;
  unlimited = false;
  last_refill = 100;
  last_access = 100;
}

abbrev empty : Bucket
empty = record bucket { tokens = 0 }

abbrev arrivals : Arrivals
arrivals = (2, 0) ∷ (2, 3) ∷ (2, 12) ∷ []

abbrev alice : Key
alice = (chat, "alice")

abbrev bob : Key
bob = (general, "bob")

abbrev table : Table
table = (alice, bucket) ∷ []

-- A quota of three per three seconds, and five requests at the instant of the one that made the bucket.
burst_exact_example : granted 10 (replicate 2 (3, 0) ++ replicate 3 (3, 0)) (fresh 10 3 3 100) ≡ 2
burst_exact_example = burst_exact 10 3 100 2 3 (omega arith) (omega arith)

apart : bob ≢ alice
apart e = cc e

abbrev limits : Limits
limits = record {
  chat_requests = 2;
  chat_window_seconds = 3;
  general_requests = 9;
  general_window_seconds = 60;
  enabled = true;
  in_test = false;
}

abbrev by_bob : Scope
by_bob = record {
  http = true;
  path = "/api/agent/chat/stream";
  headers = ("authorization", "bearer bob") ∷ [];
}

abbrev by_nobody : Scope
by_nobody = record { http = true; path = "/api/memories"; headers = [] }

not_alice : ◌≢◌ {A = Key} (chat, "bob") alice
not_alice e = str_ne "bob" "alice" refl (ap (λ (k : Key). k.1) e)

nobody : ◌≢◌ {A = Key} (general, "anonymous") alice
nobody e = str_ne "anonymous" "alice" refl (ap (λ (k : Key). k.1) e)

callers_independent_example :
    get alice (handle_all 10 (λ s. s) limits ((200, by_bob) ∷ (300, by_nobody) ∷ []) table)
    ≡ some bucket
unfolding get is_idle tier_for_path starts_with extract_key bearer partition_space strip lstrip
    rstrip is_space
callers_independent_example =
    callers_independent 10 (λ s. s) limits ((200, by_bob) ∷ (300, by_nobody) ∷ []) alice bucket
      table (not_alice, refl, (nobody, refl, tt)) refl

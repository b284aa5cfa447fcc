-- ===== src/RateLimit/Bucket.antt =====
-- One bucket: `_Bucket` and the part of `RateLimiter.allow` that refills it and takes a token. Under a
-- quota of 0 the source's count falls to -1, where this one stays at 0: the rate is 0 as well, so no
-- answer differs.
use engineering_memory_agent.Common.{
  ℕ, ◌+◌, ◌-◌, ◌*◌, ◌/◌, min, max, Bool, true, false, ◌||◌, leb, ◌==◌, if◌then◌else◌,
}

pub record Bucket : Type 0 where
  pub tokens : ℕ  -- in units of 1 / scale
  pub rate : ℕ  -- units per tick
  pub scale : ℕ  -- units in one token
  pub unlimited : Bool  -- made under a window of 0: an infinite rate
  pub last_refill : ℕ
  pub last_access : ℕ

-- Ticks in a window; under an infinite rate tokens are whole.
abbrev pub units : ℕ → ℕ → ℕ
units second window = if window == 0 then 1 else window * second

unfoldable pub new : ℕ → ℕ → ℕ → ℕ → Bucket
new second requests window now = record {
  tokens = requests * units second window;
  rate = requests;
  scale = units second window;
  unlimited = window == 0;
  last_refill = now;
  last_access = now;
}

-- `requests` is the quota at this call, which may differ from the one the bucket was made under. The
-- source rounds the tokens to a float after each step, which is not modelled: a bucket that holds a
-- whole token here may there lack the last digit of it.
unfoldable pub refill : ℕ → ℕ → Bucket → Bucket
refill requests now b = record b {
  last_access = now;
  tokens =
      if b.unlimited
      then requests * b.scale
      else min (requests * b.scale) (b.tokens + (now - b.last_refill) * b.rate);
  last_refill = now;
}

abbrev pub ceil_div : ℕ → ℕ → ℕ
ceil_div a b = (a + (b - 1)) / b

-- `max(1, ceil(wait))`, in seconds; an infinite rate gives 0 and a rate of 0 gives 1.
unfoldable pub retry_after : ℕ → Bucket → ℕ
retry_after second b =
    if b.unlimited || b.rate == 0
    then 1
    else max 1 (ceil_div (b.scale - b.tokens) (b.rate * second))

unfoldable pub take_token : ℕ → Bucket → (Bool × ℕ) × Bucket
unfolding retry_after
take_token second b =
    if leb b.scale b.tokens
    then ((true, 0), record b { tokens = b.tokens - b.scale })
    else ((false, retry_after second b), b)

-- A request that finds its bucket in the table.
unfoldable pub hit : ℕ → ℕ → ℕ → Bucket → (Bool × ℕ) × Bucket
unfolding refill take_token
hit second requests now b = take_token second (refill requests now b)

-- A fresh bucket is full, and the request that made it takes a token.
unfoldable pub fresh : ℕ → ℕ → ℕ → ℕ → Bucket
unfolding new
fresh second requests window now =
    let b = new second requests window now in record b { tokens = b.tokens - b.scale }

-- ===== src/RateLimit.antt =====
-- backend/api/ratelimit.py: the token buckets behind the /api routes.
-- The monotonic clock counts ticks, `second` of them to a second. A bucket made under a quota of
-- `requests` per `window_seconds` refills by `requests` in `window_seconds * second` ticks, so its
-- tokens are counted in units of 1 / (window_seconds * second): the arithmetic is exact where the
-- source uses floats. A window of 0 is the source's infinite rate. Quotas are at least 1, which
-- backend/shared/config.py checks at start-up.
pub mod Bucket
pub mod Table
pub mod Quota
pub mod Frame
pub mod Middleware
mod Tests

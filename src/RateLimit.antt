-- ===== src/RateLimit.antt =====
-- services/api/app/core/rate_limit.py: the token bucket, the daily quota and the limiter.
pub mod Bucket
pub mod Quota
pub mod Limiter
pub mod Alerts
pub mod Endpoints
mod Tests
mod AlertTests
mod EndpointTests

-- ===== src/RateLimit/Quota/Exact.antt =====
-- The requests that `FIXED_QUOTA_LUA` lets through.
use golf_rank.Base.{ℕ, ◌+◌, ◌-◌, ◌<◌, ◌≡◌, min, none, some, List, [], ◌∷◌, arith, length, All}
use golf_rank.RateLimit.Quota.{Counter, fixed_quota, count_within}

-- While the key lives, what is left of the limit is let through and nothing more.
count_live :
    (limit ttl : ℕ) (c : Counter) (times : List ℕ)
    → All (λ t. t < c.expires_at) times
    → count_within limit ttl (some c) times ≡ min (length times) (limit - c.count)
unfolding count_within fixed_quota
count_live limit ttl c [] h = omega arith
count_live limit ttl c (t ∷ times) h = ground (
  arith,
  count_live limit ttl (record { count = c.count + 1; expires_at = c.expires_at }) times h.1,
)

-- Of the requests from the first one of a counter on, which all come before it expires, exactly the
-- first `limit` are let through.
pub quota_exact :
    (limit ttl t : ℕ) (times : List ℕ)
    → All (λ x. x < t + ttl) times
    → count_within limit ttl none (t ∷ times) ≡ min (length (t ∷ times)) limit
unfolding count_within fixed_quota
quota_exact limit ttl t times h =
    ground (arith, count_live limit ttl (record { count = 1; expires_at = t + ttl }) times h)

-- ===== src/RateLimit/Quota.antt =====
-- `FIXED_QUOTA_LUA`: a counter for one identity and one UTC day.
pub mod Exact
use golf_rank.Base.{ℕ, ◌+◌, ◌-◌, ◌≤◌, Bool, Option, none, some, List, [], ◌∷◌, leb, if◌then◌else◌}

pub record Counter : Type 0 where
  pub count : ℕ
  pub expires_at : ℕ

pub record QuotaReply : Type 0 where
  pub allowed : Bool
  pub used : ℕ
  pub left_ms : ℕ

-- The value and the expiry that INCR finds; PEXPIRE is called for a new key only.
abbrev pub incremented : ℕ → ℕ → Option Counter → Counter
incremented ttl now none = record { count = 1; expires_at = now + ttl }
incremented ttl now (some c) =
    if leb c.expires_at now
    then record { count = 1; expires_at = now + ttl }
    else record { count = c.count + 1; expires_at = c.expires_at }

unfoldable pub fixed_quota : ℕ → ℕ → ℕ → Option Counter → Counter × QuotaReply
fixed_quota limit ttl now stored =
    let c = incremented ttl now stored in
    (c, record { allowed = leb c.count limit; used = c.count; left_ms = c.expires_at - now })

-- The requests that are let through, of those that come at the given times.
unfoldable pub count_within : ℕ → ℕ → Option Counter → List ℕ → ℕ
count_within limit ttl stored [] = 0
count_within limit ttl stored (t ∷ times) =
    let (c, r) = fixed_quota limit ttl t stored in
    (if r.allowed then 1 else 0) + count_within limit ttl (some c) times

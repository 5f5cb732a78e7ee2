-- ===== src/RateLimit/Bucket.antt =====
-- `TOKEN_BUCKET_LUA`. A token is counted as `unit` units, and a millisecond refills `refill` units,
-- so that the script's fractions of tokens are whole numbers. The script computes in binary doubles,
-- which these numbers do not round: where the tokens come within a rounding error of the cost, as at
-- the very millisecond that `retry_ms` names, the script may decide otherwise, and the times of a
-- reply may differ by a millisecond.
pub mod Bounds
use golf_rank.Base.{
  ℕ, ◌+◌, ◌-◌, ◌*◌, ◌/◌, min, max, String, Bool, true, false, Option, none, some, leb,
  if◌then◌else◌,
}

pub record Policy : Type 0 where
  pub name : String
  pub capacity : ℕ
  pub refill : ℕ
  pub unit : ℕ
  pub cost : ℕ
  pub fail_closed : Bool

-- The hash at a key, with the time at which Redis drops it.
pub record Bucket : Type 0 where
  pub tokens : ℕ
  pub updated_at : ℕ
  pub expires_at : ℕ

pub record Reply : Type 0 where
  pub allowed : Bool
  pub remaining : ℕ
  pub retry_ms : ℕ
  pub reset_ms : ℕ

-- `math.ceil(a / b)`
abbrev pub ceil_div : ℕ → ℕ → ℕ
ceil_div a b = (a + (b - 1)) / b

abbrev pub full : Policy → ℕ
full p = p.capacity * p.unit

abbrev pub price : Policy → ℕ
price p = p.cost * p.unit

-- `ttl_ms` of `RateLimiter.token_bucket`: twice the time that fills an empty bucket.
abbrev pub ttl_ms : Policy → ℕ
ttl_ms p = max 60000 (ceil_div (full p * 2) p.refill)

-- What `HMGET` finds: an expired key is gone.
abbrev pub live : ℕ → Option Bucket → Option Bucket
live now none = none
live now (some b) = if leb b.expires_at now then none else some b

-- `math.min(capacity, tokens + math.max(0, now_ms - updated_at) * refill_per_ms)`
abbrev pub available : Policy → ℕ → Option Bucket → ℕ
available p now none = full p
available p now (some b) = min (full p) (b.tokens + (now - b.updated_at) * p.refill)

-- The tokens that the call leaves.
abbrev pub spend : Policy → ℕ → ℕ
spend p tokens = if leb (price p) tokens then tokens - price p else tokens

abbrev pub reply : Policy → ℕ → Reply
reply p tokens = record {
  allowed = leb (price p) tokens;
  remaining = spend p tokens / p.unit;
  retry_ms = if leb (price p) tokens then 0 else ceil_div (price p - spend p tokens) p.refill;
  reset_ms = ceil_div (full p - spend p tokens) p.refill;
}

unfoldable pub token_bucket : Policy → ℕ → Option Bucket → Bucket × Reply
token_bucket p now stored =
    let tokens = available p now (live now stored) in
    (
      record { tokens = spend p tokens; updated_at = now; expires_at = now + ttl_ms p },
      reply p tokens,
    )

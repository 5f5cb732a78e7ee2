-- ===== src/RateLimit/Bucket/Bounds.antt =====
-- The requests that `TOKEN_BUCKET_LUA` lets through, and the expiry of its key.
use golf_rank.Base.{
  ℕ, ◌+◌, ◌-◌, ◌*◌, ◌≤◌, ◌<◌, ◌≡◌, inl, inr, Option, none, some, arith, leb, if◌then◌else◌, List,
  [], ◌∷◌, Bool-cases, leb→le,
}
use golf_rank.RateLimit.Bucket.{
  Policy, Bucket, ceil_div, full, price, ttl_ms, live, available, spend, token_bucket,
}
use native.Mathlib.Nat.{div-add-mod, mod-lt, le_trans}

ceil_div-ge : (a b : ℕ) → 0 < b → a ≤ ceil_div a b * b
ceil_div-ge a b h = omega (arith, div-add-mod (a + (b - 1)) b, mod-lt (a + (b - 1)) h)

-- A stored bucket that some earlier call left: not over the capacity, and kept for the full time.
pub record IsStored (p : Policy) (now : ℕ) (b : Bucket) : Type 0 where
  pub capped : b.tokens ≤ full p
  pub past : b.updated_at ≤ now
  pub kept : b.updated_at + ttl_ms p ≤ b.expires_at

pub available-le-full :
    (p : Policy) (now : ℕ) (stored : Option Bucket) → available p now stored ≤ full p
available-le-full p now none = omega arith
available-le-full p now (some b) = omega arith

spend-le : (p : Policy) (tokens : ℕ) → spend p tokens ≤ tokens
spend-le p tokens = ground arith

-- Whatever was stored, a call leaves a bucket within its capacity, stamped with the time of the
-- call and kept for `ttl_ms` from then.
pub token_bucket-IsStored :
    (p : Policy) (now : ℕ) (stored : Option Bucket) → IsStored p now (token_bucket p now stored).0
unfolding token_bucket
token_bucket-IsStored p now stored = record {
  capped = le_trans (spend-le p _) (available-le-full p now (live now stored));
  past = omega arith;
  kept = omega arith;
}

mul_mono : (a b c : ℕ) → a ≤ b → a * c ≤ b * c
mul_mono a b c h = grind arith

pub ttl_refills : (p : Policy) → 0 < p.refill → full p ≤ ttl_ms p * p.refill
ttl_refills p h = omega (
  arith,
  ceil_div-ge (full p * 2) p.refill h,
  mul_mono (ceil_div (full p * 2) p.refill) (ttl_ms p) p.refill (omega arith),
)

-- If a policy refills, the expiry of a key that was kept for `ttl_ms` cannot be noticed: the tokens
-- available to a call are the same as if Redis had kept the bucket.
pub expiry_unnoticed :
    (p : Policy) (now : ℕ) (b : Bucket)
    → 0 < p.refill
    → b.updated_at + ttl_ms p ≤ b.expires_at
    → available p now (live now (some b)) ≡ available p now (some b)
expiry_unnoticed p now b h k = elim (Bool-cases (leb b.expires_at now)) [
  | inl e ↦ rw e (
      omega (
        arith,
        ttl_refills p h,
        mul_mono (ttl_ms p) (now - b.updated_at) p.refill (omega (arith, leb→le _ _ e)),
      ))
  | inr e ↦ rw e
]

-- The requests that a bucket lets through, of those that come at the given times.
unfoldable pub count_allowed : Policy → Bucket → List ℕ → ℕ
count_allowed p b [] = 0
count_allowed p b (t ∷ times) =
    let (b', r) = token_bucket p t (some b) in
    (if r.allowed then 1 else 0) + count_allowed p b' times

abbrev pub Rising : ℕ → List ℕ → Type 0
Rising from [] = Unit {0}
Rising from (t ∷ times) = (from ≤ t) × Rising t times

abbrev pub last_time : ℕ → List ℕ → ℕ
last_time from [] = from
last_time from (t ∷ times) = last_time t times

last_time-ge : (from : ℕ) (times : List ℕ) → Rising from times → from ≤ last_time from times
last_time-ge from [] h = omega arith
last_time-ge from (t ∷ times) h = omega (arith, last_time-ge t times h.1)

spend_exact :
    (p : Policy) (tokens : ℕ)
    → spend p tokens + (if leb (price p) tokens then 1 else 0) * price p ≡ tokens
spend_exact p tokens = elim (Bool-cases (leb (price p) tokens)) [
  | inl e ↦ rw e (omega (arith, leb→le _ _ e))
  | inr e ↦ rw e (omega arith)
]

elapsed_split : (a b c r : ℕ) → a ≤ b → b ≤ c → (b - a) * r + (c - b) * r ≡ (c - a) * r
elapsed_split a b c r h k =
    let e : (b - a) + (c - b) ≡ c - a = omega arith in rw (← e) (omega arith)

-- The first request of a key, which finds no bucket.
abbrev pub charged_first : Policy → ℕ → ℕ
charged_first p t = if (token_bucket p t none).1.allowed then 1 else 0

abbrev charged : Policy → ℕ → Bucket → ℕ
charged p t b = if (token_bucket p t (some b)).1.allowed then 1 else 0

step_bound :
    (p : Policy) (t : ℕ) (b : Bucket)
    → 0 < p.refill
    → b.updated_at + ttl_ms p ≤ b.expires_at
    → charged p t b * price p + (token_bucket p t (some b)).0.tokens
      ≤ b.tokens + (t - b.updated_at) * p.refill
unfolding token_bucket
step_bound p t b h k =
    omega (arith, spend_exact p (available p t (live t (some b))), expiry_unnoticed p t b h k)

count_bound :
    (p : Policy) (b : Bucket) (times : List ℕ)
    → 0 < p.refill
    → b.updated_at + ttl_ms p ≤ b.expires_at
    → Rising b.updated_at times
    → count_allowed p b times * price p
      ≤ b.tokens + (last_time b.updated_at times - b.updated_at) * p.refill
unfolding count_allowed token_bucket
count_bound p b [] h k r = omega arith
count_bound p b (t ∷ times) h k r = omega (
  arith,
  step_bound p t b h k,
  count_bound p (token_bucket p t (some b)).0 times h (omega arith) r.1,
  elapsed_split b.updated_at t (last_time t times) p.refill r.0 (last_time-ge t times r.1),
)

-- If a policy refills, then over any sequence of requests at rising times, from the first one of a
-- key on, the price of what is let through is at most a full bucket and what the elapsed time
-- refills.
pub burst_bound :
    (p : Policy) (t : ℕ) (times : List ℕ)
    → 0 < p.refill
    → Rising t times
    → (charged_first p t + count_allowed p (token_bucket p t none).0 times) * price p
      ≤ full p + (last_time t times - t) * p.refill
unfolding token_bucket
burst_bound p t times h r =
    omega (
      arith,
      spend_exact p (full p),
      count_bound p (token_bucket p t none).0 times h (omega arith) r,
    )

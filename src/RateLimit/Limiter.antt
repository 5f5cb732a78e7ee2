-- ===== src/RateLimit/Limiter.antt =====
-- `RateLimiter` of core/rate_limit.py, `apply_rate_limit` and the guards of the endpoints. Redis is
-- the state: what it holds at each key. Whether a call reaches it, and its clock, are arguments.
pub mod Keys
pub mod Guards
use text.Mathlib.Text.{◌==◌ as str_eq}
use golf_rank.Base.{
  ℕ, ◌+◌, ◌-◌, ◌*◌, ◌/◌, min, max, String, Bool, true, false, not, ◌&&◌, Option, none, some, List,
  [], ◌∷◌, ◌++◌, leb, ltb, if◌then◌else◌, HttpException, Result, ok, err, raise,
}
use golf_rank.Base.Exec.{Exec, pure, lift, ◌>>=◌, ◌>>◌}
use golf_rank.RateLimit.Bucket.{Policy, Bucket, Reply, ceil_div, token_bucket}
use golf_rank.RateLimit.Quota.{Counter, QuotaReply, fixed_quota}

-- The parts that `_key` joins; the last one is the keyed digest of the identity.
abbrev pub Key : Type 0
Key = List String

abbrev pub same_key : Key → Key → Bool
same_key [] [] = true
same_key (x ∷ xs) (y ∷ ys) = str_eq x y && same_key xs ys
same_key _ _ = false

pub data Alert : Type 0 where
  backend_failure : String → Bool → Alert
  denial : String → String → String → Alert

pub record LimiterState : Type 0 where
  pub buckets : Key → Option Bucket
  pub counters : Key → Option Counter
  pub alerts : List Alert
  -- the headers of the response
  pub headers : List (String × ℕ)

pub record Decision : Type 0 where
  pub allowed : Bool
  pub limit : ℕ
  pub remaining : ℕ
  pub retry_after_ms : ℕ
  pub reset_after_ms : ℕ

-- One call of Redis: its clock, the day, and whether the call arrives.
pub record Call : Type 0 where
  pub now_ms : ℕ
  pub day : String
  pub day_left_ms : ℕ
  pub reachable : Bool

pub record Identity : Type 0 where
  pub kind : String
  pub name : String

-- The setting that turns the limiter on; the HMAC of an identity under the configured salt, which
-- is the hash library's, and the first digits of a digest.
pub record Config : Type 0 where
  pub rate_limit_enabled : Bool
  pub digest : String → String
  pub abuse_id : String → String

abbrev pub bucket_decision : Policy → Reply → Decision
bucket_decision p r = record {
  allowed = r.allowed;
  limit = p.capacity;
  remaining = r.remaining;
  retry_after_ms = r.retry_ms;
  reset_after_ms = r.reset_ms;
}

abbrev pub quota_decision : ℕ → QuotaReply → Decision
quota_decision limit r = record {
  allowed = r.allowed;
  limit = limit;
  remaining = limit - r.used;
  retry_after_ms = if ltb limit r.used then r.left_ms else 0;
  reset_after_ms = r.left_ms;
}

-- `rate_limit_headers`; `time_ms` is the server's clock.
abbrev pub rate_limit_headers : ℕ → Decision → List (String × ℕ)
rate_limit_headers time_ms d =
    ("X-RateLimit-Limit", d.limit)
    ∷ ("X-RateLimit-Remaining", d.remaining)
    ∷ ("X-RateLimit-Reset", ceil_div (time_ms + d.reset_after_ms) 1000)
    ∷ []

abbrev pub retry_after : Decision → ℕ
retry_after d = max 1 (ceil_div d.retry_after_ms 1000)

-- `apply_rate_limit`: of the headers of a response these three alone are modelled.
unfoldable pub apply_rate_limit : ℕ → Option Decision → Exec LimiterState Unit
apply_rate_limit time_ms none s = (ok tt, s)
apply_rate_limit time_ms (some d) s =
    if d.allowed then (ok tt, record s { headers = rate_limit_headers time_ms d }) else (
      err (record {
        status = 429;
        detail = "Too many requests";
        headers = rate_limit_headers time_ms d ++ ("Retry-After", retry_after d) ∷ [];
      }),
      s,
    )

module _ (g : Config) where
  abbrev pub bucket_key : String → Identity → Key
  bucket_key policy i = "fairway" ∷ "bucket" ∷ policy ∷ i.kind ∷ g.digest i.name ∷ []

  abbrev pub quota_key : String → String → Identity → Key
  quota_key name day i = "fairway" ∷ "quota" ∷ name ∷ day ∷ i.kind ∷ g.digest i.name ∷ []

  -- `_failure`
  abbrev pub failure : String → Bool → Exec LimiterState (Option Decision)
  failure policy fail_closed s = (
    if fail_closed then raise 503 "Request capacity is temporarily unavailable" else ok none,
    record s { alerts = s.alerts ++ backend_failure policy fail_closed ∷ [] },
  )

  abbrev pub noted : String → Identity → Bool → List Alert → List Alert
  noted policy i allowed alerts =
      if allowed then alerts else alerts ++ denial policy i.kind (g.abuse_id (g.digest i.name)) ∷ []

  unfoldable pub bucket_call : Call → Policy → Identity → LimiterState → Bucket × Reply
  bucket_call c p i s = token_bucket p c.now_ms (s.buckets (bucket_key p.name i))

  abbrev pub after_bucket : Policy → Identity → Bucket × Reply → LimiterState → LimiterState
  after_bucket p i called s = record s {
    buckets = λ k. if same_key k (bucket_key p.name i) then some called.0 else s.buckets k;
    alerts = noted p.name i called.1.allowed s.alerts;
  }

  -- `RateLimiter.token_bucket`
  unfoldable pub limited_bucket : Call → Policy → Identity → Exec LimiterState (Option Decision)
  limited_bucket c p i s =
      if not g.rate_limit_enabled
      then (ok none, s)
      else if c.reachable
      then (
        ok (some (bucket_decision p (bucket_call c p i s).1)),
        after_bucket p i (bucket_call c p i s) s,
      )
      else failure p.name p.fail_closed s

  unfoldable pub quota_call : Call → String → ℕ → Identity → LimiterState → Counter × QuotaReply
  quota_call c name limit i s =
      fixed_quota limit (max 1000 c.day_left_ms) c.now_ms (s.counters (quota_key name c.day i))

  abbrev pub after_quota :
      Call → String → Identity → Counter × QuotaReply → LimiterState → LimiterState
  after_quota c name i called s = record s {
    counters = λ k. if same_key k (quota_key name c.day i) then some called.0 else s.counters k;
    alerts = noted name i called.1.allowed s.alerts;
  }

  -- `RateLimiter.daily_quota`
  unfoldable pub daily_quota :
      Call → String → ℕ → Identity → Bool → Exec LimiterState (Option Decision)
  daily_quota c name limit i fail_closed s =
      if not g.rate_limit_enabled
      then (ok none, s)
      else if c.reachable
      then (
        ok (some (quota_decision limit (quota_call c name limit i s).1)),
        after_quota c name i (quota_call c name limit i s) s,
      )
      else failure name fail_closed s

  -- One bucket and its decision: `public_rate_limit` and its kin.
  unfoldable pub bucket_guard : Call → ℕ → Policy → Identity → Exec LimiterState Unit
  unfolding limited_bucket apply_rate_limit ◌>>=◌
  bucket_guard c time_ms p i = do d ← limited_bucket c p i; apply_rate_limit time_ms d

  -- `candidate_rate_limit`, `green_fee_suggestion_rate_limit`, `_photo_rate_limit` and the tail of
  -- `ai_planner_rate_limit`: the user's bucket, the bucket of the address, and the daily quota.
  unfoldable pub quota_guard :
      Call → Call → Call → ℕ → Policy → ℕ → Identity → Identity → Exec LimiterState Unit
  unfolding bucket_guard daily_quota apply_rate_limit ◌>>=◌
  quota_guard c₁ c₂ c₃ time_ms p limit user ip = do
    bucket_guard c₁ time_ms p user
    bucket_guard c₂ time_ms p ip
    q ← daily_quota c₃ p.name limit user p.fail_closed
    apply_rate_limit time_ms q

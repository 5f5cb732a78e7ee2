-- ===== src/RateLimit/Tests.antt =====
-- The limiter at concrete calls: the properties of its parts, with the policy of the writes of a
-- user, whose capacity is two here.
use golf_rank.Base.{◌+◌, ◌*◌, ◌-◌, ◌≡◌, ◌≤◌, refl, true, false, none, some, [], ◌∷◌, arith, err, ok}
use golf_rank.Base.Exec.{◌>>=◌}
use golf_rank.RateLimit.Bucket.{Policy, Bucket, token_bucket}
use golf_rank.RateLimit.Bucket.Bounds.{count_allowed, charged_first, burst_bound}
use golf_rank.RateLimit.Quota.{count_within, fixed_quota}
use golf_rank.RateLimit.Quota.Exact.{quota_exact}
use golf_rank.RateLimit.Limiter.{
  Config, Call, Identity, LimiterState, bucket_key, quota_key, bucket_call, bucket_decision,
  bucket_guard, quota_guard, limited_bucket, apply_rate_limit, daily_quota, quota_call,
}
use golf_rank.RateLimit.Limiter.Guards.{
  too_many, IsCounted, quota_guard_refuses_first, quota_guard_counts,
}

-- A token every three seconds.
abbrev writes : Policy
writes = record {
  name = "authenticated-write";
  capacity = 2;
  refill = 1;
  unit = 3000;
  cost = 1;
  fail_closed = false;
}

abbrev planner : Policy
planner = record writes { name = "ai-planner"; fail_closed = true }

abbrev kept : Bucket
kept = record { tokens = 0; updated_at = 1000; expires_at = 61000 }

burst_bound_example :
    (charged_first writes 0
        + count_allowed writes (token_bucket writes 0 none).0 (1 ∷ 2 ∷ 3100 ∷ []))
      * 3000
    ≤ 6000 + (3100 - 0) * 1
burst_bound_example = burst_bound writes 0 (1 ∷ 2 ∷ 3100 ∷ []) (omega arith) (ground arith)

quota_exact_example : count_within 2 86400000 none (0 ∷ 10 ∷ 20 ∷ 30 ∷ []) ≡ 2
quota_exact_example = quota_exact 2 86400000 0 (10 ∷ 20 ∷ 30 ∷ []) (ground arith)

abbrev pub config : Config
config = record { rate_limit_enabled = true; digest = λ s. s; abuse_id = λ s. s }

abbrev pub call : Call
call = record { now_ms = 1500; day = "2026-01-01"; day_left_ms = 60000; reachable = true }

abbrev pub lost_call : Call
lost_call = record call { reachable = false }

abbrev pub user : Identity
user = record { kind = "user"; name = "anna" }

abbrev address : Identity
address = record { kind = "ip"; name = "10.0.0.1" }

abbrev empty : LimiterState
empty = record { buckets = λ _. none; counters = λ _. none; alerts = []; headers = [] }

abbrev pub drained : LimiterState
drained = record empty { buckets = λ _. some kept }

drained_refuses : (bucket_call config call writes user drained).1.allowed ≡ false
unfolding bucket_call token_bucket
drained_refuses = refl

quota_guard_refuses_first_example :
    ((quota_guard config call call call 0 writes 5 user address drained).0
      ≡ err (too_many 0 (bucket_decision writes (bucket_call config call writes user drained).1)))
    × ((quota_guard config call call call 0 writes 5 user address drained).1.counters
        ≡ drained.counters)
    × ((quota_guard config call call call 0 writes 5 user address drained).1.buckets
          (bucket_key config "authenticated-write" address)
        ≡ some kept)
quota_guard_refuses_first_example =
    quota_guard_refuses_first config call call call 0 writes 5 user address drained refl
      (bucket_key config "authenticated-write" address) refl drained_refuses refl

let_through : (quota_guard config call call call 0 writes 5 user address empty).0 ≡ ok tt
unfolding quota_guard bucket_guard limited_bucket daily_quota apply_rate_limit bucket_call
    token_bucket quota_call fixed_quota ◌>>=◌
let_through = refl

quota_guard_counts_example :
    IsCounted 1500 5
      (quota_key config "authenticated-write" "2026-01-01" user)
      empty
      (quota_guard config call call call 0 writes 5 user address empty).1
quota_guard_counts_example =
    quota_guard_counts config call call call 0 writes 5 user address empty refl refl let_through

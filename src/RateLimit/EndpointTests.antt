-- ===== src/RateLimit/EndpointTests.antt =====
-- The guards of the endpoints at concrete requests.
use golf_rank.Base.{◌≡◌, refl, true, false, none, some, [], raise}
use golf_rank.RateLimit.Limiter.{bucket_key}
use golf_rank.RateLimit.Endpoints.{Rate, Limits, Request, photo_rate_limit, ai_planner_rate_limit}
use golf_rank.RateLimit.Endpoints.Apart.{photo_rate_limit_apart, ai_planner_rate_limit-outage}
use golf_rank.RateLimit.Tests.{config, call, lost_call, user, drained}

abbrev rate : Rate
rate = record { capacity = 2; refill = 1; unit = 3000 }

abbrev limits : Limits
limits = record {
  public_rate = rate;
  readiness_rate = rate;
  read_rate = rate;
  write_rate = rate;
  candidate_rate = rate;
  candidate_daily_quota = 5;
  green_fee_rate = rate;
  green_fee_daily_quota = 5;
  photo_rate = rate;
  photo_daily_quota = 5;
  planner_enabled = true;
  planner_allowed_subjects = [];
  planner_rate = rate;
  planner_daily_quota = 5;
  admin_rate = rate;
  trusts_header = false;
}

abbrev request : Request
request = record {
  method = "POST";
  client_host = some "10.0.0.1";
  header_values = [];
  subject = "anna";
}

photo_rate_limit_apart_example :
    (photo_rate_limit config
        (λ _. none)
        limits
        0
        request
        "course-photo-upload"
        call
        call
        call
        drained).1.buckets
      (bucket_key config "course-photo-confirm" user)
    ≡ drained.buckets (bucket_key config "course-photo-confirm" user)
photo_rate_limit_apart_example =
    photo_rate_limit_apart config (λ _. none) limits 0 request call call call drained
      "course-photo-upload" "course-photo-confirm" user refl

ai_planner_rate_limit-outage_example :
    ((ai_planner_rate_limit config (λ _. none) limits 0 request lost_call call call drained).0
      ≡ raise 503 "Request capacity is temporarily unavailable")
    × ((ai_planner_rate_limit config
          (λ _. none)
          limits
          0
          request
          lost_call
          call
          call
          drained).1.buckets
        ≡ drained.buckets)
    × ((ai_planner_rate_limit config
          (λ _. none)
          limits
          0
          request
          lost_call
          call
          call
          drained).1.counters
        ≡ drained.counters)
ai_planner_rate_limit-outage_example =
    ai_planner_rate_limit-outage config (λ _. none) limits 0 request lost_call call call drained
      refl refl refl refl

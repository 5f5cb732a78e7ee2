-- ===== src/RateLimit/Endpoints.antt =====
-- The guards of the single endpoints in core/rate_limit.py: which buckets and which quota each takes.
pub mod Apart
use text.Mathlib.Text.{◌==◌ as str_eq}
use golf_rank.Base.{
  ℕ, String, Bool, true, false, not, ◌&&◌, ◌||◌, Option, none, some, List, [], ◌∷◌, if◌then◌else◌,
  any, Result, ok,
}
use golf_rank.Base.Exec.{Exec, pure}
use golf_rank.RateLimit.Bucket.{Policy}
use golf_rank.RateLimit.Limiter.{Config, Call, Identity, LimiterState, bucket_guard, quota_guard}

-- A capacity and a refill per second, as refill / unit tokens a millisecond.
pub record Rate : Type 0 where
  pub capacity : ℕ
  pub refill : ℕ
  pub unit : ℕ

-- The settings that the guards read.
pub record Limits : Type 0 where
  pub public_rate : Rate
  pub readiness_rate : Rate
  pub read_rate : Rate
  pub write_rate : Rate
  pub candidate_rate : Rate
  pub candidate_daily_quota : ℕ
  pub green_fee_rate : Rate
  pub green_fee_daily_quota : ℕ
  pub photo_rate : Rate
  pub photo_daily_quota : ℕ
  pub planner_enabled : Bool
  pub planner_allowed_subjects : List String
  pub planner_rate : Rate
  pub planner_daily_quota : ℕ
  pub admin_rate : Rate
  pub trusts_header : Bool

-- What the guards read of a request: its method, the peer, the values of the trusted header, and
-- the identity that was authenticated.
pub record Request : Type 0 where
  pub method : String
  pub client_host : Option String
  pub header_values : List String
  pub subject : String

abbrev pub policy : String → Rate → Bool → Policy
policy name r fail_closed = record {
  name = name;
  capacity = r.capacity;
  refill = r.refill;
  unit = r.unit;
  cost = 1;
  fail_closed = fail_closed;
}

abbrev pub direct_host : Option String → String
direct_host none = "unknown"
direct_host (some host) = host

abbrev pub parsed_or : String → Option String → String
parsed_or direct none = direct
parsed_or direct (some ip) = ip

abbrev pub trusted_ip : (String → Option String) → String → List String → String
trusted_ip parse_ip direct (value ∷ []) = parsed_or direct (parse_ip value)
trusted_ip parse_ip direct values = direct

-- `client_ip`; `parse_ip` is `str(ip_address(text.strip()))`, and `none` its ValueError.
abbrev pub client_ip : (String → Option String) → Limits → Request → String
client_ip parse_ip limits r =
    if limits.trusts_header
    then trusted_ip parse_ip (direct_host r.client_host) r.header_values
    else direct_host r.client_host

abbrev pub user_of : Request → Identity
user_of r = record { kind = "user"; name = r.subject }

-- `request.method not in {"GET", "HEAD", "OPTIONS"}`
abbrev pub is_write : String → Bool
is_write method = not (any (λ m. str_eq m method) ("GET" ∷ "HEAD" ∷ "OPTIONS" ∷ []))

-- `allowed_subjects and user.provider_subject not in allowed_subjects`
abbrev pub is_shut_out : List String → String → Bool
is_shut_out [] subject = false
is_shut_out (s ∷ allowed) subject = not (any (λ a. str_eq a subject) (s ∷ allowed))

module _ (g : Config) (parse_ip : String → Option String) (limits : Limits) (time_ms : ℕ)
    (r : Request) where
  abbrev pub address_of : Identity
  address_of = record { kind = "ip"; name = client_ip parse_ip limits r }

  unfoldable pub public_rate_limit : Call → Exec LimiterState Unit
  public_rate_limit c =
      bucket_guard g c time_ms (policy "public" limits.public_rate false) address_of

  unfoldable pub readiness_rate_limit : Call → Exec LimiterState Unit
  readiness_rate_limit c =
      bucket_guard g c time_ms (policy "readiness" limits.readiness_rate false) address_of

  unfoldable pub authenticated_rate_limit : Call → Exec LimiterState Unit
  authenticated_rate_limit c =
      bucket_guard g c time_ms
        (if is_write r.method
          then policy "authenticated-write" limits.write_rate false
          else policy "authenticated-read" limits.read_rate false)
        (user_of r)

  unfoldable pub admin_rate_limit : Call → Exec LimiterState Unit
  admin_rate_limit c = bucket_guard g c time_ms (policy "admin" limits.admin_rate false) (user_of r)

  -- A guard with the user's bucket, the bucket of the address and the daily quota.
  abbrev pub three_limits : String → Rate → Bool → ℕ → Call → Call → Call → Exec LimiterState Unit
  three_limits name rate fail_closed quota c c' c'' =
      quota_guard g c c' c'' time_ms (policy name rate fail_closed) quota (user_of r) address_of

  unfoldable pub candidate_rate_limit : Call → Call → Call → Exec LimiterState Unit
  candidate_rate_limit =
      three_limits "course-candidate" limits.candidate_rate false limits.candidate_daily_quota

  unfoldable pub green_fee_suggestion_rate_limit : Call → Call → Call → Exec LimiterState Unit
  green_fee_suggestion_rate_limit =
      three_limits "green-fee-suggestion" limits.green_fee_rate false limits.green_fee_daily_quota

  -- `_photo_rate_limit`
  unfoldable pub photo_rate_limit : String → Call → Call → Call → Exec LimiterState Unit
  photo_rate_limit name = three_limits name limits.photo_rate false limits.photo_daily_quota

  abbrev pub photo_upload_rate_limit : Call → Call → Call → Exec LimiterState Unit
  photo_upload_rate_limit = photo_rate_limit "course-photo-upload"

  abbrev pub photo_confirm_rate_limit : Call → Call → Call → Exec LimiterState Unit
  photo_confirm_rate_limit = photo_rate_limit "course-photo-confirm"

  abbrev pub photo_discard_rate_limit : Call → Call → Call → Exec LimiterState Unit
  photo_discard_rate_limit = photo_rate_limit "course-photo-discard"

  unfoldable pub ai_planner_rate_limit : Call → Call → Call → Exec LimiterState Unit
  ai_planner_rate_limit c c' c'' s =
      if not limits.planner_enabled || is_shut_out limits.planner_allowed_subjects r.subject
      then (ok tt, s)
      else three_limits "ai-planner" limits.planner_rate true limits.planner_daily_quota c c' c'' s

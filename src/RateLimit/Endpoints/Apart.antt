-- ===== src/RateLimit/Endpoints/Apart.antt =====
-- The buckets that the guards of core/rate_limit.py spend from.
use text.Mathlib.Text.{◌==◌ as str_eq}
use golf_rank.Base.{
  ℕ, ◌≡◌, refl, ap, inl, inr, String, Bool, true, false, Option, none, some, Bool-cases, raise,
}
use golf_rank.Base.Exec.{>>=_keeps, >>=_raises}
use golf_rank.RateLimit.Bucket.{Policy}
use golf_rank.RateLimit.Limiter.{
  Config, Call, Key, Identity, Decision, LimiterState, same_key, bucket_key, limited_bucket,
  daily_quota, apply_rate_limit, bucket_guard, quota_guard,
}
use golf_rank.RateLimit.Limiter.Guards.{bucket_guard-outage}
use golf_rank.RateLimit.Endpoints.{
  Limits, Request, policy, user_of, is_shut_out, photo_rate_limit, ai_planner_rate_limit,
}

apply_rate_limit_keeps :
    (time_ms : ℕ) (d : Option Decision) (s : LimiterState)
    → (apply_rate_limit time_ms d s).1.buckets ≡ s.buckets
unfolding apply_rate_limit
apply_rate_limit_keeps time_ms none s = refl
apply_rate_limit_keeps time_ms (some d) s = elim (Bool-cases d.allowed) [
  | inl e ↦ rw e refl
  | inr e ↦ rw e refl
]

module _ (g : Config) (key : Key) where
  limited_bucket_keeps :
      (c : Call) (p : Policy) (i : Identity) (s : LimiterState)
      → same_key key (bucket_key g p.name i) ≡ false
      → (limited_bucket g c p i s).1.buckets key ≡ s.buckets key
  unfolding limited_bucket
  limited_bucket_keeps c p i s h = elim (Bool-cases g.rate_limit_enabled) [
    | inl e ↦ elim (Bool-cases c.reachable) [ inl k ↦ rw (e, k, h) refl | inr k ↦ rw (e, k) refl ]
    | inr e ↦ rw e refl
  ]

  daily_quota_keeps :
      (c : Call) (name : String) (limit : ℕ) (i : Identity) (fail_closed : Bool) (s : LimiterState)
      → (daily_quota g c name limit i fail_closed s).1.buckets key ≡ s.buckets key
  unfolding daily_quota
  daily_quota_keeps c name limit i fail_closed s = elim (Bool-cases g.rate_limit_enabled) [
    | inl e ↦ elim (Bool-cases c.reachable) [ inl k ↦ rw (e, k) refl | inr k ↦ rw (e, k) refl ]
    | inr e ↦ rw e refl
  ]

  bucket_guard_keeps :
      (c : Call) (time_ms : ℕ) (p : Policy) (i : Identity) (s : LimiterState)
      → same_key key (bucket_key g p.name i) ≡ false
      → (bucket_guard g c time_ms p i s).1.buckets key ≡ s.buckets key
  unfolding bucket_guard
  bucket_guard_keeps c time_ms p i s h =
      >>=_keeps (λ x. x.buckets key) (limited_bucket g c p i) (apply_rate_limit time_ms) s
        (limited_bucket_keeps c p i s h)
        (λ d x. ap (λ f. f key) (apply_rate_limit_keeps time_ms d x))

  -- Whatever happens, only the two buckets of the guard can change.
  pub quota_guard_keeps :
      (c c' c'' : Call) (time_ms : ℕ) (p : Policy) (limit : ℕ) (user ip : Identity)
      (s : LimiterState)
      → same_key key (bucket_key g p.name user) ≡ false
      → same_key key (bucket_key g p.name ip) ≡ false
      → (quota_guard g c c' c'' time_ms p limit user ip s).1.buckets key ≡ s.buckets key
  unfolding quota_guard
  quota_guard_keeps c c' c'' time_ms p limit user ip s h k =
      >>=_keeps (λ x. x.buckets key) (bucket_guard g c time_ms p user) _ s
        (bucket_guard_keeps c time_ms p user s h)
        λ _ s'.
          >>=_keeps (λ x. x.buckets key) (bucket_guard g c' time_ms p ip) _ s'
            (bucket_guard_keeps c' time_ms p ip s' k)
            λ _ s''.
              >>=_keeps (λ x. x.buckets key) (daily_quota g c'' p.name limit user p.fail_closed)
                (apply_rate_limit time_ms) s''
                (daily_quota_keeps c'' p.name limit user p.fail_closed s'')
                (λ d x. ap (λ f. f key) (apply_rate_limit_keeps time_ms d x))

module _ (g : Config) (parse_ip : String → Option String) (limits : Limits) (time_ms : ℕ)
    (r : Request) (c c' c'' : Call) (s : LimiterState) where
  -- Whatever a guard of a photo endpoint does, the bucket of any identity under another name is as
  -- it was.
  pub photo_rate_limit_apart :
      (name other : String) (i : Identity)
      → str_eq other name ≡ false
      → (photo_rate_limit g parse_ip limits time_ms r name c c' c'' s).1.buckets
          (bucket_key g other i)
        ≡ s.buckets (bucket_key g other i)
  unfolding photo_rate_limit
  photo_rate_limit_apart name other i h =
      quota_guard_keeps g (bucket_key g other i) c c' c'' time_ms _ _ _ _ s (rw h refl) (rw h refl)

  -- With the limiter and the planner on and the caller allowed, an outage at the first call of
  -- Redis answers 503 and leaves every bucket and every counter as it was.
  pub ai_planner_rate_limit-outage :
      g.rate_limit_enabled ≡ true
      → limits.planner_enabled ≡ true
      → is_shut_out limits.planner_allowed_subjects r.subject ≡ false
      → c.reachable ≡ false
      → ((ai_planner_rate_limit g parse_ip limits time_ms r c c' c'' s).0
          ≡ raise 503 "Request capacity is temporarily unavailable")
        × ((ai_planner_rate_limit g parse_ip limits time_ms r c c' c'' s).1.buckets ≡ s.buckets)
        × ((ai_planner_rate_limit g parse_ip limits time_ms r c c' c'' s).1.counters ≡ s.counters)
  unfolding ai_planner_rate_limit quota_guard
  ai_planner_rate_limit-outage on enabled allowed lost =
      let stop =
        >>=_raises
          (bucket_guard g c time_ms (policy "ai-planner" limits.planner_rate true) (user_of r)) _ s
          _ _
          (bucket_guard-outage g c time_ms (policy "ai-planner" limits.planner_rate true)
            (user_of r) s on lost) in
      rw (enabled, allowed)
        (ap (λ x. x.0) stop, ap (λ x. x.1.buckets) stop, ap (λ x. x.1.counters) stop)

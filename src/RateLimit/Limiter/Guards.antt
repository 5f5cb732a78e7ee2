-- ===== src/RateLimit/Limiter/Guards.antt =====
-- What the guards let through, refuse and spend.
use golf_rank.Base.{
  ℕ, ◌+◌, Option, none, leb, arith, ◌≤◌, ◌≡◌, refl, inl, inr, String, Bool, true, false, some, [],
  ◌∷◌, ◌++◌, if◌then◌else◌, Bool-cases, ap, sym, ◌∙◌, HttpException, ok, err, raise, err≢ok, subst,
  leb→le,
}
use golf_rank.Base.Exec.{◌>>=◌, >>=_raises, >>=_returns, >>=_ok}
use golf_rank.RateLimit.Bucket.{Policy}
use golf_rank.RateLimit.Quota.{Counter, incremented, fixed_quota}
use golf_rank.RateLimit.Limiter.Keys.{same_key_refl}
use golf_rank.RateLimit.Limiter.{
  Config, Key, backend_failure, same_key, LimiterState, Decision, Call, Identity, bucket_key,
  quota_key, bucket_call, quota_call, bucket_decision, quota_decision, after_bucket, after_quota,
  limited_bucket, daily_quota, apply_rate_limit, bucket_guard, quota_guard, rate_limit_headers,
  retry_after,
}

abbrev pub too_many : ℕ → Decision → HttpException
too_many time_ms d = record {
  status = 429;
  detail = "Too many requests";
  headers = rate_limit_headers time_ms d ++ ("Retry-After", retry_after d) ∷ [];
}

module _ (g : Config) (c : Call) (time_ms : ℕ) (p : Policy) (i : Identity) (s : LimiterState)
    (on : g.rate_limit_enabled ≡ true) where
  abbrev pub bucket_allows : Bool
  bucket_allows = (bucket_call g c p i s).1.allowed

  abbrev pub spent : LimiterState
  spent = after_bucket g p i (bucket_call g c p i s) s

  abbrev pub bucket_answer : Decision
  bucket_answer = bucket_decision p (bucket_call g c p i s).1

  pub bucket_guard_refuses :
      c.reachable ≡ true
      → bucket_allows ≡ false
      → bucket_guard g c time_ms p i s ≡ (err (too_many time_ms bucket_answer), spent)
  unfolding bucket_guard bucket_call
  bucket_guard_refuses h k = rw (on, h) (rw k)

  pub bucket_guard_admits :
      c.reachable ≡ true
      → bucket_allows ≡ true
      → bucket_guard g c time_ms p i s
        ≡ (ok tt, record spent { headers = rate_limit_headers time_ms bucket_answer })
  unfolding bucket_guard bucket_call
  bucket_guard_admits h k = rw (on, h) (rw k)

  -- With the limiter on and Redis out of reach, a policy that fails closed answers 503 and any
  -- other lets the request through, and in both cases no bucket and no counter changes and the
  -- failure is recorded.
  pub bucket_guard-outage :
      c.reachable ≡ false
      → bucket_guard g c time_ms p i s ≡ (
        if p.fail_closed then raise 503 "Request capacity is temporarily unavailable" else ok tt,
        record s { alerts = s.alerts ++ backend_failure p.name p.fail_closed ∷ [] },
      )
  unfolding bucket_guard limited_bucket apply_rate_limit ◌>>=◌
  bucket_guard-outage h =
      rw (on, h) (elim (Bool-cases p.fail_closed) [ inl e ↦ rw e refl | inr e ↦ rw e refl ])

-- The requests that a key has counted until its counter expires.
abbrev pub counted : ℕ → Option Counter → ℕ
counted now none = 0
counted now (some n) = if leb n.expires_at now then 0 else n.count

-- From one state to the other a key has counted one request more, and stands within the limit.
abbrev pub IsCounted : ℕ → ℕ → Key → LimiterState → LimiterState → Type 0
IsCounted now limit key before after =
    (n : Counter) × (after.counters key ≡ some n)
    × (n.count ≡ counted now (before.counters key) + 1)
    × (n.count ≤ limit)

incremented-count :
    (ttl now : ℕ) (stored : Option Counter)
    → (incremented ttl now stored).count ≡ counted now stored + 1
incremented-count ttl now none = omega arith
incremented-count ttl now (some c) = elim (Bool-cases (leb c.expires_at now)) [
  | inl e ↦ rw e (omega arith)
  | inr e ↦ rw e refl
]

-- A bucket guard counts nothing.
bucket_guard-counters :
    (g : Config) (c : Call) (time_ms : ℕ) (p : Policy) (i : Identity) (s : LimiterState)
    → (bucket_guard g c time_ms p i s).1.counters ≡ s.counters
unfolding bucket_guard limited_bucket apply_rate_limit ◌>>=◌ bucket_call
bucket_guard-counters g c time_ms p i s = elim (Bool-cases g.rate_limit_enabled) [
  | inr e ↦ rw e refl
  | inl e ↦ elim (Bool-cases c.reachable) [
    | inr r ↦ rw (e, r) (elim (Bool-cases p.fail_closed) [ inl f ↦ rw f refl | inr f ↦ rw f refl ])
    | inl r ↦
        rw (e, r)
          (elim (Bool-cases (bucket_call g c p i s).1.allowed) [
            | inl a ↦ rw a refl
            | inr a ↦ rw a refl
          ])
  ]
]

module _ (g : Config) (c : Call) (time_ms : ℕ) (name : String) (limit : ℕ) (fail_closed : Bool)
    (i : Identity) (on : g.rate_limit_enabled ≡ true) (h : c.reachable ≡ true) where
  quota_answers :
      (s : LimiterState)
      → daily_quota g c name limit i fail_closed s ≡ (
        ok (some (quota_decision limit (quota_call g c name limit i s).1)),
        after_quota g c name i (quota_call g c name limit i s) s,
      )
  unfolding daily_quota
  quota_answers s = rw (on, h) refl

  -- An answer that admits a request has counted it within the limit.
  quota_applied :
      (s : LimiterState)
      → let called = quota_call g c name limit i s in
        (apply_rate_limit time_ms
            (some (quota_decision limit called.1))
            (after_quota g c name i called s)).0
          ≡ ok tt
        → IsCounted c.now_ms limit
            (quota_key g name c.day i)
            s
            (apply_rate_limit time_ms
              (some (quota_decision limit called.1))
              (after_quota g c name i called s)).1
  unfolding apply_rate_limit quota_call fixed_quota
  quota_applied s =
      let called = quota_call g c name limit i s in
      elim (Bool-cases called.1.allowed) [
        | inl e ↦ rw e (λ _. (
          called.0,
          rw (same_key_refl (quota_key g name c.day i)) refl,
          incremented-count _ c.now_ms (s.counters (quota_key g name c.day i)),
          leb→le _ _ e,
        ))
        | inr e ↦ rw e (λ w. absurd (err≢ok _ _ w))
      ]

  quota_step :
      (s : LimiterState)
      → ((daily_quota g c name limit i fail_closed >>= apply_rate_limit time_ms) s).0 ≡ ok tt
      → IsCounted c.now_ms limit
          (quota_key g name c.day i)
          s
          ((daily_quota g c name limit i fail_closed >>= apply_rate_limit time_ms) s).1
  quota_step s k =
      let e =
        >>=_returns (daily_quota g c name limit i fail_closed) (apply_rate_limit time_ms) s _ _
          (quota_answers s) in
      subst (λ r. IsCounted c.now_ms limit (quota_key g name c.day i) s r.1) (sym e)
        (quota_applied s (ap (λ r. r.0) (sym e) ∙ k))

module _ (g : Config) (c₁ c₂ c₃ : Call) (time_ms : ℕ) (p : Policy) (limit : ℕ) (user ip : Identity)
    (s : LimiterState) (on : g.rate_limit_enabled ≡ true) where
  -- With the limiter on and the first call of Redis arriving, a user whose bucket refuses is
  -- answered 429 before anything of the address or of the daily quota is spent: every counter, and
  -- the bucket at every key but the user's, is as it was.
  pub quota_guard_refuses_first :
      (key : Key)
      → c₁.reachable ≡ true
      → (bucket_call g c₁ p user s).1.allowed ≡ false
      → same_key key (bucket_key g p.name user) ≡ false
      → ((quota_guard g c₁ c₂ c₃ time_ms p limit user ip s).0
          ≡ err (too_many time_ms (bucket_decision p (bucket_call g c₁ p user s).1)))
        × ((quota_guard g c₁ c₂ c₃ time_ms p limit user ip s).1.counters ≡ s.counters)
        × ((quota_guard g c₁ c₂ c₃ time_ms p limit user ip s).1.buckets key ≡ s.buckets key)
  unfolding quota_guard
  quota_guard_refuses_first key h k other =
      let stop =
        >>=_raises (bucket_guard g c₁ time_ms p user) _ s _ _
          (bucket_guard_refuses g c₁ time_ms p user s on h k) in
      (
        ap (λ r. r.0) stop,
        ap (λ r. r.1.counters) stop,
        ap (λ r. r.1.buckets key) stop ∙ rw other refl,
      )

  -- What gets through has been counted: with the limiter on and the third call of Redis arriving,
  -- after a request that is let through the user's counter of the day is one more than before it, or
  -- 1 if there was none or it had expired, and within the quota.
  pub quota_guard_counts :
      c₃.reachable ≡ true
      → (quota_guard g c₁ c₂ c₃ time_ms p limit user ip s).0 ≡ ok tt
      → IsCounted c₃.now_ms limit
          (quota_key g p.name c₃.day user)
          s
          (quota_guard g c₁ c₂ c₃ time_ms p limit user ip s).1
  unfolding quota_guard
  quota_guard_counts h k =
      let (_, _, e) = >>=_ok (bucket_guard g c₁ time_ms p user) _ s tt k in
      let (_, _, e') = >>=_ok (bucket_guard g c₂ time_ms p ip) _ _ tt (ap (λ r. r.0) (sym e) ∙ k) in
      let (n, there, more, within) =
        subst (λ r. IsCounted c₃.now_ms limit (quota_key g p.name c₃.day user) between r.1)
          (sym (e ∙ e'))
          (quota_step g c₃ time_ms p.name limit p.fail_closed user on h between
            (ap (λ r. r.0) (sym (e ∙ e')) ∙ k)) in
      (
        n,
        there,
        more ∙ ap (λ f. counted c₃.now_ms (f (quota_key g p.name c₃.day user)) + 1) unchanged,
        within,
      )
    where
      between : LimiterState
      between = (bucket_guard g c₂ time_ms p ip (bucket_guard g c₁ time_ms p user s).1).1

      unchanged : between.counters ≡ s.counters
      unchanged =
          bucket_guard-counters g c₂ time_ms p ip (bucket_guard g c₁ time_ms p user s).1
          ∙ bucket_guard-counters g c₁ time_ms p user s
